-- ===== src/Tracker/Laws.antt =====
-- Charges on `LimitedCostTracker` of src/clarity/costs/mod.rs.
use clarity_repl.Prelude.{ℕ, ◌+◌, ◌≤◌, ◌≡◌, ◌↔◌, false, arith, String, List}
use clarity_repl.Prelude.Result.{ok}
use clarity_repl.Cost.{ExecutionCost}
use clarity_repl.Cost.Laws.{Le, InRange, plus}
use clarity_repl.Types.{QualifiedContractIdentifier}
use clarity_repl.Tracker.{
  LimitedCostTracker, add_cost, add_memory, drop_memory, short_circuit_contract_call, EvalAll,
}

module _ {Contract : Type 0} (t : LimitedCostTracker Contract) where
  -- On a tracker that is not free, a charge succeeds with the exact new total exactly when the
  -- exact sum fits in u64 and is within the limit in every dimension.
  pub add_cost_iff :
      (cost : ExecutionCost)
      → t.free ≡ false
      → (add_cost cost t ≡ (ok tt, record t { total = plus t.total cost }))
        ↔ (InRange (plus t.total cost) × Le (plus t.total cost) t.limit)
  unfolding add_cost
  add_cost_iff cost h = ground arith

  -- Memory that was added with success and is dropped again leaves the tracker as it was.
  pub drop_memory-add_memory :
      (m : ℕ) (u : LimitedCostTracker Contract)
      → add_memory m t ≡ (ok tt, u)
      → drop_memory m u ≡ (ok tt, t)
  unfolding add_memory drop_memory
  drop_memory-add_memory m u h = ground arith

  pub add_memory_limit :
      (m : ℕ) {u : LimitedCostTracker Contract}
      → t.free ≡ false
      → add_memory m t ≡ (ok tt, u)
      → (u.memory ≡ t.memory + m) × (u.memory ≤ t.memory_limit)
  unfolding add_memory
  add_memory_limit m f h = ground arith

  module _ (eval_all : EvalAll Contract) where
    -- Asking whether a contract call has a short circuit never changes the total cost.
    pub short_circuit_contract_call_free_of_charge :
        (contract : QualifiedContractIdentifier) (function : String) (input : List ℕ)
        → (short_circuit_contract_call eval_all contract function input t).1.total ≡ t.total
    unfolding short_circuit_contract_call
    short_circuit_contract_call_free_of_charge contract function input = ground arith
