-- ===== src/Tracker.antt =====
-- `LimitedCostTracker` of src/clarity/costs/mod.rs: the limits on cost and memory of one run.
pub mod Laws
use clarity_repl.Prelude.{
  ℕ, ◌%◌, ◌*◌, String, Bool, true, false, Option, none, some, List, [], ◌∷◌, ltb, if◌then◌else◌,
}
use clarity_repl.Prelude.Result.{Result, ok, err, panic, unwrap, ok_or}
use clarity_repl.Prelude.Machine.{u64_mod, checked_sub}
use clarity_repl.Prelude.Map.{Map, lookup, insert}
use clarity_repl.Prelude.Keys.{string_eq, pair_eq}
use clarity_repl.Prelude.Method.{Method, pure, raise, lift, try, gets, modify, ◌>>=◌, ◌>>◌}
use clarity_repl.Cost
use clarity_repl.Cost.{
  ExecutionCost, CostErrors, cost_computation_failed, cost_balance_exceeded,
  memory_balance_exceeded, zero_cost, max_value, cost_overflow_add, exceeds,
}
use clarity_repl.CostFunctions
use clarity_repl.CostFunctions.{ClarityCostFunction, get_name}
use clarity_repl.Errors.{Error}
use clarity_repl.Types.{QualifiedContractIdentifier}
use clarity_repl.Types.Keys.{contract_eq}
use clarity_repl.Values.{Value, Fields, uint, tuple, no_entries, entry}

pub record ClarityCostFunctionReference : Type 0 where
  pub contract_id : QualifiedContractIdentifier
  pub function_name : String

abbrev pub clarity_memory_limit : ℕ
clarity_memory_limit = 100 * 1000 * 1000

-- A contract is opaque: `Contract` stands for `ContractContext`, which only `eval_all` reads. The
-- map from cost functions is keyed by their names.
pub record LimitedCostTracker (Contract : Type 0) : Type 0 where
  pub cost_function_references : Map String ClarityCostFunctionReference
  pub cost_contracts : Map QualifiedContractIdentifier Contract
  pub contract_call_circuits :
      Map (QualifiedContractIdentifier × String) ClarityCostFunctionReference
  pub total : ExecutionCost
  pub limit : ExecutionCost
  pub memory : ℕ
  pub memory_limit : ℕ
  pub costs_version : ℕ
  pub free : Bool
  pub mainnet : Bool

-- `data.data_map.get(name)`
abbrev pub entry_value : Fields → String → Option Value
entry_value no_entries k = none
entry_value (entry name v rest) k = if string_eq.beq name k then some v else entry_value rest k

-- `Some(UInt(n))` in the pattern of `parse_cost`, and `*n as u64`
abbrev pub as_u64 : Option Value → Option ℕ
as_u64 (some (uint n)) = some (n % u64_mod)
as_u64 _ = none

abbrev pub cost_of :
    Option ℕ → Option ℕ → Option ℕ → Option ℕ → Option ℕ → Result CostErrors ExecutionCost
cost_of (some wl) (some wc) (some rt) (some rl) (some rc) = ok (record {
  write_length = wl;
  write_count = wc;
  read_length = rl;
  read_count = rc;
  runtime = rt;
})
cost_of _ _ _ _ _ = err (cost_computation_failed "Execution Cost tuple does not contain only UInts")

unfoldable pub parse_cost : Result Error (Option Value) → Result CostErrors ExecutionCost
parse_cost (ok (some (tuple items type_map))) =
    cost_of (as_u64 (entry_value items "write_length")) (as_u64 (entry_value items "write_count"))
      (as_u64 (entry_value items "runtime")) (as_u64 (entry_value items "read_length"))
      (as_u64 (entry_value items "read_count"))
parse_cost (ok (some _)) =
    err (cost_computation_failed "Clarity cost function returned something other than a Cost tuple")
parse_cost (ok none) = err (cost_computation_failed "Clarity cost function returned nothing")
parse_cost (err e) = err (cost_computation_failed "Error evaluating result of cost function")
parse_cost panic = panic

-- `eval_all` of a call of a named function of a contract with unsigned arguments, in a fresh context:
-- its outcome, and the contract that it leaves behind.
abbrev pub EvalAll : Type 0 → Type 0
EvalAll Contract = Contract → String → List ℕ → Result Error (Option Value) × Contract

module _ {Contract : Type 0} (eval_all : EvalAll Contract) where
  abbrev pub Tracked : Type 0 → Type 0
  Tracked A = Method (LimitedCostTracker Contract) CostErrors A

  -- the free function `compute_cost`
  unfoldable pub compute_reference : ClarityCostFunctionReference → List ℕ → Tracked ExecutionCost
  unfolding parse_cost
  compute_reference reference input_sizes = do
    cost_contract ← try (λ t.
        ok_or (lookup reference.contract_id t.cost_contracts)
          (cost_computation_failed "CostFunction not found"))
    let (outcome, contract') = eval_all cost_contract reference.function_name input_sizes
    modify
        (λ t. record t { cost_contracts = insert reference.contract_id contract' t.cost_contracts })
    lift (parse_cost outcome)

  unfoldable pub compute_cost : ClarityCostFunction → List ℕ → Tracked ExecutionCost
  unfolding compute_reference
  compute_cost cost_function input = do
    free ← gets (λ t. t.free)
    if free then pure zero_cost else (do
      reference ← try (λ t.
          ok_or (lookup (get_name cost_function) t.cost_function_references)
            (cost_computation_failed "CostFunction not defined"))
      compute_reference reference input)

  -- Should a contract call be cut short? The answer costs an evaluation, which is dropped.
  unfoldable pub short_circuit_contract_call :
      QualifiedContractIdentifier → String → List ℕ → Tracked Bool
  unfolding compute_reference
  short_circuit_contract_call contract function input = do
    free ← gets (λ t. t.free)
    if free then pure false else (do
      circuit ← gets (λ t. lookup (contract, function) t.contract_call_circuits)
      elim circuit [
        | none ↦ pure false
        | some reference ↦ (do compute_reference reference input; pure true)
      ])

abbrev pub Charged : Type 0 → Type 0
Charged Contract = Method (LimitedCostTracker Contract) CostErrors (Unit {0})

module _ {Contract : Type 0} where
  abbrev pub new_free : LimitedCostTracker Contract
  new_free = record {
    cost_function_references = [];
    cost_contracts = [];
    contract_call_circuits = [];
    total = zero_cost;
    limit = max_value;
    memory = 0;
    memory_limit = clarity_memory_limit;
    costs_version = 1;
    free = true;
    mainnet = false;
  }

  -- `s.total.add(&cost)?`
  abbrev pub add_to_total : ExecutionCost → Charged Contract
  add_to_total cost t = let (r, total) = Cost.add cost t.total in (r, record t { total = total })

  unfoldable pub add_cost : ExecutionCost → Charged Contract
  unfolding Cost.add exceeds
  add_cost cost = do
    free ← gets (λ t. t.free)
    if free then pure tt else (do
      add_to_total cost
      t ← gets (λ t. t)
      if exceeds t.total t.limit then raise (cost_balance_exceeded t.total t.limit) else pure tt)

  unfoldable pub add_memory : ℕ → Charged Contract
  unfolding cost_overflow_add
  add_memory memory = do
    free ← gets (λ t. t.free)
    if free then pure tt else (do
      n ← try (λ t. cost_overflow_add t.memory memory)
      modify (λ t. record t { memory = n })
      t ← gets (λ t. t)
      if ltb t.memory_limit t.memory
          then raise (memory_balance_exceeded t.memory t.memory_limit)
          else pure tt)

  -- Dropping more memory than is held is a panic.
  unfoldable pub drop_memory : ℕ → Charged Contract
  drop_memory memory = do
    free ← gets (λ t. t.free)
    if free then pure tt else (do
      n ← try (λ t. unwrap (checked_sub t.memory memory))
      modify (λ t. record t { memory = n }))

  unfoldable pub reset_memory : Charged Contract
  reset_memory = do
    free ← gets (λ t. t.free)
    if free then pure tt else modify (λ t. record t { memory = 0 })

  unfoldable pub set_total :
      ExecutionCost → LimitedCostTracker Contract → LimitedCostTracker Contract
  set_total total t = record t { total = total }

-- `runtime_cost`: the cost of a function at an input is computed and charged. An input that does not
-- fit u64 is an overflow.
module _ {Contract : Type 0} (eval_all : EvalAll Contract) where
  unfoldable pub runtime_cost :
      ClarityCostFunction → ℕ → Method (LimitedCostTracker Contract) CostErrors (Unit {0})
  unfolding compute_cost add_cost
  runtime_cost cost_function input = do
    lift (if ltb input u64_mod then ok tt else err Cost.cost_overflow)
    cost ← compute_cost eval_all cost_function (input ∷ [])
    add_cost cost
