-- ===== src/Tests/Numbers.antt =====
-- Costs, numbers and types.
use clarity_repl.Prelude.{
  ℕ, ◌+◌, ◌^◌, ◌≤◌, ◌<◌, ◌≡◌, ◌↔◌, refl, none, [], ◌∷◌, map, true, false, if◌then◌else◌, ltb, arith,
}
use clarity_repl.Prelude.Result.{ok, err}
use clarity_repl.Prelude.Machine.{u128_mod}
use clarity_repl.Errors.{runtime, arithmetic_overflow}
use clarity_repl.Values.{uint}
use clarity_repl.Cost.{ExecutionCost}
use clarity_repl.Cost.Laws.{Le, InRange, plus}
use clarity_repl.Tracker.{LimitedCostTracker, new_free, add_cost, EvalAll}
use clarity_repl.Tracker.Laws.{add_cost_iff}
use clarity_repl.Functions.Arithmetic.{native_add, native_log2}
use clarity_repl.Functions.Arithmetic.Laws.{native_add-sum, native_log2_bounds, sum}
use clarity_repl.Types.{TypeSignature, buffer_type, optional_type, list_type, uint_type}
use clarity_repl.Types.Build.{list_of}
use clarity_repl.Types.Admits.{admits_type}
use clarity_repl.Types.Limits.{IsBuilt, list, IsWithinLimits, IsBuilt-IsWithinLimits}
use clarity_repl.Types.Laws.{admits_type_trans}

native_add-sum_example : native_add (map uint (3 ∷ 4 ∷ [])) ≡ (
    if ltb (sum (3 ∷ 4 ∷ [])) u128_mod
    then ok (uint (sum (3 ∷ 4 ∷ [])))
    else err (runtime arithmetic_overflow))
native_add-sum_example = native_add-sum 3 (4 ∷ [])

native_log2_bounds_example :
    (r : ℕ) × (native_log2 (uint 1000) ≡ ok (uint r)) × (2 ^ r ≤ 1000) × (1000 < 2 ^ (r + 1))
native_log2_bounds_example = native_log2_bounds 1000 (ground arith) (ground arith)

abbrev unit_cost : ExecutionCost
unit_cost = record {
  write_length = 1;
  write_count = 1;
  read_length = 1;
  read_count = 1;
  runtime = 1;
}

abbrev tracker : LimitedCostTracker (Unit {0})
tracker = record new_free { free = false }

add_cost_iff_example :
    (add_cost unit_cost tracker ≡ (ok tt, record tracker { total = plus tracker.total unit_cost }))
    ↔ (InRange (plus tracker.total unit_cost) × Le (plus tracker.total unit_cost) tracker.limit)
add_cost_iff_example = add_cost_iff tracker unit_cost refl

abbrev no_evaluation : EvalAll (Unit {0})
no_evaluation contract name sizes = (ok none, contract)

IsBuilt-list : IsBuilt (list_type uint_type 10)
unfolding list_of clarity_repl.Types.Size.depth clarity_repl.Types.Size.inner_size
    clarity_repl.Types.Size.inner_type_size
IsBuilt-list = list uint_type 10 refl

IsBuilt-IsWithinLimits_example : IsWithinLimits (list_type uint_type 10)
IsBuilt-IsWithinLimits_example = IsBuilt-IsWithinLimits IsBuilt-list

admits_type_trans_example : admits_type (list_type uint_type 10) (list_type uint_type 3) ≡ ok true
unfolding admits_type clarity_repl.Types.Admits.type_beq
admits_type_trans_example =
    admits_type_trans (list_type uint_type 10) (list_type uint_type 5) (list_type uint_type 3) refl
      refl
