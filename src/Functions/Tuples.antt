-- ===== src/Functions/Tuples.antt =====
-- src/clarity/functions/tuples.rs, from evaluated arguments.
pub mod Laws
use clarity_repl.Prelude.{ℕ, String, List, length}
use clarity_repl.Prelude.Result.{Result, ok, err, panic, expect, and_then}
use clarity_repl.Prelude.Method.{Method, pure, raise, lift, ◌>>=◌, ◌>>◌}
use clarity_repl.CostFunctions
use clarity_repl.Tracker.{LimitedCostTracker, EvalAll}
use clarity_repl.Errors.{Error, unchecked, expected_tuple}
use clarity_repl.Values.{Value, Fields, tuple, none_value, some_value, no_entries, entry}
use clarity_repl.Values.TypeOf.{type_of, some_of}
use clarity_repl.Values.Make.{checked, get, shallow_merge, from_data}
use clarity_repl.Functions.Sequences.{charge}
use clarity_repl.Serialization.Write.{count_entries}

-- `Err(CheckErrors::ExpectedTuple(TypeSignature::type_of(&value)).into())`
abbrev pub not_tuple : {A : Type 0} → Value → Result Error A
not_tuple v = and_then (checked (type_of v)) (λ t. err (unchecked (expected_tuple t)))

unfoldable pub tuple_merge : Value → Value → Result Error Value
unfolding shallow_merge
tuple_merge (tuple base base_type) (tuple updates updates_type) =
    let (combined, combined_type) = shallow_merge (base, base_type) (updates, updates_type) in
    ok (tuple combined combined_type)
tuple_merge (tuple base base_type) update = not_tuple update
tuple_merge base update = not_tuple base

module _ {Contract : Type 0} (eval_all : EvalAll Contract) where
  unfoldable pub tuple_get : String → Value → Method (LimitedCostTracker Contract) Error Value
  unfolding charge get
  tuple_get arg_name (some_value (tuple data_map type_map)) = do
    charge eval_all CostFunctions.tuple_get (count_entries data_map)
    v ← lift (get data_map type_map arg_name)
    lift (expect (checked (some_of v)))
  tuple_get arg_name (some_value v) = lift (not_tuple v)
  tuple_get arg_name none_value = pure none_value
  tuple_get arg_name (tuple data_map type_map) = do
    charge eval_all CostFunctions.tuple_get (count_entries data_map)
    lift (get data_map type_map arg_name)
  tuple_get arg_name v = lift (not_tuple v)

  unfoldable pub tuple_cons :
      List (String × Value) → Method (LimitedCostTracker Contract) Error Value
  unfolding charge
  tuple_cons bindings = do
    charge eval_all CostFunctions.tuple_cons (length bindings)
    lift (from_data bindings)
