-- ===== src/Functions/Sequences.antt =====
-- src/clarity/functions/sequences.rs, from evaluated arguments, and the arguments of the calls that
-- `special_map` makes.
pub mod Rows
use clarity_repl.Prelude.{
  ℕ, suc, ◌+◌, ◌%◌, max, Bool, true, false, Option, none, some, List, [], ◌∷◌, ◌++◌, length,
  get_elem?, ltb, leb, ◌==◌, if◌then◌else◌,
}
use clarity_repl.Prelude.Result.{Result, ok, err, panic, map_err, assert, and_then}
use clarity_repl.Prelude.Method.{Method, pure, raise, crash, lift, ◌>>=◌, ◌>>◌}
use clarity_repl.Prelude.Machine.{u32_mod, u64_mod}
use clarity_repl.Cost.{CostErrors, cost_overflow_add}
use clarity_repl.CostFunctions
use clarity_repl.CostFunctions.{ClarityCostFunction}
use clarity_repl.Tracker.{LimitedCostTracker, EvalAll, runtime_cost}
use clarity_repl.Errors.{
  Error, unchecked, runtime, from_cost_errors, expected_sequence, type_value_error,
  expected_list_application, bad_type_construction,
}
use clarity_repl.Types.{TypeSignature, uint_type, is_no_type}
use clarity_repl.Types.Build.{list_of}
use clarity_repl.Types.Admits.{least_supertype}
use clarity_repl.Types.Size
use clarity_repl.Values.{Value, Values, list, uint, none_value}
use clarity_repl.Values.TypeOf.{type_of, some_of}
use clarity_repl.Values.TypeOf
use clarity_repl.Values.Make.{checked, items_of, values_of, list_from, with_list_type}
use clarity_repl.Values.Sequence.{
  SequenceData, list_data, sequence_of, value_of, len, contains, element_at, append,
}

-- `Err(CheckErrors::ExpectedSequence(TypeSignature::type_of(&value)).into())`
abbrev pub not_sequence : {A : Type 0} → Value → Result Error A
not_sequence v = and_then (checked (type_of v)) (λ t. err (unchecked (expected_sequence t)))

unfoldable pub native_len : Value → Result Error Value
unfolding sequence_of len
native_len sequence = elim (sequence_of sequence) [
  | none ↦ not_sequence sequence
  | some s ↦ ok (uint (len s))
]

-- `Some(index) => Value::some(Value::UInt(index)), None => Ok(Value::none())`
abbrev pub optional_value : Option Value → Result Error Value
optional_value none = ok none_value
optional_value (some v) = checked (some_of v)

abbrev pub as_uint : Option ℕ → Option Value
as_uint none = none
as_uint (some index) = some (uint index)

unfoldable pub native_index_of : Value → Value → Result Error Value
unfolding sequence_of contains
native_index_of sequence to_find = elim (sequence_of sequence) [
  | none ↦ not_sequence sequence
  | some s ↦ and_then (contains s to_find) (λ found. optional_value (as_uint found))
]

-- An index that does not fit usize is past the end of every sequence.
unfoldable pub native_element_at : Value → Value → Result Error Value
unfolding sequence_of element_at
native_element_at sequence index = elim (sequence_of sequence) [
  | none ↦ not_sequence sequence
  | some s ↦ elim index [
    | uint n ↦
        if leb u64_mod n
        then ok none_value
        else and_then (element_at s n) (λ found. optional_value found)
    | other ↦ err (unchecked (type_value_error uint_type other))
  ]
]

-- `reduce_max_len` of src/clarity/types/signatures.rs
unfoldable pub reduce_max_len : ℕ → ℕ → ℕ
reduce_max_len new_max_len max_len = if leb new_max_len max_len then new_max_len else max_len

abbrev pub reduced : ℕ → SequenceData → SequenceData
reduced n (list_data items t max_len) = list_data items t (reduce_max_len (n % u32_mod) max_len)
reduced n s = s

-- `if let Ok(next_entry_type) = least_supertype(..) { .. } else { Err(..) }`
abbrev pub appended : Values → TypeSignature → ℕ → Value → TypeSignature → Result Error Value
appended items entry_type size element element_type =
    elim (least_supertype entry_type element_type) [
      | ok next_entry_type ↦
          and_then (checked (list_of next_entry_type ((size + 1) % u32_mod)))
            (λ signature. with_list_type (values_of (items_of items ++ (element ∷ []))) signature)
      | err e ↦ err (unchecked (type_value_error entry_type element))
      | panic ↦ panic
    ]

-- the loop over the sizes in `list_cons`
unfoldable pub total_size : ℕ → List Value → Result Error ℕ
total_size acc [] = ok acc
total_size acc (a ∷ rest) = and_then (checked (TypeOf.size a)) (λ n.
    and_then (map_err (λ e. unchecked (from_cost_errors e)) (cost_overflow_add acc n))
      (λ sum. total_size sum rest))

module _ {Contract : Type 0} (eval_all : EvalAll Contract) where
  -- `runtime_cost(cost_function, env, input)?`
  unfoldable pub charge :
      ClarityCostFunction → ℕ → Method (LimitedCostTracker Contract) Error (Unit {0})
  charge cost_function input t =
      let (r, t') = runtime_cost eval_all cost_function input t in
      (map_err (λ e. unchecked (from_cost_errors e)) r, t')

  -- `special_as_max_len` with a literal length
  unfoldable pub as_max_len : Value → ℕ → Method (LimitedCostTracker Contract) Error Value
  unfolding charge sequence_of value_of len reduce_max_len
  as_max_len sequence expected_len = do
    charge CostFunctions.as_max_len 0
    elim (sequence_of sequence) [
      | none ↦ lift (not_sequence sequence)
      | some s ↦
          if ltb expected_len (len s)
          then pure none_value
          else lift (checked (some_of (value_of (reduced expected_len s))))
    ]

  -- `special_concat`
  unfoldable pub concat : Value → Value → Method (LimitedCostTracker Contract) Error Value
  unfolding charge sequence_of value_of append
  concat sequence other = do
    a ← lift (checked (TypeOf.size sequence))
    b ← lift (checked (TypeOf.size other))
    cost ← lift (map_err (λ e. unchecked (from_cost_errors e)) (cost_overflow_add a b))
    charge CostFunctions.concat cost
    elim (sequence_of sequence) [
      | none ↦ raise (runtime bad_type_construction)
      | some s ↦ elim (sequence_of other) [
        | none ↦ raise (runtime bad_type_construction)
        | some o ↦ do joined ← lift (append s o); pure (value_of joined)
      ]
    ]

  -- `special_append`
  unfoldable pub append_element : Value → Value → Method (LimitedCostTracker Contract) Error Value
  unfolding charge
  append_element (list items entry_type size) element = do
    element_type ← lift (checked (type_of element))
    a ← lift (Size.size entry_type)
    b ← lift (Size.size element_type)
    charge CostFunctions.append (max a b)
    if is_no_type entry_type
        then (do lift (assert (size == 0)); lift (list_from (element ∷ [])))
        else lift (appended items entry_type size element element_type)
  append_element v element = raise (unchecked expected_list_application)

  unfoldable pub list_cons : List Value → Method (LimitedCostTracker Contract) Error Value
  unfolding charge total_size
  list_cons args = do
    arg_size ← lift (total_size 0 args)
    charge CostFunctions.list_cons arg_size
    lift (list_from args)
