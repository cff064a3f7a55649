-- ===== src/Tests/Sequences.antt =====
-- Sequences and tuples.
use clarity_repl.Prelude.{
  ℕ, ◌+◌, ◌-◌, ◌≡◌, refl, Bool, true, false, some, [], ◌∷◌, get_elem?, ltb, if◌then◌else◌, arith,
}
use clarity_repl.Prelude.Result.{ok}
use clarity_repl.Prelude.Method.{Method, pure, ◌>>=◌}
use clarity_repl.Errors.{Error}
use clarity_repl.Types.{TypeSignature, TypeMap, field, field_type, no_fields, uint_type, bool_type}
use clarity_repl.Values.{Value, Fields, uint, bool, tuple, buffer, no_entries, entry}
use clarity_repl.Values.TypeOf.{type_of}
use clarity_repl.Values.Equality.{value_beq}
use clarity_repl.Values.Make.{entry_value, from_data, get}
use clarity_repl.Values.Make.Laws.{or_else}
use clarity_repl.Values.Sequence.{
  SequenceData, list_data, ascii_data, len, element_at, contains, append,
}
use clarity_repl.Values.Sequence.Laws.{contains-element_at, append-element_at}
use clarity_repl.Values.Sequence.Filter.{drain_filter, kept, drain_filter-kept}
use clarity_repl.Functions.Sequences.Rows.{map_arguments}
use clarity_repl.Functions.Sequences.Rows.Columns.{row_at}
use clarity_repl.Functions.Sequences.Rows.Laws.{map_arguments-row_at}
use clarity_repl.Functions.Tuples.{tuple_merge}
use clarity_repl.Functions.Tuples.Laws.{tuple_merge-entry_value, from_data-get}

abbrev abc : SequenceData
abc = ascii_data (97 ∷ 98 ∷ 99 ∷ [])

contains-element_at_example :
    (v : Value) × (element_at abc 1 ≡ ok (some v))
    × (value_beq v (Value.string_ascii (98 ∷ [])) ≡ true)
unfolding clarity_repl.Values.Make.is_string_byte contains
contains-element_at_example = contains-element_at abc (Value.string_ascii (98 ∷ [])) 1 refl refl

abbrev two : SequenceData
two = list_data (uint 1 ∷ uint 2 ∷ []) uint_type 2

abbrev one : SequenceData
one = list_data (uint 3 ∷ []) uint_type 1

abbrev three : SequenceData
three = list_data (uint 1 ∷ uint 2 ∷ uint 3 ∷ []) uint_type 3

append-element_at_example :
    (len three ≡ len two + len one)
    × (element_at three 2
        ≡ (if ltb 2 (len two) then element_at two 2 else element_at one (2 - len two)))
unfolding append clarity_repl.Types.Admits.factor_out_no_type clarity_repl.Types.is_no_type
    clarity_repl.Types.Admits.least_supertype clarity_repl.Types.Admits.type_beq
    clarity_repl.Types.Build.list_of clarity_repl.Types.Size.depth
    clarity_repl.Types.Size.inner_size clarity_repl.Types.Size.inner_type_size
append-element_at_example = append-element_at two one three 2 refl

-- a filter that counts its calls and takes the numbers below 3
abbrev below_three : Value → Method ℕ Error Bool
below_three (uint n) count = (ok (ltb n 3), count + 1)
below_three v count = (ok false, count + 1)

drain_filter-kept_example :
    drain_filter (λ v. ok v) below_three 4 0 (uint 5 ∷ uint 1 ∷ uint 2 ∷ []) 0
    ≡ (do items ← kept (λ v. ok v) below_three (uint 5 ∷ uint 1 ∷ uint 2 ∷ []); pure (some items)) 0
drain_filter-kept_example =
    drain_filter-kept (λ v. ok v) below_three (uint 5 ∷ uint 1 ∷ uint 2 ∷ []) 4 0 (omega arith)

map_arguments-row_at_example :
    get_elem? (map_arguments {A = ℕ} ((1 ∷ 2 ∷ 3 ∷ []) ∷ (4 ∷ 5 ∷ []) ∷ [])) 1
    ≡ row_at {A = ℕ} 1 ((1 ∷ 2 ∷ 3 ∷ []) ∷ (4 ∷ 5 ∷ []) ∷ [])
map_arguments-row_at_example =
    map_arguments-row_at (1 ∷ 2 ∷ 3 ∷ []) ((4 ∷ 5 ∷ []) ∷ []) 1 (omega arith)
      (omega arith, (omega arith, tt))

-- an empty sequence, after which there is a row all the same
empty_sequence : map_arguments {A = ℕ} ([] ∷ (4 ∷ 5 ∷ []) ∷ []) ≡ (4 ∷ []) ∷ []
unfolding map_arguments
empty_sequence = refl

abbrev base : Fields
base = entry "a" (uint 1) (entry "b" (uint 2) no_entries)

abbrev update : Fields
update = entry "b" (bool true) no_entries

abbrev base_type : TypeMap
base_type = field "a" uint_type (field "b" uint_type no_fields)

abbrev update_type : TypeMap
update_type = field "b" bool_type no_fields

tuple_merge-entry_value_example :
    (merged : Fields) × (merged_type : TypeMap) × (tuple_merge
        (tuple base base_type)
        (tuple update update_type)
      ≡ ok (tuple merged merged_type))
    × (entry_value merged "b" ≡ or_else (entry_value update "b") (entry_value base "b"))
unfolding entry_value
tuple_merge-entry_value_example =
    tuple_merge-entry_value base update base_type update_type "b" (refl, tt)

from_data-get_example :
    (get base base_type "b" ≡ ok (uint 2))
    × ((t : TypeSignature) × (type_of (uint 2) ≡ ok t) × (field_type base_type "b" ≡ some t))
unfolding from_data type_of field_type clarity_repl.Types.Build.insert_field
    clarity_repl.Types.Build.tuple_of clarity_repl.Types.Size.depth
    clarity_repl.Types.Size.inner_size clarity_repl.Types.len
    clarity_repl.Types.Size.inner_type_size
from_data-get_example =
    from_data-get (("b", uint 2) ∷ ("a", uint 1) ∷ []) base base_type 0 "b" (uint 2) refl refl
