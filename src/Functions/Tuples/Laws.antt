-- ===== src/Functions/Tuples/Laws.antt =====
-- Merging and making tuples (src/clarity/functions/tuples.rs), seen through their names.
use clarity_repl.Prelude.{ℕ, ◌≡◌, refl, String, some, List, get_elem?, arith}
use clarity_repl.Prelude.Result.{ok, >>=-eq-ok}
use clarity_repl.Types.{TypeSignature, TypeMap, tuple_type, field, field_type, no_fields}
use clarity_repl.Types.Build.{tuple_of}
use clarity_repl.Values.{Value, Fields, tuple, no_entries}
use clarity_repl.Values.TypeOf.{type_of}
use clarity_repl.Values.Make.{
  checked, with_tuple_type, entry_value, shallow_merge, from_data, collect_data, get,
}
use clarity_repl.Values.Make.Laws.{
  AreDistinct, or_else, entry_value-insert_entries, collect_data-all,
}
use clarity_repl.Functions.Tuples.{tuple_merge}

-- Merging two tuples, the second without a repeated name, succeeds, and the merged tuple has
-- under every name what the second has, and what the first has where the second has nothing.
pub tuple_merge-entry_value :
    (base updates : Fields) (base_type updates_type : TypeMap) (k : String)
    → AreDistinct updates
    → (merged : Fields) × (merged_type : TypeMap) × (tuple_merge
          (tuple base base_type)
          (tuple updates updates_type)
        ≡ ok (tuple merged merged_type))
      × (entry_value merged k ≡ or_else (entry_value updates k) (entry_value base k))
unfolding tuple_merge shallow_merge
tuple_merge-entry_value base updates base_type updates_type k distinct =
    (_, _, refl, entry_value-insert_entries updates base k distinct)

tuple_of-shape : (m : TypeMap) {t : TypeSignature} → checked (tuple_of m) ≡ ok t → t ≡ tuple_type m
unfolding tuple_of
tuple_of-shape no_fields h = ground (arith, h)
tuple_of-shape (field name s rest) h = ground (arith, h)

with_tuple_type-shape :
    (data_map out : Fields) (m out_types : TypeMap) {t : TypeSignature}
    → t ≡ tuple_type m
    → with_tuple_type data_map t ≡ ok (tuple out out_types)
    → (out ≡ data_map) × (out_types ≡ m)
with_tuple_type-shape data_map out m out_types e h = ground (arith, e, h)

-- A tuple that is made from pairs gives, under the name of each pair, the value of the pair, and
-- the type of the tuple has the type of the value there.
pub from_data-get :
    (items : List (String × Value)) (out : Fields) (out_types : TypeMap) (i : ℕ) (name : String)
    (v : Value)
    → from_data items ≡ ok (tuple out out_types)
    → get_elem? items i ≡ some (name, v)
    → (get out out_types name ≡ ok v)
      × ((t : TypeSignature) × (type_of v ≡ ok t) × (field_type out_types name ≡ some t))
unfolding from_data get
from_data-get items out out_types i name v h there =
    let ((types, data_map), collected, rest) =
      >>=-eq-ok (collect_data items no_fields no_entries) _ h in
    let (t, typed, made) = >>=-eq-ok (checked (tuple_of types)) _ rest in
    let (same, same_types) =
      with_tuple_type-shape data_map out types out_types (tuple_of-shape types typed) made in
    let (there_now, (s, of_value, field_there)) =
      collect_data-all items no_fields types no_entries data_map i name v collected there in
    (ground (arith, same, there_now), (s, of_value, ground (arith, same_types, field_there)))
