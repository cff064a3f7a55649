-- ===== src/Values/Make.antt =====
-- The constructors of values that check what they are given, and the operations of tuples:
-- src/clarity/types/mod.rs, with `parent_list_type` of src/clarity/types/signatures.rs.
pub mod Laws
use Prim.Native.String.{compare}
use Prim.Native.Nat.{Ordering}
use clarity_repl.Prelude.{
  ℕ, String, Bool, true, ◌||◌, ◌&&◌, Option, none, some, List, [], ◌∷◌, length, ltb, leb,
  if◌then◌else◌,
}
use clarity_repl.Prelude.Result.{
  Result, ok, err, panic, map_err, expect, ok_or, fail_if, ◌>>=◌, ◌>>◌,
}
use clarity_repl.Prelude.Keys.{string_eq}
use clarity_repl.Prelude.Machine.{u32_mod}
use clarity_repl.Prelude.Map.{is_some}
use clarity_repl.Errors.{
  Error, unchecked, interpreter, value_too_large, invalid_characters_detected, name_already_used,
  no_such_tuple_field, failure_constructing_list_with_type, failure_constructing_tuple_with_type,
}
use clarity_repl.Types.{TypeSignature, TypeMap, no_fields, field, field_type, list_type, tuple_type}
use clarity_repl.Types.Build.{
  Checked, buffer_length, string_utf8_length, list_of, empty_list, tuple_of, insert_field,
}
use clarity_repl.Types.Admits.{admits_type, least_supertype}
use clarity_repl.Values.{
  Value, Values, Fields, buffer, string_ascii, string_utf8, list, tuple, nil, cons, no_entries,
  entry,
}
use clarity_repl.Values.TypeOf.{type_of}
use clarity_repl.Values.Utf8.{utf8_chars}

-- A `Vec<Value>` and the items of a list value.
abbrev pub values_of : List Value → Values
values_of [] = nil
values_of (v ∷ vs) = cons v (values_of vs)

abbrev pub items_of : Values → List Value
items_of nil = []
items_of (cons v vs) = v ∷ items_of vs

-- `?` on a check error
abbrev pub checked : {A : Type 0} → Checked A → Result Error A
checked r = map_err unchecked r

unfoldable pub buff_from : List ℕ → Result Error Value
buff_from bytes = do n ← checked (buffer_length (length bytes)); ok (buffer bytes)

abbrev pub buff_from_byte : ℕ → Value
buff_from_byte byte = buffer (byte ∷ [])

-- `is_ascii_alphanumeric`, `is_ascii_punctuation` and `is_ascii_whitespace`
abbrev pub is_ascii_alphanumeric : ℕ → Bool
is_ascii_alphanumeric b =
    (leb 48 b && leb b 57) || ((leb 65 b && leb b 90) || (leb 97 b && leb b 122))

abbrev pub is_ascii_punctuation : ℕ → Bool
is_ascii_punctuation b =
    (leb 33 b && leb b 47)
    || ((leb 58 b && leb b 64) || ((leb 91 b && leb b 96) || (leb 123 b && leb b 126)))

-- space, tab, line feed, form feed and carriage return
abbrev pub is_ascii_whitespace : ℕ → Bool
is_ascii_whitespace b = (leb 32 b && leb b 32) || ((leb 9 b && leb b 10) || (leb 12 b && leb b 13))

unfoldable pub is_string_byte : ℕ → Bool
is_string_byte b = is_ascii_alphanumeric b || (is_ascii_punctuation b || is_ascii_whitespace b)

abbrev pub all {ℓ} : {A : Type ℓ} → (A → Bool) → List A → Bool
all p [] = true
all p (x ∷ xs) = p x && all p xs

unfoldable pub string_ascii_from_bytes : List ℕ → Result Error Value
unfolding is_string_byte
string_ascii_from_bytes bytes = do
  n ← checked (buffer_length (length bytes))
  if all is_string_byte bytes
      then ok (string_ascii bytes)
      else err (unchecked invalid_characters_detected)

unfoldable pub string_utf8_from_bytes : List ℕ → Result Error Value
string_utf8_from_bytes bytes = do
  data_chars ← ok_or (utf8_chars bytes) (unchecked invalid_characters_detected)
  n ← checked (string_utf8_length (length data_chars))
  ok (string_utf8 data_chars)

-- `args.iter().map(type_of)`
unfoldable pub types_of : List Value → Checked (List TypeSignature)
types_of [] = ok []
types_of (v ∷ vs) = do t ← type_of v; ts ← types_of vs; ok (t ∷ ts)

-- the loop of `parent_list_type`
unfoldable pub supertype_of_all : TypeSignature → List TypeSignature → Checked TypeSignature
supertype_of_all current [] = ok current
supertype_of_all current (next ∷ rest) = do
  entry_type ← least_supertype current next
  supertype_of_all entry_type rest

unfoldable pub parent_list_type : List TypeSignature → Checked TypeSignature
unfolding supertype_of_all
parent_list_type [] = ok empty_list
parent_list_type (first ∷ rest) = do
  entry_type ← supertype_of_all first rest
  fail_if (leb u32_mod (length (first ∷ rest))) value_too_large
  list_of entry_type (length (first ∷ rest))

-- a list value of a list type, which is all that the callers pass
abbrev pub with_list_type : Values → TypeSignature → Result Error Value
with_list_type items (list_type entry_type max_len) = ok (list items entry_type max_len)
with_list_type items _ = panic

unfoldable pub list_from : List Value → Result Error Value
unfolding types_of parent_list_type
list_from list_data = do
  children_types ← checked (types_of list_data)
  type_sig ← checked (parent_list_type children_types)
  with_list_type (values_of list_data) type_sig

-- `TypeSignature::admits`
unfoldable pub admits : TypeSignature → Value → Result Error Bool
admits t v = do s ← checked (type_of v); expect (admits_type t s)

-- the loop of `list_with_type`
unfoldable pub all_admitted : TypeSignature → List Value → Result Error (Unit {0})
unfolding admits
all_admitted t [] = ok tt
all_admitted t (item ∷ rest) = do
  admitted ← admits t item
  if admitted then all_admitted t rest else err (interpreter failure_constructing_list_with_type)

unfoldable pub list_with_type : List Value → TypeSignature → ℕ → Result Error Value
unfolding all_admitted
list_with_type list_data entry_type max_len = do
  fail_if (ltb max_len (length list_data)) (interpreter failure_constructing_list_with_type)
  all_admitted entry_type list_data
  ok (list (values_of list_data) entry_type max_len)

-- `BTreeMap::insert` into the entries of a tuple, in the order of the names
unfoldable pub insert_entry : String → Value → Fields → Fields
insert_entry name v no_entries = entry name v no_entries
insert_entry name v (entry k w rest) = elim (compare name k) [
  | Ordering.lt ↦ entry name v (entry k w rest)
  | Ordering.eq ↦ entry name v rest
  | Ordering.gt ↦ entry k w (insert_entry name v rest)
]

-- `data_map.get(name)`
unfoldable pub entry_value : Fields → String → Option Value
entry_value no_entries k = none
entry_value (entry name v rest) k = if string_eq.beq name k then some v else entry_value rest k

-- the loop of `from_data`
unfoldable pub collect_data :
    List (String × Value) → TypeMap → Fields → Result Error (TypeMap × Fields)
unfolding insert_entry
collect_data [] type_map data_map = ok (type_map, data_map)
collect_data ((name, value) ∷ rest) type_map data_map = do
  type_info ← checked (type_of value)
  fail_if (is_some (field_type type_map name)) (unchecked (name_already_used name))
  collect_data rest (insert_field name type_info type_map) (insert_entry name value data_map)

-- a tuple value of a tuple type
abbrev pub with_tuple_type : Fields → TypeSignature → Result Error Value
with_tuple_type data_map (tuple_type type_map) = ok (tuple data_map type_map)
with_tuple_type data_map _ = panic

unfoldable pub from_data : List (String × Value) → Result Error Value
unfolding collect_data
from_data items = do
  (type_map, data_map) ← collect_data items no_fields no_entries
  t ← checked (tuple_of type_map)
  with_tuple_type data_map t

-- the loop of `from_data_typed`
unfoldable pub collect_typed : List (String × Value) → TypeMap → Fields → Result Error Fields
unfolding insert_entry admits
collect_typed [] expected data_map = ok data_map
collect_typed ((name, value) ∷ rest) expected data_map = do
  expected_type ←
      ok_or (field_type expected name) (interpreter failure_constructing_tuple_with_type)
  admitted ← admits expected_type value
  if admitted
      then collect_typed rest expected (insert_entry name value data_map)
      else err (interpreter failure_constructing_tuple_with_type)

unfoldable pub from_data_typed : List (String × Value) → TypeMap → Result Error Value
unfolding collect_typed
from_data_typed items expected = do
  data_map ← collect_typed items expected no_entries
  ok (tuple data_map expected)

-- `TupleData::get` and `get_owned`
unfoldable pub get : Fields → TypeMap → String → Result Error Value
unfolding entry_value
get data_map type_signature name =
    ok_or (entry_value data_map name) (unchecked (no_such_tuple_field name type_signature))

-- `for (name, value) in updates { base.insert(name, value) }`, and `BTreeMap::append`
unfoldable pub insert_entries : Fields → Fields → Fields
unfolding insert_entry
insert_entries no_entries base = base
insert_entries (entry name v rest) base = insert_entries rest (insert_entry name v base)

unfoldable pub append_fields : TypeMap → TypeMap → TypeMap
append_fields no_fields base = base
append_fields (field name t rest) base = append_fields rest (insert_field name t base)

unfoldable pub shallow_merge : Fields × TypeMap → Fields × TypeMap → Fields × TypeMap
unfolding insert_entries append_fields
shallow_merge (base, base_type) (updates, updates_type) =
    (insert_entries updates base, append_fields updates_type base_type)
