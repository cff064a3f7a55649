-- ===== src/Values/Sequence.antt =====
-- `SequenceData` of src/clarity/types/mod.rs: buffers, lists and the two kinds of strings.
pub mod Filter
pub mod Laws
use clarity_repl.Prelude.{
  ℕ, zero, suc, ◌+◌, ◌%◌, Bool, true, false, not, Option, none, some, List, [], ◌∷◌, ◌++◌, length,
  get_elem?, leb, ◌==◌, if◌then◌else◌,
}
use clarity_repl.Prelude.Result.{Result, ok, err, panic, expect, unwrap, ◌>>=◌}
use clarity_repl.Prelude.Map.{Eq}
use clarity_repl.Prelude.Keys.{nat_eq, list_eq}
use clarity_repl.Prelude.Machine.{u32_mod}
use clarity_repl.Errors.{Error, unchecked, runtime, type_value_error, bad_type_construction}
use clarity_repl.Types.{TypeSignature, buffer_type, string_ascii_type, string_utf8_type}
use clarity_repl.Types.Build.{list_of}
use clarity_repl.Types.Admits.{factor_out_no_type}
use clarity_repl.Values.{Value, Values, buffer, string_ascii, string_utf8, list}
use clarity_repl.Values.Equality.{value_beq}
use clarity_repl.Values.Make.{
  items_of, values_of, checked, buff_from_byte, string_ascii_from_bytes, string_utf8_from_bytes,
  with_list_type,
}

pub data SequenceData : Type 0 where
  buffer_data ascii_data : List ℕ → SequenceData
  utf8_data : List (List ℕ) → SequenceData
  list_data : List Value → TypeSignature → ℕ → SequenceData

-- `Value::Sequence(..)` as a pattern and as a constructor
unfoldable pub sequence_of : Value → Option SequenceData
sequence_of (buffer bytes) = some (buffer_data bytes)
sequence_of (string_ascii bytes) = some (ascii_data bytes)
sequence_of (string_utf8 chars) = some (utf8_data chars)
sequence_of (list items t n) = some (list_data (items_of items) t n)
sequence_of _ = none

unfoldable pub value_of : SequenceData → Value
value_of (buffer_data bytes) = buffer bytes
value_of (ascii_data bytes) = string_ascii bytes
value_of (utf8_data chars) = string_utf8 chars
value_of (list_data items t n) = list (values_of items) t n

unfoldable pub len : SequenceData → ℕ
len (buffer_data bytes) = length bytes
len (ascii_data bytes) = length bytes
len (utf8_data chars) = length chars
len (list_data items t n) = length items

-- `data[index]`, a panic out of range
abbrev pub at : {E A : Type 0} → List A → ℕ → Result E A
at xs index = unwrap (get_elem? xs index)

unfoldable pub element : SequenceData → ℕ → Result Error (Option Value)
unfolding string_ascii_from_bytes
element (buffer_data bytes) index = do b ← at bytes index; ok (some (buff_from_byte b))
element (list_data items t n) index = do v ← at items index; ok (some v)
element (ascii_data bytes) index = do
  b ← at bytes index
  v ← expect (string_ascii_from_bytes (b ∷ []))
  ok (some v)
element (utf8_data chars) index = do c ← at chars index; ok (some (string_utf8 (c ∷ [])))

unfoldable pub element_at : SequenceData → ℕ → Result Error (Option Value)
unfolding len element
element_at s index = if leb (len s) index then ok none else element s index

-- the first index, counted from `i`, of an element that passes a test
abbrev pub position {ℓ} : {A : Type ℓ} → (A → Bool) → ℕ → List A → Option ℕ
position test i [] = none
position test i (x ∷ xs) = if test x then some i else position test (suc i) xs

-- `if to_find_vec.data.len() != 1 { None } else { .. }`
abbrev pub position_of : {A : Type 0} ⦃e : Eq A⦄ → List A → List A → Option ℕ
position_of ⦃e⦄ (x ∷ []) xs = position (λ y. e.beq y x) 0 xs
position_of _ xs = none

unfoldable pub contains : SequenceData → Value → Result Error (Option ℕ)
unfolding value_beq
contains (buffer_data bytes) (buffer to_find_vec) = ok (position_of to_find_vec bytes)
contains (buffer_data bytes) to_find = err (unchecked (type_value_error (buffer_type 1) to_find))
contains (list_data items t n) to_find = ok (position (λ entry. value_beq entry to_find) 0 items)
contains (ascii_data bytes) (string_ascii to_find_vec) = ok (position_of to_find_vec bytes)
contains (ascii_data bytes) to_find =
    err (unchecked (type_value_error (string_ascii_type 1) to_find))
contains (utf8_data chars) (string_utf8 to_find_vec) = ok (position_of to_find_vec chars)
contains (utf8_data chars) to_find = err (unchecked (type_value_error (string_utf8_type 1) to_find))

-- `ListData::append`, whose new type is a list type
abbrev pub with_entries : List Value → TypeSignature → Result Error SequenceData
with_entries items (TypeSignature.list_type t n) = ok (list_data items t n)
with_entries items _ = panic

unfoldable pub append : SequenceData → SequenceData → Result Error SequenceData
append (list_data items t n) (list_data others s m) = do
  entry_type ← checked (factor_out_no_type t s)
  type_signature ← checked (list_of entry_type ((n + m) % u32_mod))
  with_entries (items ++ others) type_signature
append (buffer_data bytes) (buffer_data others) = ok (buffer_data (bytes ++ others))
append (ascii_data bytes) (ascii_data others) = ok (ascii_data (bytes ++ others))
append (utf8_data chars) (utf8_data others) = ok (utf8_data (chars ++ others))
append _ _ = err (runtime bad_type_construction)

-- `atom_values`: the elements as values
abbrev pub each : {A : Type 0} → (A → Result Error Value) → List A → Result Error (List Value)
each to_value [] = ok []
each to_value (x ∷ xs) = do v ← to_value x; vs ← each to_value xs; ok (v ∷ vs)

unfoldable pub atom_values : SequenceData → Result Error (List Value)
unfolding string_ascii_from_bytes string_utf8_from_bytes
atom_values (buffer_data bytes) = each (λ b. ok (buff_from_byte b)) bytes
atom_values (list_data items t n) = ok items
atom_values (ascii_data bytes) = each (λ b. expect (string_ascii_from_bytes (b ∷ []))) bytes
atom_values (utf8_data chars) = each (λ c. expect (string_utf8_from_bytes c)) chars
