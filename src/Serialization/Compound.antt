-- ===== src/Serialization/Compound.antt =====
-- Reading back the values with parts, in src/clarity/types/serialization.rs, from reading back the parts.
use clarity_repl.Prelude.{
  ℕ, suc, ◌≤◌, ◌≡◌, ap, ◌∙◌, String, Bool, true, false, none, List, ◌∷◌, ◌++◌, length, arith,
}
use clarity_repl.Prelude.Result.{ok}
use mathlib.Core.List.{append_assoc}
use clarity_repl.Types.{TypeSignature, TypeMap, max_value_size}
use clarity_repl.Values.{Value, Values, Fields, list, tuple, some_value, response, cons, entry}
use clarity_repl.Values.Utf8.{as_bytes}
use clarity_repl.Values.Make.{items_of}
use clarity_repl.Serialization.Bytes.{to_be_bytes}
use clarity_repl.Serialization.Prefix.{
  to_u8, prefix_of, response_ok, response_err, optional_some, list_prefix, tuple_prefix,
}
use clarity_repl.Serialization.Write.{
  serialize_write, write_values, write_entries, count_values, count_entries,
}
use clarity_repl.Serialization.Reader.{Read}
use clarity_repl.Serialization.Read.{read_body, read_items, read_entries, inner_deserialize_read}
use clarity_repl.Serialization.Steps.{IsName, write_name_total, read_name-write_name}
use clarity_repl.Serialization.Rebuilt.{entries_of}
use clarity_repl.Serialization.Scalars.{read_value, Returns, after_prefix, length_bytes}
use clarity_repl.Values.TypeOf.{some_of, okay, error}
use clarity_repl.Values.Make.{list_from, from_data}

module _ (is_clarity_name is_contract_name : String → Bool) where
  abbrev pub value_at : ℕ → Read Value
  value_at = read_value is_clarity_name is_contract_name

  abbrev pub entries_at : ℕ → ℕ → Read (List (String × Value))
  entries_at levels n =
      read_entries is_clarity_name is_contract_name
        (inner_deserialize_read is_clarity_name is_contract_name levels) none n

  pub some-Returns :
      (levels : ℕ) (v : Value)
      → some_of v ≡ ok (some_value v)
      → Returns (serialize_write v) (value_at levels) v
      → Returns (serialize_write (some_value v)) (value_at (suc levels)) (some_value v)
  unfolding serialize_write prefix_of read_body
  some-Returns levels v made (bytes, written, read) = (
    to_u8 optional_some ∷ bytes,
    ground (arith, written),
    λ rest.
        after_prefix is_clarity_name is_contract_name levels optional_some (bytes ++ rest)
        ∙ ground (arith, read rest, made),
  )

  pub okay-Returns :
      (levels : ℕ) (v : Value)
      → okay v ≡ ok (response true v)
      → Returns (serialize_write v) (value_at levels) v
      → Returns (serialize_write (response true v)) (value_at (suc levels)) (response true v)
  unfolding serialize_write prefix_of read_body
  okay-Returns levels v made (bytes, written, read) = (
    to_u8 response_ok ∷ bytes,
    ground (arith, written),
    λ rest.
        after_prefix is_clarity_name is_contract_name levels response_ok (bytes ++ rest)
        ∙ ground (arith, read rest, made),
  )

  pub error-Returns :
      (levels : ℕ) (v : Value)
      → error v ≡ ok (response false v)
      → Returns (serialize_write v) (value_at levels) v
      → Returns (serialize_write (response false v)) (value_at (suc levels)) (response false v)
  unfolding serialize_write prefix_of read_body
  error-Returns levels v made (bytes, written, read) = (
    to_u8 response_err ∷ bytes,
    ground (arith, written),
    λ rest.
        after_prefix is_clarity_name is_contract_name levels response_err (bytes ++ rest)
        ∙ ground (arith, read rest, made),
  )

  pub list-Returns :
      (levels : ℕ) (items : Values) (t : TypeSignature) (n : ℕ)
      → list_from (items_of items) ≡ ok (list items t n)
      → count_values items ≤ max_value_size
      → Returns
          (write_values items)
          (read_items (value_at levels) (count_values items))
          (items_of items)
      → Returns (serialize_write (list items t n)) (value_at (suc levels)) (list items t n)
  unfolding serialize_write prefix_of read_body
  list-Returns levels items t n made few (bytes, written, read) = (
    to_u8 list_prefix ∷ (to_be_bytes 4 (count_values items) ++ bytes),
    ground (arith, written, few),
    λ rest.
        after_prefix is_clarity_name is_contract_name levels list_prefix
          ((to_be_bytes 4 (count_values items) ++ bytes) ++ rest)
        ∙ ground (
          arith,
          few,
          length_bytes is_clarity_name is_contract_name (count_values items) bytes rest few,
          read rest,
          made,
        ),
  )

  pub tuple-Returns :
      (levels : ℕ) (items : Fields) (t : TypeMap)
      → from_data (entries_of items) ≡ ok (tuple items t)
      → count_entries items ≤ max_value_size
      → Returns (write_entries items) (entries_at levels (count_entries items)) (entries_of items)
      → Returns (serialize_write (tuple items t)) (value_at (suc levels)) (tuple items t)
  unfolding serialize_write prefix_of read_body
  tuple-Returns levels items t made few (bytes, written, read) = (
    to_u8 tuple_prefix ∷ (to_be_bytes 4 (count_entries items) ++ bytes),
    ground (arith, written, few),
    λ rest.
        after_prefix is_clarity_name is_contract_name levels tuple_prefix
          ((to_be_bytes 4 (count_entries items) ++ bytes) ++ rest)
        ∙ ground (
          arith,
          few,
          length_bytes is_clarity_name is_contract_name (count_entries items) bytes rest few,
          read rest,
          made,
        ),
  )

  pub cons-Returns :
      (levels : ℕ) (v : Value) (vs : Values)
      → Returns (serialize_write v) (value_at levels) v
      → Returns (write_values vs) (read_items (value_at levels) (count_values vs)) (items_of vs)
      → Returns
          (write_values (cons v vs))
          (read_items (value_at levels) (count_values (cons v vs)))
          (items_of (cons v vs))
  unfolding serialize_write read_items
  cons-Returns levels v vs (bytes, written, read) (more, written_more, read_more) = (
    bytes ++ more,
    ground (arith, written, written_more),
    λ rest.
        ap (read_items (value_at levels) (count_values (cons v vs))) (append_assoc bytes more rest)
        ∙ ground (arith, read (more ++ rest), read_more rest),
  )

  pub entry-Returns :
      (levels : ℕ) (name : String) (v : Value) (items : Fields)
      → IsName is_clarity_name name
      → Returns (serialize_write v) (value_at levels) v
      → Returns (write_entries items) (entries_at levels (count_entries items)) (entries_of items)
      → Returns
          (write_entries (entry name v items))
          (entries_at levels (count_entries (entry name v items)))
          (entries_of (entry name v items))
  unfolding serialize_write read_entries
  entry-Returns levels name v items n (bytes, written, read) (more, written_more, read_more) =
      let key = length (as_bytes name) ∷ as_bytes name in
      (
        key ++ (bytes ++ more),
        ground (arith, write_name_total name n, written, written_more),
        λ rest.
            ap (entries_at levels (count_entries (entry name v items))) (
              append_assoc key (bytes ++ more) rest
              ∙ ap (λ ys. key ++ ys) (append_assoc bytes more rest))
            ∙ ground (
              arith,
              read_name-write_name name (bytes ++ (more ++ rest)) n,
              read (more ++ rest),
              read_more rest,
            ),
      )
