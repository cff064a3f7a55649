-- ===== src/Serialization/Read.antt =====
-- `deserialize_read` of src/clarity/types/serialization.rs, from a slice of bytes.
use clarity_repl.Prelude.{
  ℕ, zero, suc, String, Bool, true, false, Option, none, some, List, [], ◌∷◌, ltb, if◌then◌else◌,
}
use clarity_repl.Prelude.Result.{Result}
use clarity_repl.Prelude.Method.{pure, raise, ◌>>=◌, ◌>>◌}
use clarity_repl.Errors.{type_signature_too_deep}
use clarity_repl.Types.{TypeSignature, TypeMap, standard, max_value_size}
use clarity_repl.Values.{Value, int, uint, bool, principal, none_value}
use clarity_repl.Values.TypeOf.{some_of, okay, error}
use clarity_repl.Values.Make.{
  buff_from, string_ascii_from_bytes, string_utf8_from_bytes, list_from, list_with_type, from_data,
  from_data_typed,
}
use clarity_repl.Serialization.{
  SerializationError, bad_type_error, deserialization_error, bound_value_serialization_bytes,
}
use clarity_repl.Serialization.Bytes.{int_of_bits}
use clarity_repl.Serialization.Prefix.{
  TypePrefix, from_u8, int_prefix, uint_prefix, buffer_prefix, bool_true, bool_false,
  principal_standard, principal_contract, response_ok, response_err, optional_none, optional_some,
  list_prefix, tuple_prefix, string_ascii_prefix, string_utf8_prefix,
}
use clarity_repl.Serialization.Reader.{
  Read, take, read_exact, read_number, or_message, read_standard, read_buffer_length, read_name,
  read_contract,
}
use clarity_repl.Serialization.Expected.{
  expecting, is_int_type, is_uint_type, is_bool_type, is_principal_type, is_optional_type,
  is_buffer_type_from, is_string_ascii_type_from, is_string_utf8_type_of, contained_in_response,
  contained_in_optional, expected_list, expected_tuple, entry_type_of, expected_field,
}

abbrev pub make_list : Option (TypeSignature × ℕ) → List Value → Read Value
make_list none items = or_message "Illegal list type" (list_from items)
make_list (some (t, max_len)) items =
    or_message "Illegal list type" (list_with_type items t max_len)

abbrev pub make_tuple : Option TypeMap → List (String × Value) → Read Value
make_tuple none items = or_message "Illegal tuple type" (from_data items)
make_tuple (some m) items = or_message "Illegal tuple type" (from_data_typed items m)

-- `for _i in 0..len`, where `inner` reads a value one level down
unfoldable pub read_items : Read Value → ℕ → Read (List Value)
read_items inner zero = pure []
read_items inner (suc n) = do v ← inner; vs ← read_items inner n; pure (v ∷ vs)

module _ (is_clarity_name is_contract_name : String → Bool) where
  unfoldable pub read_entries :
      (Option TypeSignature → Read Value) → Option TypeMap → ℕ → Read (List (String × Value))
  unfolding read_name
  read_entries inner m zero = pure []
  read_entries inner m (suc n) = do
    key ← read_name is_clarity_name
    expected_field_type ← expected_field m key
    value ← inner expected_field_type
    rest ← read_entries inner m n
    pure ((key, value) ∷ rest)

  -- the value after its prefix
  unfoldable pub read_body :
      (Option TypeSignature → Read Value) → Option TypeSignature → TypePrefix → Read Value
  unfolding read_number read_exact read_standard read_items read_entries
  read_body inner expected int_prefix = do
    expecting expected is_int_type
    n ← read_number 16
    pure (int (int_of_bits n))
  read_body inner expected uint_prefix = do
    expecting expected is_uint_type
    n ← read_number 16
    pure (uint n)
  read_body inner expected buffer_prefix = do
    n ← read_buffer_length
    expecting expected (is_buffer_type_from n)
    bytes ← read_exact n
    or_message "Bad buffer" (buff_from bytes)
  read_body inner expected bool_true = do expecting expected is_bool_type; pure (bool true)
  read_body inner expected bool_false = do expecting expected is_bool_type; pure (bool false)
  read_body inner expected principal_standard = do
    expecting expected is_principal_type
    p ← read_standard
    pure (principal (standard p))
  read_body inner expected principal_contract = do
    expecting expected is_principal_type
    p ← read_contract is_contract_name
    pure (principal p)
  read_body inner expected response_ok = do
    contained ← contained_in_response true expected
    v ← inner contained
    or_message "Value too large" (okay v)
  read_body inner expected response_err = do
    contained ← contained_in_response false expected
    v ← inner contained
    or_message "Value too large" (error v)
  read_body inner expected optional_none = do expecting expected is_optional_type; pure none_value
  read_body inner expected optional_some = do
    contained ← contained_in_optional expected
    v ← inner contained
    or_message "Value too large" (some_of v)
  read_body inner expected list_prefix = do
    n ← read_number 4
    if ltb max_value_size n then raise (deserialization_error "Illegal list type") else pure tt
    expected_type ← expected_list n expected
    items ← read_items (inner (entry_type_of expected_type)) n
    make_list expected_type items
  read_body inner expected tuple_prefix = do
    n ← read_number 4
    if ltb max_value_size n then raise (deserialization_error "Illegal tuple type") else pure tt
    expected_type ← expected_tuple n expected
    items ← read_entries inner expected_type n
    make_tuple expected_type items
  read_body inner expected string_ascii_prefix = do
    n ← read_buffer_length
    expecting expected (is_string_ascii_type_from n)
    bytes ← read_exact n
    or_message "Bad string" (string_ascii_from_bytes bytes)
  read_body inner expected string_utf8_prefix = do
    n ← read_buffer_length
    bytes ← read_exact n
    expecting expected (is_string_utf8_type_of (string_utf8_from_bytes bytes))
    or_message "Illegal string_utf8 type" (string_utf8_from_bytes bytes)

  -- `inner_deserialize_read` with `16 - depth` levels left
  unfoldable pub inner_deserialize_read : ℕ → Option TypeSignature → Read Value
  unfolding read_body read_exact read_number
  inner_deserialize_read zero expected = raise (bad_type_error type_signature_too_deep)
  inner_deserialize_read (suc levels) expected = do
    header ← read_number 1
    elim (from_u8 header) [
      | none ↦ raise (deserialization_error "Bad type prefix")
      | some prefix ↦ read_body (inner_deserialize_read levels) expected prefix
    ]

  unfoldable pub deserialize_read : Option TypeSignature → List ℕ → Result SerializationError Value
  unfolding inner_deserialize_read
  deserialize_read expected bytes =
      (inner_deserialize_read 16 expected (take bound_value_serialization_bytes bytes)).0

  -- `try_deserialize_bytes`, `try_deserialize_bytes_untyped`
  abbrev pub try_deserialize_bytes : List ℕ → TypeSignature → Result SerializationError Value
  try_deserialize_bytes bytes expected = deserialize_read (some expected) bytes

  abbrev pub try_deserialize_bytes_untyped : List ℕ → Result SerializationError Value
  try_deserialize_bytes_untyped bytes = deserialize_read none bytes
