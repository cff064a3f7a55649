-- ===== src/Serialization/Expected.antt =====
-- The tests of the expected type in `inner_deserialize_read` of src/clarity/types/serialization.rs.
use clarity_repl.Prelude.{
  ℕ, String, Bool, true, false, not, Option, none, some, length, ltb, leb, ◌==◌, if◌then◌else◌,
}
use clarity_repl.Prelude.Result.{Result, ok}
use clarity_repl.Prelude.Method.{pure, raise}
use clarity_repl.Errors.{Error}
use clarity_repl.Types.{
  TypeSignature, TypeMap, int_type, uint_type, bool_type, principal_type, buffer_type,
  string_ascii_type, string_utf8_type, list_type, tuple_type, optional_type, response_type, len,
  field_type,
}
use clarity_repl.Values.{Value, string_utf8}
use clarity_repl.Serialization.{deserialize_expected}
use clarity_repl.Serialization.Reader.{Read}

-- `check_match!`, and the other tests of the expected type
abbrev pub expecting : Option TypeSignature → (TypeSignature → Bool) → Read (Unit {0})
expecting none test = pure tt
expecting (some x) test = if test x then pure tt else raise (deserialize_expected x)

abbrev pub is_int_type : TypeSignature → Bool
is_int_type int_type = true
is_int_type _ = false

abbrev pub is_uint_type : TypeSignature → Bool
is_uint_type uint_type = true
is_uint_type _ = false

abbrev pub is_bool_type : TypeSignature → Bool
is_bool_type bool_type = true
is_bool_type _ = false

abbrev pub is_principal_type : TypeSignature → Bool
is_principal_type principal_type = true
is_principal_type _ = false

abbrev pub is_optional_type : TypeSignature → Bool
is_optional_type (optional_type t) = true
is_optional_type _ = false

abbrev pub is_buffer_type_from : ℕ → TypeSignature → Bool
is_buffer_type_from n (buffer_type expected_len) = leb n expected_len
is_buffer_type_from n _ = false

abbrev pub is_string_ascii_type_from : ℕ → TypeSignature → Bool
is_string_ascii_type_from n (string_ascii_type expected_len) = leb n expected_len
is_string_ascii_type_from n _ = false

-- a failed construction passes no test of the type
abbrev pub is_string_utf8_type_of : Result Error Value → TypeSignature → Bool
is_string_utf8_type_of (ok (string_utf8 chars)) (string_utf8_type expected_len) =
    leb (length chars) expected_len
is_string_utf8_type_of _ _ = false

-- the type of what is contained
abbrev pub contained_in_response : Bool → Option TypeSignature → Read (Option TypeSignature)
contained_in_response committed none = pure none
contained_in_response true (some (response_type t s)) = pure (some t)
contained_in_response false (some (response_type t s)) = pure (some s)
contained_in_response committed (some x) = raise (deserialize_expected x)

abbrev pub contained_in_optional : Option TypeSignature → Read (Option TypeSignature)
contained_in_optional none = pure none
contained_in_optional (some (optional_type t)) = pure (some t)
contained_in_optional (some x) = raise (deserialize_expected x)

-- the list type, from the number of items, and the tuple type, from the number of entries
abbrev pub expected_list : ℕ → Option TypeSignature → Read (Option (TypeSignature × ℕ))
expected_list n none = pure none
expected_list n (some (list_type t max_len)) =
    if ltb max_len n
    then raise (deserialize_expected (list_type t max_len))
    else pure (some (t, max_len))
expected_list n (some x) = raise (deserialize_expected x)

abbrev pub expected_tuple : ℕ → Option TypeSignature → Read (Option TypeMap)
expected_tuple n none = pure none
expected_tuple n (some (tuple_type m)) =
    if not (n == len m) then raise (deserialize_expected (tuple_type m)) else pure (some m)
expected_tuple n (some x) = raise (deserialize_expected x)

abbrev pub entry_type_of : Option (TypeSignature × ℕ) → Option TypeSignature
entry_type_of none = none
entry_type_of (some (t, max_len)) = some t

abbrev pub expected_field : Option TypeMap → String → Read (Option TypeSignature)
expected_field none key = pure none
expected_field (some m) key = elim (field_type m key) [
  | none ↦ raise (deserialize_expected (tuple_type m))
  | some t ↦ pure (some t)
]
