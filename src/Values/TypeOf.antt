-- ===== src/Values/TypeOf.antt =====
-- `type_of`, `size`, `depth` and the guarded constructors of values: src/clarity/types/mod.rs and
-- `TypeSignature::type_of` of src/clarity/types/signatures.rs.
use clarity_repl.Prelude.{ℕ, ◌+◌, true, false, length, ltb, if◌then◌else◌}
use clarity_repl.Prelude.Result.{ok, err, expect, ◌>>=◌}
use clarity_repl.Errors.{value_too_large, type_signature_too_deep}
use clarity_repl.Types.{
  TypeSignature, no_type, int_type, uint_type, bool_type, principal_type, buffer_type,
  string_ascii_type, string_utf8_type, list_type, tuple_type, max_value_size, max_type_depth,
  wrapper_value_size,
}
use clarity_repl.Types.Build.{Checked, buffer_length, string_utf8_length, new_option, new_response}
use clarity_repl.Types.Size
use clarity_repl.Values.{
  Value, int, uint, bool, buffer, string_ascii, string_utf8, list, principal, tuple, none_value,
  some_value, response,
}

-- A panic where a value holds too large or too deep a type.
unfoldable pub type_of : Value → Checked TypeSignature
type_of (principal p) = ok principal_type
type_of (int n) = ok int_type
type_of (uint n) = ok uint_type
type_of (bool b) = ok bool_type
type_of (tuple items type_map) = ok (tuple_type type_map)
type_of (list items entry_type max_len) = ok (list_type entry_type max_len)
type_of (buffer bytes) = do n ← expect (buffer_length (length bytes)); ok (buffer_type n)
type_of (string_ascii bytes) = do
  n ← expect (buffer_length (length bytes))
  ok (string_ascii_type n)
type_of (string_utf8 chars) = do
  n ← expect (string_utf8_length (length chars))
  ok (string_utf8_type n)
type_of none_value = expect (new_option no_type)
type_of (some_value v) = do t ← type_of v; expect (new_option t)
type_of (response true v) = do t ← type_of v; expect (new_response t no_type)
type_of (response false v) = do t ← type_of v; expect (new_response no_type t)

unfoldable pub size : Value → Checked ℕ
size v = do t ← type_of v; Size.size t

unfoldable pub depth : Value → Checked ℕ
depth v = do t ← type_of v; ok (Size.depth t)

-- the guard of `Value::some`, `Value::okay` and `Value::error`
unfoldable pub wrapped : Value → Value → Checked Value
unfolding size depth
wrapped data_value out = do
  s ← size data_value
  d ← depth data_value
  if ltb max_value_size (s + wrapper_value_size)
      then err value_too_large
      else if ltb max_type_depth (d + 1)
      then err type_signature_too_deep
      else ok out

unfoldable pub some_of : Value → Checked Value
unfolding wrapped
some_of v = wrapped v (some_value v)

unfoldable pub okay : Value → Checked Value
unfolding wrapped
okay v = wrapped v (response true v)

unfoldable pub error : Value → Checked Value
unfolding wrapped
error v = wrapped v (response false v)

abbrev pub okay_true : Value
okay_true = response true (bool true)

abbrev pub err_uint : ℕ → Value
err_uint code = response false (uint code)
