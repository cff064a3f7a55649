-- ===== src/Serialization/Write.antt =====
-- `serialize_write` of src/clarity/types/serialization.rs, into a vector of bytes: writing never fails,
-- but a length that does not fit its field is a panic.
use clarity_repl.Prelude.{ℕ, suc, ◌+◌, ◌%◌, String, List, [], ◌∷◌, ◌++◌, length, ltb}
use clarity_repl.Prelude.Result.{ok, assert, ◌>>=◌, ◌>>◌}
use clarity_repl.Prelude.Machine.{u32_mod}
use clarity_repl.Types.{StandardPrincipalData, PrincipalData, standard, contract, max_value_size}
use clarity_repl.Types.Size.{Maybe}
use clarity_repl.Values.{
  Value, Values, Fields, int, uint, bool, buffer, string_ascii, string_utf8, list, principal, tuple,
  none_value, some_value, response, nil, cons, no_entries, entry,
}
use clarity_repl.Values.Utf8.{as_bytes}
use clarity_repl.Serialization.Bytes.{to_be_bytes, bits_of_int}
use clarity_repl.Serialization.Prefix.{to_u8, prefix_of, prefix_of_principal}

unfoldable pub write_standard : StandardPrincipalData → List ℕ
write_standard p = p.version ∷ p.hash

-- `serialize_guarded_string!`: the length as a u8
unfoldable pub write_name : String → Maybe (List ℕ)
unfolding as_bytes
write_name name = do
  assert (ltb (length (as_bytes name)) 256)
  ok (length (as_bytes name) ∷ as_bytes name)

-- `inner_consensus_serialize`
unfoldable pub write_principal : PrincipalData → Maybe (List ℕ)
unfolding write_standard write_name
write_principal (standard p) = ok (to_u8 (prefix_of_principal (standard p)) ∷ write_standard p)
write_principal (contract c) = do
  name ← write_name c.name
  ok (to_u8 (prefix_of_principal (contract c)) ∷ (write_standard c.issuer ++ name))

-- a length that has to be at most `bound`, in four bytes, and what it is the length of
abbrev pub with_length : ℕ → ℕ → List ℕ → Maybe (List ℕ)
with_length bound len bytes = do assert (ltb len bound); ok (to_be_bytes 4 len ++ bytes)

-- `value.data.iter().fold(0u32, |len, c| len + c.len() as u32)`, and the bytes themselves
abbrev pub total_len : ℕ → List (List ℕ) → ℕ
total_len len [] = len
total_len len (c ∷ cs) = total_len ((len + length c) % u32_mod) cs

abbrev pub all_bytes : List (List ℕ) → List ℕ
all_bytes [] = []
all_bytes (c ∷ cs) = c ++ all_bytes cs

abbrev pub count_values : Values → ℕ
count_values nil = 0
count_values (cons v vs) = suc (count_values vs)

abbrev pub count_entries : Fields → ℕ
count_entries no_entries = 0
count_entries (entry name v rest) = suc (count_entries rest)

unfoldable mutual
  unfolding write_standard write_name write_principal to_be_bytes prefix_of

  pub serialize_write : Value → Maybe (List ℕ)
  serialize_write (int n) = ok (to_u8 (prefix_of (int n)) ∷ to_be_bytes 16 (bits_of_int n))
  serialize_write (uint n) = ok (to_u8 (prefix_of (uint n)) ∷ to_be_bytes 16 n)
  serialize_write (principal p) = write_principal p
  serialize_write (response committed v) = do
    bytes ← serialize_write v
    ok (to_u8 (prefix_of (response committed v)) ∷ bytes)
  serialize_write (bool b) = ok (to_u8 (prefix_of (bool b)) ∷ [])
  serialize_write none_value = ok (to_u8 (prefix_of none_value) ∷ [])
  serialize_write (some_value v) = do
    bytes ← serialize_write v
    ok (to_u8 (prefix_of (some_value v)) ∷ bytes)
  serialize_write (list items t n) = do
    bytes ← write_values items
    body ← with_length u32_mod (count_values items) bytes
    ok (to_u8 (prefix_of (list items t n)) ∷ body)
  serialize_write (buffer bytes) = do
    body ← with_length (max_value_size + 1) (length bytes) bytes
    ok (to_u8 (prefix_of (buffer bytes)) ∷ body)
  serialize_write (string_utf8 chars) = ok (
      to_u8 (prefix_of (string_utf8 chars))
      ∷ (to_be_bytes 4 (total_len 0 chars) ++ all_bytes chars))
  serialize_write (string_ascii bytes) = do
    body ← with_length (max_value_size + 1) (length bytes) bytes
    ok (to_u8 (prefix_of (string_ascii bytes)) ∷ body)
  serialize_write (tuple items t) = do
    bytes ← write_entries items
    body ← with_length u32_mod (count_entries items) bytes
    ok (to_u8 (prefix_of (tuple items t)) ∷ body)

  pub write_values : Values → Maybe (List ℕ)
  write_values nil = ok []
  write_values (cons v vs) = do
    bytes ← serialize_write v
    rest ← write_values vs
    ok (bytes ++ rest)

  pub write_entries : Fields → Maybe (List ℕ)
  write_entries no_entries = ok []
  write_entries (entry name v items) = do
    key ← write_name name
    bytes ← serialize_write v
    rest ← write_entries items
    ok (key ++ (bytes ++ rest))
