-- ===== src/Serialization/Scalars.antt =====
-- Reading what was written of values without parts, in src/clarity/types/serialization.rs.
use clarity_repl.Prelude.{
  ℕ, suc, ◌+◌, ◌%◌, ◌^◌, ◌≤◌, ◌<◌, ◌≡◌, refl, ap, ◌∙◌, String, Bool, true, false, none, some, List,
  [], ◌∷◌, ◌++◌, length, length-append, All, arith,
}
use clarity_repl.Prelude.Int.{ℤ, pos, negsuc}
use clarity_repl.Prelude.Result.{ok}
use mathlib.Core.List.{append_assoc}
use clarity_repl.Prelude.Machine.{u32_mod}
use clarity_repl.Types.{PrincipalData, standard, contract, max_value_size}
use clarity_repl.Types.Size.{Maybe}
use clarity_repl.Types.Build.{buffer_length, string_utf8_length}
use clarity_repl.Values.{
  Value, int, uint, bool, buffer, string_ascii, string_utf8, principal, none_value,
}
use clarity_repl.Values.Utf8.{as_bytes, utf8_chars, IsEncoding}
use clarity_repl.Values.Utf8.Laws.{concat, utf8_chars-concat}
use clarity_repl.Values.Make.{string_ascii_from_bytes, buff_from, string_utf8_from_bytes}
use clarity_repl.Serialization.Bytes.{to_be_bytes, bits_of_int, int_of_bits}
use clarity_repl.Serialization.Prefix.{
  TypePrefix, to_u8, prefix_of, prefix_of_principal, int_prefix, uint_prefix, buffer_prefix,
  bool_true, bool_false, principal_standard, principal_contract, optional_none, string_ascii_prefix,
  string_utf8_prefix,
}
use clarity_repl.Serialization.Write.{
  write_standard, write_principal, serialize_write, all_bytes, total_len,
}
use clarity_repl.Serialization.Reader.{Read, read_number}
use clarity_repl.Serialization.Read.{read_body, inner_deserialize_read}
use clarity_repl.Serialization.Steps.{
  read_exact-append, read_number-to_be_bytes, read_standard-write_standard, write_name_total,
  read_contract-write, inner-prefix,
}
use clarity_repl.Serialization.Rebuilt.{IsI128, IsPrincipal}

int_of_bits-bits_of_int :
    (n : ℤ) → IsI128 n → (int_of_bits (bits_of_int n) ≡ n) × (bits_of_int n < 256 ^ 16)
int_of_bits-bits_of_int (pos n) h = ground arith
int_of_bits-bits_of_int (negsuc n) h = ground arith

total_len-all_bytes :
    (acc : ℕ) (chars : List (List ℕ))
    → acc + length (all_bytes chars) ≤ max_value_size
    → total_len acc chars ≡ acc + length (all_bytes chars)
total_len-all_bytes acc [] h = omega arith
total_len-all_bytes acc (c ∷ cs) h =
    let same = length-append c (all_bytes cs) in
    let small : (acc + length c) % u32_mod ≡ acc + length c = omega arith in
    omega (arith, small, same, total_len-all_bytes ((acc + length c) % u32_mod) cs (omega arith))

all_bytes-concat : (chars : List (List ℕ)) → all_bytes chars ≡ concat chars
all_bytes-concat [] = refl
all_bytes-concat (c ∷ cs) = ap (λ bytes. c ++ bytes) (all_bytes-concat cs)

utf8_chars-all_bytes :
    (chars : List (List ℕ)) → All IsEncoding chars → utf8_chars (all_bytes chars) ≡ some chars
utf8_chars-all_bytes chars e = ap utf8_chars (all_bytes-concat chars) ∙ utf8_chars-concat chars e

-- Writing gives bytes, and reading them gives the value and leaves what follows.
abbrev pub Returns : {A : Type 0} → Maybe (List ℕ) → Read A → A → Type 0
Returns written reader a =
    (bytes : List ℕ) × (written ≡ ok bytes)
    × ((rest : List ℕ) → reader (bytes ++ rest) ≡ (ok a, rest))

module _ (is_clarity_name is_contract_name : String → Bool) where
  abbrev pub read_value : ℕ → Read Value
  read_value levels = inner_deserialize_read is_clarity_name is_contract_name levels none

  abbrev pub body_of : ℕ → TypePrefix → Read Value
  body_of levels p =
      read_body is_clarity_name is_contract_name
        (inner_deserialize_read is_clarity_name is_contract_name levels) none p

  pub after_prefix :
      (levels : ℕ) (p : TypePrefix) (ys : List ℕ)
      → read_value (suc levels) (to_u8 p ∷ ys) ≡ body_of levels p ys
  after_prefix levels p ys = inner-prefix is_clarity_name is_contract_name levels none p ys

  pub int-Returns :
      (levels : ℕ) (n : ℤ)
      → IsI128 n
      → Returns (serialize_write (int n)) (read_value (suc levels)) (int n)
  unfolding serialize_write prefix_of read_body
  int-Returns levels n h = (
    to_u8 int_prefix ∷ to_be_bytes 16 (bits_of_int n),
    refl,
    λ rest.
        let (same, small) = int_of_bits-bits_of_int n h in
        after_prefix levels int_prefix (to_be_bytes 16 (bits_of_int n) ++ rest)
        ∙ ground (arith, read_number-to_be_bytes 16 (bits_of_int n) rest small, same),
  )

  pub uint-Returns :
      (levels n : ℕ)
      → n < 256 ^ 16
      → Returns (serialize_write (uint n)) (read_value (suc levels)) (uint n)
  unfolding serialize_write prefix_of read_body
  uint-Returns levels n h = (
    to_u8 uint_prefix ∷ to_be_bytes 16 n,
    refl,
    λ rest.
        after_prefix levels uint_prefix (to_be_bytes 16 n ++ rest)
        ∙ ground (arith, read_number-to_be_bytes 16 n rest h),
  )

  pub bool-Returns :
      (levels : ℕ) (b : Bool)
      → Returns (serialize_write (bool b)) (read_value (suc levels)) (bool b)
  unfolding serialize_write prefix_of read_body
  bool-Returns levels true =
      (to_u8 bool_true ∷ [], refl, λ rest. after_prefix levels bool_true rest)
  bool-Returns levels false =
      (to_u8 bool_false ∷ [], refl, λ rest. after_prefix levels bool_false rest)

  pub none-Returns :
      (levels : ℕ) → Returns (serialize_write none_value) (read_value (suc levels)) none_value
  unfolding serialize_write prefix_of read_body
  none-Returns levels =
      (to_u8 optional_none ∷ [], refl, λ rest. after_prefix levels optional_none rest)

  pub principal-Returns :
      (levels : ℕ) (p : PrincipalData)
      → IsPrincipal is_clarity_name is_contract_name p
      → Returns (serialize_write (principal p)) (read_value (suc levels)) (principal p)
  unfolding serialize_write write_principal prefix_of_principal read_body
  principal-Returns levels (standard p) h = (
    to_u8 principal_standard ∷ write_standard p,
    refl,
    λ rest.
        after_prefix levels principal_standard (write_standard p ++ rest)
        ∙ ground (arith, read_standard-write_standard p rest h),
  )
  principal-Returns levels (contract c) (h, n) =
      let name = length (as_bytes c.name) ∷ as_bytes c.name in
      (
        to_u8 principal_contract ∷ (write_standard c.issuer ++ name),
        ground (arith, write_name_total c.name n),
        λ rest.
            ap (λ ys. read_value (suc levels) (to_u8 principal_contract ∷ ys))
              (append_assoc (write_standard c.issuer) name rest)
            ∙ after_prefix levels principal_contract (write_standard c.issuer ++ (name ++ rest))
            ∙ ground (arith, read_contract-write c rest h n),
      )

  -- A length in four bytes, and what it is the length of.
  pub length_bytes :
      (n : ℕ) (body rest : List ℕ)
      → n ≤ max_value_size
      → read_number 4 ((to_be_bytes 4 n ++ body) ++ rest) ≡ (ok n, body ++ rest)
  length_bytes n body rest h =
      ap (read_number 4) (append_assoc (to_be_bytes 4 n) body rest)
      ∙ read_number-to_be_bytes 4 n (body ++ rest) (omega arith)

  pub buffer-Returns :
      (levels : ℕ) (bytes : List ℕ)
      → length bytes ≤ max_value_size
      → Returns (serialize_write (buffer bytes)) (read_value (suc levels)) (buffer bytes)
  unfolding serialize_write prefix_of read_body buff_from buffer_length
  buffer-Returns levels bytes h = (
    to_u8 buffer_prefix ∷ (to_be_bytes 4 (length bytes) ++ bytes),
    ground (arith, h),
    λ rest.
        after_prefix levels buffer_prefix ((to_be_bytes 4 (length bytes) ++ bytes) ++ rest)
        ∙ ground (
          arith,
          h,
          length_bytes (length bytes) bytes rest h,
          read_exact-append (length bytes) bytes rest refl,
        ),
  )

  pub string_ascii-Returns :
      (levels : ℕ) (bytes : List ℕ)
      → length bytes ≤ max_value_size
      → string_ascii_from_bytes bytes ≡ ok (string_ascii bytes)
      → Returns
          (serialize_write (string_ascii bytes))
          (read_value (suc levels))
          (string_ascii bytes)
  unfolding serialize_write prefix_of read_body buffer_length
  string_ascii-Returns levels bytes h made = (
    to_u8 string_ascii_prefix ∷ (to_be_bytes 4 (length bytes) ++ bytes),
    ground (arith, h),
    λ rest.
        after_prefix levels string_ascii_prefix ((to_be_bytes 4 (length bytes) ++ bytes) ++ rest)
        ∙ ground (
          arith,
          h,
          made,
          length_bytes (length bytes) bytes rest h,
          read_exact-append (length bytes) bytes rest refl,
        ),
  )

  pub string_utf8-Returns :
      (levels : ℕ) (chars : List (List ℕ))
      → All IsEncoding chars
      → length (all_bytes chars) ≤ max_value_size
      → string_utf8_length (length chars) ≡ ok (length chars)
      → Returns (serialize_write (string_utf8 chars)) (read_value (suc levels)) (string_utf8 chars)
  unfolding serialize_write prefix_of read_body buffer_length string_utf8_from_bytes
  string_utf8-Returns levels chars e h made = (
    to_u8 string_utf8_prefix ∷ (to_be_bytes 4 (length (all_bytes chars)) ++ all_bytes chars),
    ap (λ n. ok (to_u8 string_utf8_prefix ∷ (to_be_bytes 4 n ++ all_bytes chars)))
        (omega (arith, total_len-all_bytes 0 chars (omega arith))),
    λ rest.
        after_prefix levels string_utf8_prefix
          ((to_be_bytes 4 (length (all_bytes chars)) ++ all_bytes chars) ++ rest)
        ∙ ground (
          arith,
          h,
          made,
          utf8_chars-all_bytes chars e,
          length_bytes (length (all_bytes chars)) (all_bytes chars) rest h,
          read_exact-append (length (all_bytes chars)) (all_bytes chars) rest refl,
        ),
  )
