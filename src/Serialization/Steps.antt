-- ===== src/Serialization/Steps.antt =====
-- The steps of reading, in src/clarity/types/serialization.rs, on what the matching steps of writing made.
use clarity_repl.Prelude.{
  ℕ, suc, ◌^◌, ◌≤◌, ◌<◌, ◌≡◌, refl, String, Bool, true, Option, some, List, [], ◌∷◌, ◌++◌, length,
  arith,
}
use clarity_repl.Prelude.Result.{ok}
use clarity_repl.Types.{TypeSignature, StandardPrincipalData, contract, QualifiedContractIdentifier}
use clarity_repl.Values.Utf8.{as_bytes}
use clarity_repl.Values.Utf8.Laws.{IsAscii, from_utf8-as_bytes}
use clarity_repl.Serialization.{max_string_len}
use clarity_repl.Serialization.Bytes.{
  to_be_bytes, from_be_bytes, from_be_bytes-to_be_bytes, length-to_be_bytes,
}
use clarity_repl.Serialization.Prefix.{TypePrefix, to_u8, from_u8-to_u8}
use clarity_repl.Serialization.Write.{write_standard, write_name}
use clarity_repl.Serialization.Reader.{
  split_at, read_exact, read_number, read_standard, read_name, read_contract,
}
use clarity_repl.Serialization.Read.{read_body, inner_deserialize_read}

split_at-append : {A : Type 0} (xs ys : List A) → split_at (length xs) (xs ++ ys) ≡ some (xs, ys)
split_at-append [] ys = refl
split_at-append (x ∷ xs) ys = ground (arith, split_at-append xs ys)

pub read_exact-append :
    (n : ℕ) (xs ys : List ℕ) → length xs ≡ n → read_exact n (xs ++ ys) ≡ (ok xs, ys)
unfolding read_exact
read_exact-append n xs ys h = ground (arith, h, split_at-append xs ys)

pub read_number-to_be_bytes :
    (width n : ℕ) (ys : List ℕ)
    → n < 256 ^ width
    → read_number width (to_be_bytes width n ++ ys) ≡ (ok n, ys)
unfolding read_number
read_number-to_be_bytes width n ys h = ground (
  arith,
  read_exact-append width (to_be_bytes width n) ys (length-to_be_bytes width n),
  from_be_bytes-to_be_bytes width n h,
)

pub read_byte : (b : ℕ) (ys : List ℕ) → read_number 1 (b ∷ ys) ≡ (ok b, ys)
unfolding read_number read_exact from_be_bytes
read_byte b ys = ground arith

pub read_standard-write_standard :
    (p : StandardPrincipalData) (ys : List ℕ)
    → length p.hash ≡ 20
    → read_standard (write_standard p ++ ys) ≡ (ok p, ys)
unfolding read_standard write_standard
read_standard-write_standard p ys h =
    ground (arith, read_byte p.version (p.hash ++ ys), read_exact-append 20 p.hash ys h)

-- A name that the regular expression accepts.
pub record IsName (is_match : String → Bool) (name : String) : Type 0 where
  pub ascii : IsAscii name
  pub short : length (as_bytes name) ≤ max_string_len
  pub matches : is_match name ≡ true

pub write_name_total :
    {is_match : String → Bool} (name : String)
    → IsName is_match name
    → write_name name ≡ ok (length (as_bytes name) ∷ as_bytes name)
unfolding write_name
write_name_total name n = ground (arith, n.short)

pub read_name-write_name :
    {is_match : String → Bool} (name : String) (ys : List ℕ)
    → IsName is_match name
    → read_name is_match (length (as_bytes name) ∷ (as_bytes name ++ ys)) ≡ (ok name, ys)
unfolding read_name
read_name-write_name name ys n = ground (
  arith,
  n.short,
  n.matches,
  read_byte (length (as_bytes name)) (as_bytes name ++ ys),
  read_exact-append (length (as_bytes name)) (as_bytes name) ys refl,
  from_utf8-as_bytes name n.ascii,
)

pub read_contract-write :
    {is_match : String → Bool} (c : QualifiedContractIdentifier) (ys : List ℕ)
    → length c.issuer.hash ≡ 20
    → IsName is_match c.name
    → read_contract is_match
        (write_standard c.issuer ++ (length (as_bytes c.name) ∷ (as_bytes c.name ++ ys)))
      ≡ (ok (contract c), ys)
unfolding read_contract
read_contract-write c ys h n = ground (
  arith,
  read_standard-write_standard c.issuer (length (as_bytes c.name) ∷ (as_bytes c.name ++ ys)) h,
  read_name-write_name c.name ys n,
)

module _ (is_clarity_name is_contract_name : String → Bool) where
  -- After its prefix, a value is read with one level less.
  pub inner-prefix :
      (levels : ℕ) (expected : Option TypeSignature) (p : TypePrefix) (ys : List ℕ)
      → inner_deserialize_read is_clarity_name is_contract_name (suc levels) expected (to_u8 p ∷ ys)
        ≡ read_body is_clarity_name is_contract_name
            (inner_deserialize_read is_clarity_name is_contract_name levels)
            expected
            p
            ys
  unfolding inner_deserialize_read
  inner-prefix levels expected p ys = ground (arith, read_byte (to_u8 p) ys, from_u8-to_u8 p)
