-- ===== src/Serialization/Reader.antt =====
-- The reader of src/clarity/types/serialization.rs, a slice of bytes, and what it reads of principals and names.
-- `BoundReader` of src/clarity/util/retry.rs gives out the first bytes of the slice, up to its bound,
-- so the reader is the list of the bytes that are left. The regular expressions of names are of
-- another crate: parameters.
use clarity_repl.Prelude.{
  ℕ, zero, suc, String, Bool, Option, none, some, List, [], ◌∷◌, length, ltb, if◌then◌else◌,
}
use clarity_repl.Prelude.Result.{Result, ok, err, map_err}
use clarity_repl.Prelude.Method.{Method, pure, raise, lift, ◌>>=◌, ◌>>◌}
use clarity_repl.Types.{StandardPrincipalData, PrincipalData, standard, contract}
use clarity_repl.Types.Build.{buffer_length}
use clarity_repl.Values.Utf8.{from_utf8, as_bytes}
use clarity_repl.Serialization.{
  SerializationError, io_error, bad_type_error, deserialization_error, max_string_len,
}
use clarity_repl.Serialization.Bytes.{from_be_bytes}
use clarity_repl.Serialization.Prefix.{from_u8, principal_standard, principal_contract}

abbrev pub Read : Type 0 → Type 0
Read A = Method (List ℕ) SerializationError A

-- the first `n` elements of a list and the rest, if there are so many
abbrev pub split_at {ℓ} : {A : Type ℓ} → ℕ → List A → Option (List A × List A)
split_at zero xs = some ([], xs)
split_at (suc n) [] = none
split_at (suc n) (x ∷ xs) = elim (split_at n xs) [
  | none ↦ none
  | some (ys, rest) ↦ some (x ∷ ys, rest)
]

abbrev pub take {ℓ} : {A : Type ℓ} → ℕ → List A → List A
take zero xs = []
take (suc n) [] = []
take (suc n) (x ∷ xs) = x ∷ take n xs

unfoldable pub read_exact : ℕ → Read (List ℕ)
read_exact n bytes = elim (split_at n bytes) [
  | none ↦ (err io_error, [])
  | some (taken, rest) ↦ (ok taken, rest)
]

unfoldable pub read_number : ℕ → Read ℕ
unfolding read_exact
read_number width = do bytes ← read_exact width; pure (from_be_bytes 0 bytes)

-- `.map_err(|_| message.into())`
abbrev pub or_message : {E A : Type 0} → String → Result E A → Read A
or_message message r = lift (map_err (λ _. deserialization_error message) r)

unfoldable pub read_standard : Read StandardPrincipalData
unfolding read_exact read_number
read_standard = do
  version ← read_number 1
  data_bytes ← read_exact 20
  pure (record { version = version; hash = data_bytes })

-- `BufferLength::try_from(..)?`
abbrev pub read_buffer_length : Read ℕ
read_buffer_length = do n ← read_number 4; lift (map_err bad_type_error (buffer_length n))

-- `serialize_guarded_string!` with `try_from` of a name that `is_match` tests
unfoldable pub read_name : (String → Bool) → Read String
unfolding read_exact read_number as_bytes
read_name is_match = do
  n ← read_number 1
  if ltb max_string_len n then raise (deserialization_error "String too long") else pure tt
  bytes ← read_exact n
  elim (from_utf8 bytes) [
    | none ↦ raise (deserialization_error "Non-UTF8 string data")
    | some x ↦
        if ltb max_string_len (length (as_bytes x))
        then raise (deserialization_error "Illegal Clarity string")
        else if is_match x
        then pure x
        else raise (deserialization_error "Illegal Clarity string")
  ]

unfoldable pub read_contract : (String → Bool) → Read PrincipalData
unfolding read_standard read_name
read_contract is_contract_name = do
  issuer ← read_standard
  name ← read_name is_contract_name
  pure (contract (record { issuer = issuer; name = name }))

-- `inner_consensus_deserialize`
unfoldable pub read_principal : (String → Bool) → Read PrincipalData
unfolding read_standard read_contract read_number
read_principal is_contract_name = do
  header ← read_number 1
  elim (from_u8 header) [
    | some principal_standard ↦ do p ← read_standard; pure (standard p)
    | some principal_contract ↦ read_contract is_contract_name
    | _ ↦ raise (deserialization_error "Bad principal prefix")
  ]
