-- ===== src/Serialization/RoundTrip.antt =====
-- Reading what was written, in src/clarity/types/serialization.rs.
use clarity_repl.Prelude.{
  ℕ, zero, suc, ◌≤◌, ◌≡◌, refl, sym, ap, ◌∙◌, String, Bool, true, false, none, List, [], ◌∷◌, ◌++◌,
  length, arith,
}
use clarity_repl.Prelude.Result.{ok}
use mathlib.Core.List.{append-nil}
use clarity_repl.Types.Size.{Maybe}
use clarity_repl.Values.{
  Value, Values, Fields, int, uint, bool, buffer, string_ascii, string_utf8, list, principal, tuple,
  none_value, some_value, response, nil, cons, no_entries, entry,
}
use clarity_repl.Values.Make.{items_of}
use clarity_repl.Serialization.{bound_value_serialization_bytes}
use clarity_repl.Serialization.Write.{
  serialize_write, write_values, write_entries, count_values, count_entries,
}
use clarity_repl.Serialization.Reader.{take}
use clarity_repl.Serialization.Read.{
  read_items, read_entries, inner_deserialize_read, deserialize_read,
}
use clarity_repl.Serialization.Rebuilt.{IsRebuilt, AreRebuilt, EntriesRebuilt, entries_of}
use clarity_repl.Serialization.Scalars.{
  Returns, int-Returns, uint-Returns, bool-Returns, none-Returns, principal-Returns, buffer-Returns,
  string_ascii-Returns, string_utf8-Returns,
}
use clarity_repl.Serialization.Compound.{
  value_at, entries_at, some-Returns, okay-Returns, error-Returns, list-Returns, tuple-Returns,
  cons-Returns, entry-Returns,
}

written_once : {xs ys : List ℕ} → ◌≡◌ {A = Maybe (List ℕ)} (ok xs) (ok ys) → xs ≡ ys
written_once h = ground (arith, h)

take_all : (n : ℕ) (xs : List ℕ) → length xs ≤ n → take n xs ≡ xs
take_all zero [] h = refl
take_all zero (x ∷ xs) h = ground arith
take_all (suc n) [] h = refl
take_all (suc n) (x ∷ xs) h = ap (λ ys. x ∷ ys) (take_all n xs (omega arith))

module _ (is_clarity_name is_contract_name : String → Bool) where
  mutual
    unfolding IsRebuilt serialize_write read_items read_entries

    value-Returns :
        (levels : ℕ) (v : Value)
        → IsRebuilt is_clarity_name is_contract_name levels v
        → Returns (serialize_write v) (value_at is_clarity_name is_contract_name levels) v
    value-Returns zero v h = absurd h
    value-Returns (suc levels) (int n) h = int-Returns is_clarity_name is_contract_name levels n h
    value-Returns (suc levels) (uint n) h =
        uint-Returns is_clarity_name is_contract_name levels n (omega arith)
    value-Returns (suc levels) (bool b) h = bool-Returns is_clarity_name is_contract_name levels b
    value-Returns (suc levels) (principal p) h =
        principal-Returns is_clarity_name is_contract_name levels p h
    value-Returns (suc levels) none_value h = none-Returns is_clarity_name is_contract_name levels
    value-Returns (suc levels) (some_value v) (made, h) =
        some-Returns is_clarity_name is_contract_name levels v made (value-Returns levels v h)
    value-Returns (suc levels) (response true v) (made, h) =
        okay-Returns is_clarity_name is_contract_name levels v made (value-Returns levels v h)
    value-Returns (suc levels) (response false v) (made, h) =
        error-Returns is_clarity_name is_contract_name levels v made (value-Returns levels v h)
    value-Returns (suc levels) (buffer bytes) h =
        buffer-Returns is_clarity_name is_contract_name levels bytes h
    value-Returns (suc levels) (string_ascii bytes) (h, made) =
        string_ascii-Returns is_clarity_name is_contract_name levels bytes h made
    value-Returns (suc levels) (string_utf8 chars) (e, h, made) =
        string_utf8-Returns is_clarity_name is_contract_name levels chars e h made
    value-Returns (suc levels) (list items t n) (made, few, h) =
        list-Returns is_clarity_name is_contract_name levels items t n made few
          (values-Returns levels items h)
    value-Returns (suc levels) (tuple items t) (made, few, h) =
        tuple-Returns is_clarity_name is_contract_name levels items t made few
          (entries-Returns levels items h)

    values-Returns :
        (levels : ℕ) (vs : Values)
        → AreRebuilt is_clarity_name is_contract_name levels vs
        → Returns
            (write_values vs)
            (read_items (value_at is_clarity_name is_contract_name levels) (count_values vs))
            (items_of vs)
    values-Returns levels nil h = ([], refl, λ rest. refl)
    values-Returns levels (cons v vs) (h, k) =
        cons-Returns is_clarity_name is_contract_name levels v vs (value-Returns levels v h)
          (values-Returns levels vs k)

    entries-Returns :
        (levels : ℕ) (items : Fields)
        → EntriesRebuilt is_clarity_name is_contract_name levels items
        → Returns
            (write_entries items)
            (entries_at is_clarity_name is_contract_name levels (count_entries items))
            (entries_of items)
    entries-Returns levels no_entries h = ([], refl, λ rest. refl)
    entries-Returns levels (entry name v rest) (n, h, k) =
        entry-Returns is_clarity_name is_contract_name levels name v rest n
          (value-Returns levels v h) (entries-Returns levels rest k)

  -- A value that is at most 16 levels deep, with machine integers in range, and whose compound
  -- parts are what their checked constructors make of them, is written without a panic, and what
  -- was written is read without an expected type as the value, whatever bytes follow.
  pub inner_deserialize_read-serialize_write :
      (v : Value) (rest : List ℕ)
      → IsRebuilt is_clarity_name is_contract_name 16 v
      → (bytes : List ℕ) × (serialize_write v ≡ ok bytes)
        × (inner_deserialize_read is_clarity_name is_contract_name 16 none (bytes ++ rest)
            ≡ (ok v, rest))
  inner_deserialize_read-serialize_write v rest h =
      let (bytes, written, read) = value-Returns 16 v h in (bytes, written, read rest)

  -- The bytes of such a value, if they are within the bound on what is read, are deserialized to it.
  pub deserialize_read-serialize_write :
      (v : Value) (bytes : List ℕ)
      → IsRebuilt is_clarity_name is_contract_name 16 v
      → serialize_write v ≡ ok bytes
      → length bytes ≤ bound_value_serialization_bytes
      → deserialize_read is_clarity_name is_contract_name none bytes ≡ ok v
  unfolding deserialize_read
  deserialize_read-serialize_write v bytes h written short =
      let (same, same_written, read) = inner_deserialize_read-serialize_write v [] h in
      let e : bytes ≡ same = written_once (sym written ∙ same_written) in
      let ys = take_all bound_value_serialization_bytes bytes short ∙ (e ∙ sym (append-nil same)) in
      ap (λ p. p.0) (ap (value_at is_clarity_name is_contract_name 16) ys ∙ read)
