-- ===== src/Serialization/Rebuilt.antt =====
-- The values that reading without an expected type can make, from src/clarity/types/serialization.rs.
use clarity_repl.Prelude.{
  ℕ, zero, suc, ◌^◌, ◌≤◌, ◌<◌, ◌≡◌, String, Bool, List, [], ◌∷◌, length, All,
}
use clarity_repl.Prelude.Int.{ℤ, pos, negsuc}
use clarity_repl.Prelude.Result.{ok}
use clarity_repl.Prelude.Machine.{u128_mod}
use clarity_repl.Types.{PrincipalData, standard, contract, max_value_size}
use clarity_repl.Values.{
  Value, Values, Fields, int, uint, bool, buffer, string_ascii, string_utf8, list, principal, tuple,
  none_value, some_value, response, nil, cons, no_entries, entry,
}
use clarity_repl.Values.TypeOf.{some_of, okay, error}
use clarity_repl.Values.Utf8.{IsEncoding}
use clarity_repl.Values.Make.{items_of, list_from, from_data, string_ascii_from_bytes}
use clarity_repl.Types.Build.{string_utf8_length}
use clarity_repl.Serialization.Steps.{IsName}
use clarity_repl.Serialization.Write.{count_values, count_entries, all_bytes}

abbrev pub entries_of : Fields → List (String × Value)
entries_of no_entries = []
entries_of (entry name v rest) = (name, v) ∷ entries_of rest

abbrev pub IsI128 : ℤ → Type 0
IsI128 (pos n) = n < 2 ^ 127
IsI128 (negsuc n) = n < 2 ^ 127

module _ (is_clarity_name is_contract_name : String → Bool) where
  abbrev pub IsPrincipal : PrincipalData → Type 0
  IsPrincipal (standard p) = length p.hash ≡ 20
  IsPrincipal (contract c) = (length c.issuer.hash ≡ 20) × IsName is_contract_name c.name

  -- At most `levels` deep, with machine integers in range, and each compound value the one that its
  -- checked constructor makes of its parts.
  unfoldable mutual
    pub IsRebuilt : ℕ → Value → Type 0
    IsRebuilt zero v = ⊥
    IsRebuilt (suc levels) (int n) = IsI128 n
    IsRebuilt (suc levels) (uint n) = n < u128_mod
    IsRebuilt (suc levels) (bool b) = Unit {0}
    IsRebuilt (suc levels) (principal p) = IsPrincipal p
    IsRebuilt (suc levels) none_value = Unit {0}
    IsRebuilt (suc levels) (some_value v) = (some_of v ≡ ok (some_value v)) × IsRebuilt levels v
    IsRebuilt (suc levels) (response Bool.true v) =
        (okay v ≡ ok (response Bool.true v)) × IsRebuilt levels v
    IsRebuilt (suc levels) (response Bool.false v) =
        (error v ≡ ok (response Bool.false v)) × IsRebuilt levels v
    IsRebuilt (suc levels) (buffer bytes) = length bytes ≤ max_value_size
    IsRebuilt (suc levels) (string_ascii bytes) =
        (length bytes ≤ max_value_size) × (string_ascii_from_bytes bytes ≡ ok (string_ascii bytes))
    IsRebuilt (suc levels) (string_utf8 chars) =
        All IsEncoding chars
        × (length (all_bytes chars) ≤ max_value_size)
        × (string_utf8_length (length chars) ≡ ok (length chars))
    IsRebuilt (suc levels) (list items t n) =
        (list_from (items_of items) ≡ ok (list items t n))
        × (count_values items ≤ max_value_size)
        × AreRebuilt levels items
    IsRebuilt (suc levels) (tuple items t) =
        (from_data (entries_of items) ≡ ok (tuple items t))
        × (count_entries items ≤ max_value_size)
        × EntriesRebuilt levels items

    pub AreRebuilt : ℕ → Values → Type 0
    AreRebuilt levels nil = Unit {0}
    AreRebuilt levels (cons v vs) = IsRebuilt levels v × AreRebuilt levels vs

    pub EntriesRebuilt : ℕ → Fields → Type 0
    EntriesRebuilt levels no_entries = Unit {0}
    EntriesRebuilt levels (entry name v rest) =
        IsName is_clarity_name name × IsRebuilt levels v × EntriesRebuilt levels rest
