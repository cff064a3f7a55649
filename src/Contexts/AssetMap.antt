-- ===== src/Contexts/AssetMap.antt =====
-- `AssetMap` of src/clarity/contexts.rs: what was moved from whom in a context. The amounts of one
-- principal or asset live in nested maps, as in the source.
pub mod Commit
use clarity_repl.Prelude.{ℕ, String, Bool, Option, none, some, List, [], ◌∷◌, ◌++◌, if◌then◌else◌}
use clarity_repl.Prelude.Result.{Result, ok, err, unwrap, ok_or, and_then}
use clarity_repl.Prelude.Machine.{u128_mod, checked_add}
use clarity_repl.Prelude.Map.{Map, Eq, lookup, insert, contains_key}
use clarity_repl.Prelude.Keys.{string_eq, pair_eq}
use clarity_repl.Prelude.Method.{Method, pure, lift, try, modify, ◌>>=◌, ◌>>◌}
use clarity_repl.Types.{QualifiedContractIdentifier, PrincipalData}
use clarity_repl.Types.Keys.{contract_eq, principal_eq}
use clarity_repl.Errors.{Error, runtime, arithmetic_overflow}
use clarity_repl.Values.{Value}

-- `AssetIdentifier`: a contract and the name of one of its assets
abbrev pub AssetIdentifier : Type 0
AssetIdentifier = QualifiedContractIdentifier × String

pub record AssetMap : Type 0 where
  pub stx_map : Map PrincipalData ℕ
  pub burn_map : Map PrincipalData ℕ
  pub token_map : Map PrincipalData (Map AssetIdentifier ℕ)
  pub asset_map : Map PrincipalData (Map AssetIdentifier (List Value))

abbrev pub new : AssetMap
new = record { stx_map = []; burn_map = []; token_map = []; asset_map = [] }

abbrev pub or_zero : Option ℕ → ℕ
or_zero none = 0
or_zero (some n) = n

abbrev pub or_empty {ℓ} : {A : Type ℓ} → Option (List A) → List A
or_empty none = []
or_empty (some xs) = xs

module _ {K : Type 0} ⦃e : Eq K⦄ where
  -- `current.get(principal).unwrap_or(&0).checked_add(amount)`, for the STX and the burn map
  unfoldable pub next_entry : Map K ℕ → K → ℕ → Result Error ℕ
  next_entry current key amount =
      ok_or (checked_add u128_mod (or_zero (lookup key current)) amount)
        (runtime arithmetic_overflow)

  -- the loops of `commit_other` over `stx_map` and `burn_map`
  unfoldable pub next_entries : Map K ℕ → Map K ℕ → Result Error (List (K × ℕ))
  unfolding next_entry
  next_entries current [] = ok []
  next_entries current ((key, amount) ∷ other) =
      and_then (next_entry current key amount)
        (λ next. and_then (next_entries current other) (λ rest. ok ((key, next) ∷ rest)))

  unfoldable pub insert_all : List (K × ℕ) → Map K ℕ → Map K ℕ
  insert_all [] m = m
  insert_all ((key, n) ∷ rest) m = insert_all rest (insert key n m)

unfoldable pub get_next_stx_amount : PrincipalData → ℕ → AssetMap → Result Error ℕ
unfolding next_entry
get_next_stx_amount principal amount m = next_entry m.stx_map principal amount

unfoldable pub get_next_stx_burn_amount : PrincipalData → ℕ → AssetMap → Result Error ℕ
unfolding next_entry
get_next_stx_burn_amount principal amount m = next_entry m.burn_map principal amount

unfoldable pub get_next_amount : PrincipalData → AssetIdentifier → ℕ → AssetMap → Result Error ℕ
unfolding next_entry
get_next_amount principal asset amount m =
    next_entry (or_empty (lookup principal m.token_map)) asset amount

-- `if !map.contains_key(..) { map.insert(.., HashMap::new()) }`, and an insertion in the inner map
unfoldable pub insert_inner :
    {V : Type 0}
    → PrincipalData
    → AssetIdentifier
    → V
    → Map PrincipalData (Map AssetIdentifier V)
    → Map PrincipalData (Map AssetIdentifier V)
insert_inner principal asset v m =
    insert principal (insert asset v (or_empty (lookup principal m))) m

abbrev pub Tracks : Type 0 → Type 0
Tracks A = Method AssetMap Error A

unfoldable pub add_stx_transfer : PrincipalData → ℕ → Tracks (Unit {0})
unfolding get_next_stx_amount
add_stx_transfer principal amount = do
  next_amount ← try (get_next_stx_amount principal amount)
  modify (λ m. record m { stx_map = insert principal next_amount m.stx_map })

unfoldable pub add_stx_burn : PrincipalData → ℕ → Tracks (Unit {0})
unfolding get_next_stx_burn_amount
add_stx_burn principal amount = do
  next_amount ← try (get_next_stx_burn_amount principal amount)
  modify (λ m. record m { burn_map = insert principal next_amount m.burn_map })

-- Appends to the list of one asset of one principal.
unfoldable pub append_transfers :
    PrincipalData
    → AssetIdentifier
    → List Value
    → Map PrincipalData (Map AssetIdentifier (List Value))
    → Map PrincipalData (Map AssetIdentifier (List Value))
unfolding insert_inner
append_transfers principal asset transfers m =
    insert_inner principal asset
      (or_empty (lookup asset (or_empty (lookup principal m))) ++ transfers) m

unfoldable pub add_asset_transfer : PrincipalData → AssetIdentifier → Value → AssetMap → AssetMap
unfolding append_transfers
add_asset_transfer principal asset transfered m = record m {
  asset_map = append_transfers principal asset (transfered ∷ []) m.asset_map;
}

unfoldable pub add_token_transfer : PrincipalData → AssetIdentifier → ℕ → Tracks (Unit {0})
unfolding get_next_amount insert_inner
add_token_transfer principal asset amount = do
  next_amount ← try (get_next_amount principal asset amount)
  modify (λ m. record m { token_map = insert_inner principal asset next_amount m.token_map })

-- The loops over nested maps: the assets of one principal, and all principals.
abbrev pub Triples : Type 0
Triples = List (PrincipalData × AssetIdentifier × ℕ)

unfoldable pub next_tokens_of :
    AssetMap → PrincipalData → Map AssetIdentifier ℕ → Result Error Triples
unfolding get_next_amount
next_tokens_of self principal [] = ok []
next_tokens_of self principal ((asset, amount) ∷ rest) =
    and_then (get_next_amount principal asset amount self) (λ next_amount.
      and_then (next_tokens_of self principal rest)
        (λ to_add. ok ((principal, asset, next_amount) ∷ to_add)))

unfoldable pub next_tokens :
    AssetMap → Map PrincipalData (Map AssetIdentifier ℕ) → Result Error Triples
unfolding next_tokens_of
next_tokens self [] = ok []
next_tokens self ((principal, principal_map) ∷ rest) =
    and_then (next_tokens_of self principal principal_map)
      (λ first. and_then (next_tokens self rest) (λ others. ok (first ++ others)))

unfoldable pub insert_tokens :
    Triples → Map PrincipalData (Map AssetIdentifier ℕ) → Map PrincipalData (Map AssetIdentifier ℕ)
unfolding insert_inner
insert_tokens [] m = m
insert_tokens ((principal, asset, amount) ∷ rest) m =
    insert_tokens rest (insert_inner principal asset amount m)

abbrev pub Transfers : Type 0
Transfers = Map PrincipalData (Map AssetIdentifier (List Value))

unfoldable pub land_of : PrincipalData → Map AssetIdentifier (List Value) → Transfers → Transfers
unfolding append_transfers
land_of principal [] m = m
land_of principal ((asset, transfers) ∷ rest) m =
    land_of principal rest (append_transfers principal asset transfers m)

unfoldable pub land : Transfers → Transfers → Transfers
unfolding land_of
land [] m = m
land ((principal, principal_map) ∷ rest) m = land rest (land_of principal principal_map m)

unfoldable pub commit_other : AssetMap → Tracks (Unit {0})
unfolding next_tokens next_entries insert_all insert_tokens land
commit_other other = do
  to_add ← try (λ self. next_tokens self other.token_map)
  stx_to_add ← try (λ self. next_entries self.stx_map other.stx_map)
  stx_burn_to_add ← try (λ self. next_entries self.burn_map other.burn_map)
  modify (λ self. record {
    asset_map = land other.asset_map self.asset_map;
    stx_map = insert_all stx_to_add self.stx_map;
    burn_map = insert_all stx_burn_to_add self.burn_map;
    token_map = insert_tokens to_add self.token_map;
  })

unfoldable pub get_stx : PrincipalData → AssetMap → Option ℕ
get_stx principal m = lookup principal m.stx_map

unfoldable pub get_stx_burned : PrincipalData → AssetMap → Option ℕ
get_stx_burned principal m = lookup principal m.burn_map

-- the sum of the entries of the burn map, with a panic where it does not fit u128
unfoldable pub get_stx_burned_total : Map PrincipalData ℕ → ℕ → Result Error ℕ
get_stx_burned_total [] total = ok total
get_stx_burned_total ((principal, burned) ∷ rest) total =
    and_then (unwrap (checked_add u128_mod total burned)) (get_stx_burned_total rest)

unfoldable pub get_fungible_tokens : PrincipalData → AssetIdentifier → AssetMap → Option ℕ
get_fungible_tokens principal asset m = elim (lookup principal m.token_map) [
  | none ↦ none
  | some assets ↦ lookup asset assets
]

unfoldable pub get_nonfungible_tokens :
    PrincipalData → AssetIdentifier → AssetMap → Option (List Value)
get_nonfungible_tokens principal asset m = elim (lookup principal m.asset_map) [
  | none ↦ none
  | some assets ↦ lookup asset assets
]
