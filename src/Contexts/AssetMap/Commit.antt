-- ===== src/Contexts/AssetMap/Commit.antt =====
-- `AssetMap::commit_other` of src/clarity/contexts.rs on maps whose keys are distinct.
use clarity_repl.Prelude.{ℕ, ◌+◌, ◌≡◌, refl, none, some, List, [], ◌∷◌, arith, if◌then◌else◌}
use clarity_repl.Prelude.Result.{Result, ok, err, panic, and_then-eq-ok}
use clarity_repl.Prelude.Map.{Map, Eq, lookup, insert, lookup-insert}
use clarity_repl.Prelude.Keys.{string_eq, pair_eq}
use clarity_repl.Types.{PrincipalData, QualifiedContractIdentifier}
use clarity_repl.Prelude.{String}
use clarity_repl.Types.Keys.{principal_eq, contract_eq}
use clarity_repl.Errors.{Error}
use clarity_repl.Contexts.AssetMap.{
  AssetMap, AssetIdentifier, or_zero, or_empty, next_entry, next_entries, insert_all, commit_other,
  get_stx, get_stx_burned, add_token_transfer, get_fungible_tokens, get_next_amount, insert_inner,
}

module _ {K : Type 0} ⦃e : Eq K⦄ where
  -- No key has two entries.
  abbrev pub IsMap : Map K ℕ → Type 0
  IsMap [] = Unit {0}
  IsMap ((k, v) ∷ m) = (lookup k m ≡ none) × IsMap m

  next_entries-cons :
      (current other : Map K ℕ) (added : List (K × ℕ)) (j : K) (n : ℕ)
      → next_entries current ((j, n) ∷ other) ≡ ok added
      → (rest : List (K × ℕ)) × (next_entries current other ≡ ok rest)
        × (added ≡ (j, or_zero (lookup j current) + n) ∷ rest)
  unfolding next_entries next_entry
  next_entries-cons current other added j n h =
      let (next, h1, h2) = and_then-eq-ok (next_entry current j n) _ h in
      let (rest, h3, h4) = and_then-eq-ok (next_entries current other) _ h2 in
      (rest, h3, ground arith)

  -- The entries that are written add the amounts of the other map to those of the current one.
  pub insert_all-next_entries :
      (current other m : Map K ℕ) (added : List (K × ℕ)) (k : K)
      → IsMap other
      → next_entries current other ≡ ok added
      → or_zero (lookup k (insert_all added m)) ≡ elim (lookup k other) [
        | none ↦ or_zero (lookup k m)
        | some n ↦ or_zero (lookup k current) + n
      ]
  unfolding next_entries insert_all next_entry lookup
  insert_all-next_entries current [] m added k u h = ground arith
  insert_all-next_entries current ((j, n) ∷ other) m added k u h =
      let (rest, hr, ha) = next_entries-cons current other added j n h in
      let next = or_zero (lookup j current) + n in
      ground (
        arith,
        ha,
        u.0,
        e.beq_iff j k,
        lookup-insert j k next m,
        insert_all-next_entries current other (insert j next m) rest k u.1 hr,
      )

-- A commit that fails leaves the map as it was, and fails for an overflow only.
pub commit_other_atomic :
    (other m m' : AssetMap) (e : Error) → commit_other other m ≡ (err e, m') → m' ≡ m
unfolding commit_other
commit_other_atomic other m m' e h = ground arith

commit_other_entries :
    (other m m' : AssetMap)
    → commit_other other m ≡ (ok tt, m')
    → (stx burn : List (PrincipalData × ℕ)) × (next_entries m.stx_map other.stx_map ≡ ok stx)
      × (next_entries m.burn_map other.burn_map ≡ ok burn)
      × (m'.stx_map ≡ insert_all stx m.stx_map)
      × (m'.burn_map ≡ insert_all burn m.burn_map)
unfolding commit_other
commit_other_entries other m m' h =
    go (next_entries m.stx_map other.stx_map) (next_entries m.burn_map other.burn_map) refl refl
  where
    go :
        (a b : Result Error (List (PrincipalData × ℕ)))
        → next_entries m.stx_map other.stx_map ≡ a
        → next_entries m.burn_map other.burn_map ≡ b
        → (stx burn : List (PrincipalData × ℕ)) × (next_entries m.stx_map other.stx_map ≡ ok stx)
          × (next_entries m.burn_map other.burn_map ≡ ok burn)
          × (m'.stx_map ≡ insert_all stx m.stx_map)
          × (m'.burn_map ≡ insert_all burn m.burn_map)
    go (ok a) (ok b) ha hb = (a, b, ha, hb, ground arith, ground arith)
    go (ok a) (err e) ha hb = ground arith
    go (ok a) panic ha hb = ground arith
    go (err e) b ha hb = ground arith
    go panic b ha hb = ground arith

-- A successful commit_other of an asset map without repeated keys adds, for every principal, the
-- STX moved and the STX burned of the other map to those of the first.
pub commit_other_adds :
    (other m m' : AssetMap) (p : PrincipalData)
    → IsMap other.stx_map
    → IsMap other.burn_map
    → commit_other other m ≡ (ok tt, m')
    → (or_zero (get_stx p m') ≡ or_zero (get_stx p m) + or_zero (get_stx p other))
      × (or_zero (get_stx_burned p m')
          ≡ or_zero (get_stx_burned p m) + or_zero (get_stx_burned p other))
unfolding get_stx get_stx_burned
commit_other_adds other m m' p us ub h =
    let (stx, burn, hs, hb, es, eb) = commit_other_entries other m m' h in
    ground (
      arith,
      es,
      eb,
      insert_all-next_entries m.stx_map other.stx_map m.stx_map stx p us hs,
      insert_all-next_entries m.burn_map other.burn_map m.burn_map burn p ub hb,
    )

-- A successful add_token_transfer adds its amount to what is recorded for its principal and
-- asset, and changes what is recorded for no other.
pub add_token_transfer_adds :
    (m m' : AssetMap) (p q : PrincipalData) (a b : AssetIdentifier) (amount : ℕ)
    → add_token_transfer p a amount m ≡ (ok tt, m')
    → or_zero (get_fungible_tokens q b m')
      ≡ or_zero (get_fungible_tokens q b m)
        + (if principal_eq.beq p q
            then (if (pair_eq {A = QualifiedContractIdentifier} {B = String}).beq a b
                then amount
                else 0)
            else 0)
unfolding add_token_transfer get_next_amount next_entry insert_inner get_fungible_tokens lookup
add_token_transfer_adds m m' p q a b amount h =
    let inner = or_empty (lookup p m.token_map) in
    let next = or_zero (lookup a inner) + amount in
    ground (
      arith,
      lookup-insert p q (insert a next inner) m.token_map,
      lookup-insert a b next inner,
      principal_eq.beq_iff p q,
      (pair_eq {A = QualifiedContractIdentifier} {B = String}).beq_iff a b,
    )
