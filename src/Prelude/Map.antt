-- ===== src/Prelude/Map.antt =====
-- A Rust `HashMap` or `BTreeMap` as an association list with at most one entry for a key, over any
-- key type with a Boolean equality. Lookups by key do not see the order of the entries.
use mathlib.Core.Path.{◌≡◌, refl}
use mathlib.Core.Logic.{◌↔◌}
use mathlib.Core.Bool.{Bool, true, false}
use mathlib.Core.Option.{Option, none, some}
use mathlib.Core.List.{List, [], ◌∷◌}
use native.Mathlib.Omega.{arith}
use Prim.Native.Nat.{ℕ, ◌+◌}
use mathlib.Core.Path.{ap}
use clarity_repl.Prelude.Tests.{if◌then◌else◌}

-- `Eq`: a test that decides equality.
pub record Eq {ℓ} (A : Type ℓ) : Type ℓ where
  pub beq : A → A → Bool
  pub beq_iff : (a b : A) → (beq a b ≡ true) ↔ (a ≡ b)

abbrev pub Map {ℓ κ} : Type ℓ → Type κ → Type (ℓ ⊔ κ)
Map K V = List (K × V)

-- `Option::is_some`
abbrev pub is_some {ℓ} : {V : Type ℓ} → Option V → Bool
is_some none = false
is_some (some v) = true

pub beq_refl {ℓ} : {K : Type ℓ} ⦃e : Eq K⦄ (k : K) → e.beq k k ≡ true
beq_refl ⦃e⦄ k = (e.beq_iff k k).1 refl

module _ {ℓ κ} {K : Type ℓ} {V : Type κ} ⦃e : Eq K⦄ where
  -- `map.get(key)`
  unfoldable pub lookup : K → Map K V → Option V
  lookup k [] = none
  lookup k ((j, v) ∷ m) = if e.beq j k then some v else lookup k m

  -- `map.contains_key(key)`
  unfoldable pub contains_key : K → Map K V → Bool
  contains_key k [] = false
  contains_key k ((j, v) ∷ m) = if e.beq j k then true else contains_key k m

  -- `map.remove(key)`
  unfoldable pub remove : K → Map K V → Map K V
  remove k [] = []
  remove k ((j, v) ∷ m) = let rest = remove k m in if e.beq j k then rest else (j, v) ∷ rest

  -- `map.insert(key, value)`
  unfoldable pub insert : K → V → Map K V → Map K V
  insert k v [] = (k, v) ∷ []
  insert k v ((j, w) ∷ m) = if e.beq j k then (k, v) ∷ m else (j, w) ∷ insert k v m

  pub lookup-insert :
      (k j : K) (v : V) (m : Map K V)
      → lookup j (insert k v m) ≡ (if e.beq k j then some v else lookup j m)
  unfolding lookup insert
  lookup-insert k j v [] = refl
  lookup-insert k j v ((i, w) ∷ m) =
      ground (arith, e.beq_iff k j, e.beq_iff i k, e.beq_iff i j, lookup-insert k j v m)

  pub lookup-remove :
      (k j : K) (m : Map K V) → lookup j (remove k m) ≡ (if e.beq k j then none else lookup j m)
  unfolding lookup remove
  lookup-remove k j [] = ground arith
  lookup-remove k j ((i, w) ∷ m) =
      ground (arith, e.beq_iff k j, e.beq_iff i k, e.beq_iff i j, lookup-remove k j m)

  pub contains_key-lookup : (k : K) (m : Map K V) → contains_key k m ≡ is_some (lookup k m)
  unfolding lookup contains_key
  contains_key-lookup k [] = refl
  contains_key-lookup k ((i, w) ∷ m) = ground (arith, contains_key-lookup k m)

pub ruleset map_laws = (lookup-insert, lookup-remove, beq_refl)

-- The sum of a measure over the entries.
abbrev pub total {ℓ κ} : {K : Type ℓ} {V : Type κ} → (K → V → ℕ) → Map K V → ℕ
total f [] = 0
total f ((k, v) ∷ m) = f k v + total f m

abbrev pub measure {ℓ κ} : {K : Type ℓ} {V : Type κ} → (K → V → ℕ) → K → Option V → ℕ
measure f k none = 0
measure f k (some v) = f k v

-- An insertion takes the old entry's part out of the sum and puts the new one's in.
pub total-insert {ℓ κ} :
    {K : Type ℓ} {V : Type κ} ⦃e : Eq K⦄ (f : K → V → ℕ) (k : K) (v : V) (m : Map K V)
    → total f (insert k v m) + measure f k (lookup k m) ≡ total f m + f k v
unfolding lookup insert
total-insert f k v [] = ground arith
total-insert ⦃e⦄ f k v ((j, w) ∷ m) =
    let same_key : (e.beq j k ≡ true) → f j w ≡ f k w =
      λ h. ap (λ i. f i w) ((e.beq_iff j k).0 h) in
    ground (arith, same_key, total-insert f k v m)
