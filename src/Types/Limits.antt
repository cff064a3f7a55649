-- ===== src/Types/Limits.antt =====
-- The limits on depth and size of types, for what the guarded constructors of Types/Build return.
use clarity_repl.Prelude.{
  ℕ, ◌+◌, ◌≤◌, ◌≡◌, refl, ltb, false, true, Bool-cases, inl, inr, arith, max,
}
use clarity_repl.Prelude.Result.{ok, err, panic, expect, ◌>>=◌}
use clarity_repl.Types.{
  TypeSignature, TypeMap, optional_type, response_type, no_fields, field, list_type, tuple_type,
  max_value_size, max_type_depth, wrapper_value_size,
}
use clarity_repl.Types.Size.{Maybe, add32, depth, max_depth, inner_size}
use clarity_repl.Types.Build.{
  guarded, bounded, new_option, new_response, list_of, tuple_of, fields_fit,
}

-- `t` came out of `new_option`, `new_response`, `list_of` or `TupleTypeSignature::try_from`.
pub data IsBuilt : TypeSignature → Type 0 where
  option : (t : TypeSignature) {u : TypeSignature} → new_option t ≡ ok u → IsBuilt u
  response : (t s : TypeSignature) {u : TypeSignature} → new_response t s ≡ ok u → IsBuilt u
  list : (t : TypeSignature) (n : ℕ) {u : TypeSignature} → list_of t n ≡ ok u → IsBuilt u
  tuple : (m : TypeMap) {u : TypeSignature} → tuple_of m ≡ ok u → IsBuilt u

-- not deeper than `MAX_TYPE_DEPTH`, and of a size that exists and is at most `MAX_VALUE_SIZE`
pub record IsWithinLimits (t : TypeSignature) : Type 0 where
  pub depth_bound : depth t ≤ max_type_depth
  pub size : ℕ
  pub size_exists : inner_size t ≡ ok size
  pub size_bound : size ≤ max_value_size

guarded-eq-ok :
    (x y : ℕ) (t : TypeSignature) {u : TypeSignature}
    → guarded x y t ≡ ok u
    → (u ≡ t) × (x ≤ max_value_size) × (y ≤ max_type_depth)
guarded-eq-ok x y t h = ground arith

bounded-eq-ok :
    (t : TypeSignature) (r : Maybe ℕ) {u : TypeSignature}
    → bounded t r ≡ ok u
    → (s : ℕ) × (u ≡ t) × (r ≡ ok s) × (s ≤ max_value_size)
bounded-eq-ok t (ok n) h = (n, ground arith, refl, ground arith)
bounded-eq-ok t (err e) h = cc
bounded-eq-ok t panic h = cc

limits_of :
    (t : TypeSignature) (s : ℕ) {u : TypeSignature}
    → u ≡ t
    → depth t ≤ max_type_depth
    → inner_size t ≡ ok s
    → s ≤ max_value_size
    → IsWithinLimits u
limits_of t s same shallow sized fits =
    rw same (record { depth_bound = shallow; size = s; size_exists = sized; size_bound = fits })

wrap-eq-ok :
    (n : ℕ) → wrapper_value_size + n ≤ max_value_size → add32 n wrapper_value_size ≡ ok (1 + n)
wrap-eq-ok n h = ground arith

-- The two wrappers, from the outcome of the size of what they wrap.
option_of :
    (t : TypeSignature) (r : Maybe ℕ) {u : TypeSignature}
    → inner_size t ≡ r
    → (expect r >>= λ s. guarded (wrapper_value_size + s) (1 + depth t) (optional_type t)) ≡ ok u
    → IsWithinLimits u
unfolding depth inner_size
option_of t (ok n) e h =
    let (same, fits, shallow) =
      guarded-eq-ok (wrapper_value_size + n) (1 + depth t) (optional_type t) h in
    limits_of (optional_type t) (1 + n) same shallow (rw e (wrap-eq-ok n fits)) fits
option_of t (err _) e h = cc
option_of t panic e h = cc

response_of :
    (t s : TypeSignature) (q r : Maybe ℕ) {u : TypeSignature}
    → inner_size t ≡ q
    → inner_size s ≡ r
    → (expect q >>= λ n. expect r >>= λ m.
        guarded (wrapper_value_size + max n m) (1 + max (depth t) (depth s)) (response_type t s))
      ≡ ok u
    → IsWithinLimits u
unfolding depth inner_size
response_of t s (ok n) (ok m) d e h =
    let (same, fits, shallow) =
      guarded-eq-ok (wrapper_value_size + max n m) (1 + max (depth t) (depth s)) (response_type t s)
        h in
    limits_of (response_type t s) (1 + max n m) same shallow (rw (d, e) (wrap-eq-ok (max n m) fits))
      fits
response_of t s (ok n) (err _) d e h = cc
response_of t s (ok n) panic d e h = cc
response_of t s (err _) r d e h = cc
response_of t s panic r d e h = cc

option-IsWithinLimits :
    (t : TypeSignature) {u : TypeSignature} → new_option t ≡ ok u → IsWithinLimits u
unfolding new_option
option-IsWithinLimits t h = option_of t (inner_size t) refl h

response-IsWithinLimits :
    (t s : TypeSignature) {u : TypeSignature} → new_response t s ≡ ok u → IsWithinLimits u
unfolding new_response
response-IsWithinLimits t s h = response_of t s (inner_size t) (inner_size s) refl refl h

bounded-IsWithinLimits :
    (t : TypeSignature) {u : TypeSignature}
    → depth t ≤ max_type_depth
    → bounded t (inner_size t) ≡ ok u
    → IsWithinLimits u
bounded-IsWithinLimits t shallow h =
    let (s, same, sized, fits) = bounded-eq-ok t (inner_size t) h in
    limits_of t s same shallow sized fits

list-IsWithinLimits :
    (t : TypeSignature) (n : ℕ) {u : TypeSignature} → list_of t n ≡ ok u → IsWithinLimits u
unfolding list_of depth
list-IsWithinLimits t n h = elim (Bool-cases (ltb max_type_depth (1 + depth t))) [
  | inl deep ↦ cc (rw deep at h)
  | inr shallow ↦ bounded-IsWithinLimits (list_type t n) (ground arith) (rw shallow at h)
]

fields_fit-max_depth : (m : TypeMap) → fields_fit m ≡ true → 1 + max_depth m ≤ max_type_depth
unfolding fields_fit max_depth
fields_fit-max_depth no_fields h = omega arith
fields_fit-max_depth (field name t rest) h = elim (Bool-cases (ltb max_type_depth (1 + depth t))) [
  | inl deep ↦ cc (rw deep at h)
  | inr shallow ↦
      step (depth t) (max_depth rest) shallow (fields_fit-max_depth rest (rw shallow at h))
]
  where
    step :
        (d r : ℕ)
        → ltb max_type_depth (1 + d) ≡ false
        → 1 + r ≤ max_type_depth
        → 1 + max d r ≤ max_type_depth
    step d r a b = ground arith

tuple-IsWithinLimits : (m : TypeMap) {u : TypeSignature} → tuple_of m ≡ ok u → IsWithinLimits u
unfolding tuple_of depth
tuple-IsWithinLimits no_fields h = cc
tuple-IsWithinLimits (field name t rest) h = elim (Bool-cases (fields_fit (field name t rest))) [
  | inl shallow ↦
      bounded-IsWithinLimits (tuple_type (field name t rest))
        (fields_fit-max_depth (field name t rest) shallow) (rw shallow at h)
  | inr deep ↦ cc (rw deep at h)
]

-- Every type that a guarded constructor returns has a depth of at most MAX_TYPE_DEPTH and a size
-- that exists and is at most MAX_VALUE_SIZE.
pub IsBuilt-IsWithinLimits : {t : TypeSignature} → IsBuilt t → IsWithinLimits t
IsBuilt-IsWithinLimits (option t h) = option-IsWithinLimits t h
IsBuilt-IsWithinLimits (response t s h) = response-IsWithinLimits t s h
IsBuilt-IsWithinLimits (list t n h) = list-IsWithinLimits t n h
IsBuilt-IsWithinLimits (tuple m h) = tuple-IsWithinLimits m h
