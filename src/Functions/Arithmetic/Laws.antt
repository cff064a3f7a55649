-- ===== src/Functions/Arithmetic/Laws.antt =====
-- The results of src/clarity/functions/arithmetic.rs against exact arithmetic.
use clarity_repl.Prelude.{
  sym, subst, ap, ◌∙◌, Bool-cases, inl, inr, ltb, ltb→lt, ℕ, zero, suc, ◌+◌, ◌-◌, ◌*◌, ◌^◌, ◌/◌,
  ◌≤◌, ◌<◌, ◌≡◌, refl, none, some, if◌then◌else◌, List, [], ◌∷◌, map, arith,
}
use clarity_repl.Prelude.Int.{pos}
use clarity_repl.Prelude.Result.{ok, err}
use clarity_repl.Prelude.Machine.{u128_mod, checked_add}
use clarity_repl.Errors.{runtime, arithmetic_overflow}
use clarity_repl.Values.{Value, int, uint}
use clarity_repl.Functions.Integer.{i128_half, bit_length}
use clarity_repl.Functions.Arithmetic.{
  try_fold, add, log2, native_add, variadic, uint_args, native_to_int, native_to_uint, native_log2,
}

abbrev pub sum : List ℕ → ℕ
sum [] = 0
sum (x ∷ xs) = x + sum xs

try_fold-sum :
    (acc : ℕ) (xs : List ℕ)
    → acc < u128_mod
    → try_fold (checked_add u128_mod) acc xs
      ≡ (if ltb (acc + sum xs) u128_mod then some (acc + sum xs) else none)
unfolding try_fold
try_fold-sum acc [] h = ground arith
try_fold-sum acc (x ∷ xs) h =
    let ih : (acc + x < u128_mod)
        → try_fold (checked_add u128_mod) (acc + x) xs
          ≡ (if ltb (acc + x + sum xs) u128_mod then some (acc + x + sum xs) else none) =
      try_fold-sum (acc + x) xs in
    ground (arith, ih)

uint_args-map : (xs : List ℕ) → uint_args (map uint xs) ≡ ok xs
unfolding uint_args
uint_args-map [] = refl
uint_args-map (x ∷ xs) = ground (arith, uint_args-map xs)

-- Unsigned addition of one or more arguments gives their exact sum if that fits in u128, and
-- otherwise fails with ArithmeticOverflow.
pub native_add-sum :
    (x : ℕ) (xs : List ℕ)
    → native_add (map uint (x ∷ xs)) ≡ (
        if ltb (sum (x ∷ xs)) u128_mod
        then ok (uint (sum (x ∷ xs)))
        else err (runtime arithmetic_overflow))
unfolding native_add add variadic
native_add-sum x xs = ground (arith, uint_args-map (x ∷ xs), try_fold-sum 0 (x ∷ xs))

-- A successful conversion of an unsigned number to a signed one is exact and in range, and
-- converts back to the number.
pub to_uint-to_int :
    (n : ℕ) (v : Value)
    → native_to_int (uint n) ≡ ok v
    → (v ≡ int (pos n)) × (n < i128_half) × (native_to_uint v ≡ ok (uint n))
unfolding native_to_int native_to_uint
to_uint-to_int n v h = ground arith

bit_length-zero : (fuel : ℕ) → bit_length fuel 0 ≡ 0
unfolding bit_length
bit_length-zero zero = refl
bit_length-zero (suc fuel) = refl

bit_length-suc : (fuel n : ℕ) → 1 ≤ n → bit_length (suc fuel) n ≡ suc (bit_length fuel (n / 2))
unfolding bit_length
bit_length-suc fuel n h = ground arith

two_pow_suc : (n : ℕ) → 2 ^ suc n ≡ 2 * 2 ^ n
two_pow_suc n = omega arith

two_pow_one : (n : ℕ) → 2 ^ (n + 1) ≡ 2 * 2 ^ n
two_pow_one n = let e : n + 1 ≡ suc n = omega arith in ap (λ k. 2 ^ k) e ∙ two_pow_suc n

-- what a number's length says of it
abbrev pub Bounds : ℕ → ℕ → ℕ → Type 0
Bounds fuel n b = (1 ≤ b) × (b ≤ fuel) × (2 ^ b ≤ 2 * n) × (n < 2 ^ b)

Bounds-suc : (fuel n b : ℕ) → Bounds fuel (n / 2) b → Bounds (suc fuel) n (suc b)
Bounds-suc fuel n b (p, q, r, s) = (
  omega arith,
  omega (arith, q),
  omega (arith, r, two_pow_suc b),
  omega (arith, s, two_pow_suc b),
)

Bounds-one : (fuel n : ℕ) → 1 ≤ n → n / 2 < 1 → Bounds (suc fuel) n (suc (bit_length fuel (n / 2)))
Bounds-one fuel n h small =
    let none_left : n / 2 ≡ 0 = omega arith in
    let no_bits : bit_length fuel (n / 2) ≡ 0 =
      ap (bit_length fuel) none_left ∙ bit_length-zero fuel in
    subst (λ b. Bounds (suc fuel) n (suc b)) (sym no_bits) (ground arith)

bit_length-Bounds : (fuel n : ℕ) → 1 ≤ n → n < 2 ^ fuel → Bounds fuel n (bit_length fuel n)
bit_length-Bounds zero n h k = ground arith
bit_length-Bounds (suc fuel) n h k =
    subst (Bounds (suc fuel) n) (sym (bit_length-suc fuel n h)) (elim (Bool-cases (ltb (n / 2) 1)) [
      | inl small ↦ Bounds-one fuel n h (ltb→lt (n / 2) 1 small)
      | inr large ↦ Bounds-suc fuel n (bit_length fuel (n / 2)) (
          bit_length-Bounds fuel (n / 2) (ground (arith, large))
            (omega (arith, k, two_pow_suc fuel)))
    ])

log2_value : (n : ℕ) → 1 ≤ n → native_log2 (uint n) ≡ ok (uint (127 - (128 - bit_length 128 n)))
unfolding native_log2 log2
log2_value n h = ground arith

-- log2 of a positive u128 succeeds, and is the exponent of the largest power of 2 that is at most
-- the number.
pub native_log2_bounds :
    (n : ℕ)
    → 1 ≤ n
    → n < u128_mod
    → (r : ℕ) × (native_log2 (uint n) ≡ ok (uint r)) × (2 ^ r ≤ n) × (n < 2 ^ (r + 1))
unfolding native_log2 log2
native_log2_bounds n h k = go (bit_length 128 n) refl (bit_length-Bounds 128 n h k)
  where
    go :
        (b : ℕ)
        → bit_length 128 n ≡ b
        → Bounds 128 n b
        → (r : ℕ) × (native_log2 (uint n) ≡ ok (uint r)) × (2 ^ r ≤ n) × (n < 2 ^ (r + 1))
    go zero e (p, q, s, t) = ground arith
    go (suc r) e (p, q, s, t) = (
      r,
      log2_value n h
          ∙ ap (λ b. ok (uint (127 - (128 - b)))) e
          ∙ ap (λ i. ok (uint i)) (omega (arith, q)),
      omega (arith, s, two_pow_suc r),
      omega (arith, t, two_pow_suc r, two_pow_one r),
    )
