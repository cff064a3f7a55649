-- ===== src/Prelude/Result.antt =====
-- `Result<A, E>` with a third outcome for a Rust panic: a failed `expect`, `unwrap` or `assert!`.
-- A function that returns `Option<A>` through `?` and may panic has the error type `Unit`.
use mathlib.Core.Path.{◌≡◌, refl}
use mathlib.Core.Bool.{Bool, true, false}
use mathlib.Core.Option.{Option, none, some}
use native.Mathlib.Omega.{arith}

pub data Result (E : Type 0) (A : Type 0) : Type 0 where
  ok : A → Result E A
  err : E → Result E A
  panic : Result E A

-- `Result::and_then`, where a file has `Method`'s do blocks
abbrev pub and_then : {E A B : Type 0} → Result E A → (A → Result E B) → Result E B
and_then (ok a) f = f a
and_then (err e) f = err e
and_then panic f = panic

infixl 5 ◌>>=◌ ◌>>◌
abbrev pub ◌>>=◌ : {E A B : Type 0} → Result E A → (A → Result E B) → Result E B
ok a >>= f = f a
err e >>= f = err e
panic >>= f = panic

abbrev pub ◌>>◌ : {E B : Type 0} → Result E (Unit {0}) → Result E B → Result E B
m >> k = m >>= λ _. k

-- `Result::map_err`
abbrev pub map_err : {E F A : Type 0} → (E → F) → Result E A → Result F A
map_err f (ok a) = ok a
map_err f (err e) = err (f e)
map_err f panic = panic

-- `Result::expect` and `Option::expect`: a failure is a panic
abbrev pub expect : {E F A : Type 0} → Result E A → Result F A
expect (ok a) = ok a
expect (err e) = panic
expect panic = panic

-- `Option::ok_or`
abbrev pub ok_or : {E A : Type 0} → Option A → E → Result E A
ok_or none e = err e
ok_or (some a) e = ok a

-- `Option::unwrap`
abbrev pub unwrap : {E A : Type 0} → Option A → Result E A
unwrap none = panic
unwrap (some a) = ok a

-- `if b { return Err(e) }`
abbrev pub fail_if : {E : Type 0} → Bool → E → Result E (Unit {0})
fail_if true e = err e
fail_if false e = ok tt

-- `assert!(b)`
abbrev pub assert : {E : Type 0} → Bool → Result E (Unit {0})
assert true = ok tt
assert false = panic

-- Inversion of a successful bind.
pub >>=-eq-ok :
    {E A B : Type 0} (r : Result E A) (k : A → Result E B) {v : B}
    → (r >>= k) ≡ ok v
    → (x : A) × (r ≡ ok x) × (k x ≡ ok v)
>>=-eq-ok panic k e = cc
>>=-eq-ok (err c) k e = cc
>>=-eq-ok (ok x) k e = (x, refl, e)

pub ok-pair :
    {E A B : Type 0} {a b : A} {m n : B}
    → ◌≡◌ {A = Result E (A × B)} (ok (a, m)) (ok (b, n))
    → (a ≡ b) × (m ≡ n)
ok-pair h = ground (arith, h)

pub and_then-eq-ok :
    {E A B : Type 0} (r : Result E A) (k : A → Result E B) {v : B}
    → and_then r k ≡ ok v
    → (x : A) × (r ≡ ok x) × (k x ≡ ok v)
and_then-eq-ok panic k e = cc
and_then-eq-ok (err c) k e = cc
and_then-eq-ok (ok x) k e = (x, refl, e)
