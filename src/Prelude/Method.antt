-- ===== src/Prelude/Method.antt =====
-- A Rust method on `&mut self` that may fail or panic: the state that it leaves behind comes back
-- beside an error too, since what was written before stays written.
use mathlib.Core.Path.{◌≡◌}
use native.Mathlib.Omega.{arith}
use clarity_repl.Prelude.Result.{Result, ok, err, panic}

abbrev pub Method : Type 0 → Type 0 → Type 0 → Type 0
Method S E A = S → Result E A × S

module _ {S E A : Type 0} where
  abbrev pub pure : A → Method S E A
  pure a s = (ok a, s)

  abbrev pub raise : E → Method S E A
  raise e s = (err e, s)

  abbrev pub crash : Method S E A
  crash s = (panic, s)

  abbrev pub lift : Result E A → Method S E A
  lift r s = (r, s)

  -- a value of the state, and a fallible one
  abbrev pub gets : (S → A) → Method S E A
  gets f s = (ok (f s), s)

  abbrev pub try : (S → Result E A) → Method S E A
  try f s = (f s, s)

abbrev pub modify : {S E : Type 0} → (S → S) → Method S E (Unit {0})
modify f s = (ok tt, f s)

infixl 5 ◌>>=◌ ◌>>◌
abbrev pub ◌>>=◌ : {S E A B : Type 0} → Method S E A → (A → Method S E B) → Method S E B
◌>>=◌ m f s =
    let (r, s') = m s in elim r [ ok a ↦ f a s' | err e ↦ (err e, s') | panic ↦ (panic, s') ]

abbrev pub ◌>>◌ : {S E A B : Type 0} → Method S E A → Method S E B → Method S E B
m >> k = m >>= λ _. k

-- What follows a method that succeeds.
pub >>=-eq_ok :
    {S E A B : Type 0} (m : Method S E A) (f : A → Method S E B) (s : S) {a : A}
    → (m s).0 ≡ ok a
    → (m >>= f) s ≡ f a (m s).1
>>=-eq_ok m f s h = ground (arith, h)
