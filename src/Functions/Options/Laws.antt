-- ===== src/Functions/Options/Laws.antt =====
-- The functions of src/clarity/functions/options.rs on the values that they make.
use clarity_repl.Prelude.{◌≡◌, ◌↔◌, ◌⊎◌, inl, inr, refl, true, false, arith}
use clarity_repl.Prelude.Result.{ok, err}
use clarity_repl.Errors.{runtime, short_return, expected_value, unwrap_failure}
use clarity_repl.Values.{Value, bool, some_value, response}
use clarity_repl.Values.TypeOf.{some_of, okay, wrapped}
use clarity_repl.Functions.Options.{
  native_unwrap, native_unwrap_or_ret, native_unwrap_err, native_unwrap_err_or_ret, native_try_ret,
  native_some, native_okay, native_is_some, native_is_none, native_is_okay, native_is_err,
  native_default_to, inner_unwrap, inner_unwrap_err, is_some, is_okay,
}

some_of-shape : (v w : Value) → native_some v ≡ ok w → w ≡ some_value v
unfolding native_some some_of wrapped
some_of-shape v w h = ground (arith, h)

okay-shape : (v w : Value) → native_okay v ≡ ok w → w ≡ response true v
unfolding native_okay okay wrapped
okay-shape v w h = ground (arith, h)

-- What some wraps is given back by every function that unwraps an optional value, and the tests see
-- that it is there.
pub unwrap-some :
    (v w thrown : Value)
    → native_some v ≡ ok w
    → (native_unwrap w ≡ ok v)
      × (native_unwrap_or_ret w thrown ≡ ok v)
      × (native_try_ret w ≡ ok v)
      × (native_default_to thrown w ≡ ok v)
      × (native_is_some w ≡ ok (bool true))
      × (native_is_none w ≡ ok (bool false))
unfolding native_unwrap native_unwrap_or_ret native_try_ret native_default_to native_is_some
    native_is_none inner_unwrap is_some
unwrap-some v w thrown h = ground (arith, some_of-shape v w h)

-- What ok wraps is given back by the functions that unwrap a success, and those that unwrap an error
-- fail on it, at runtime or with a return of the value that they are given.
pub unwrap-okay :
    (v w thrown : Value)
    → native_okay v ≡ ok w
    → (native_unwrap w ≡ ok v)
      × (native_unwrap_or_ret w thrown ≡ ok v)
      × (native_try_ret w ≡ ok v)
      × (native_unwrap_err w ≡ err (runtime unwrap_failure))
      × (native_unwrap_err_or_ret w thrown ≡ err (short_return (expected_value thrown)))
      × (native_is_okay w ≡ ok (bool true))
      × (native_is_err w ≡ ok (bool false))
unfolding native_unwrap native_unwrap_or_ret native_try_ret native_unwrap_err
    native_unwrap_err_or_ret native_is_okay native_is_err inner_unwrap inner_unwrap_err is_okay
unwrap-okay v w thrown h = ground (arith, okay-shape v w h)

-- A value that carries v on its successful side.
abbrev pub IsSuccess : Value → Value → Type 0
IsSuccess input v = (input ≡ some_value v) ⊎ (input ≡ response true v)

module _ (input v thrown : Value) where
  native_unwrap_iff : (native_unwrap input ≡ ok v) ↔ IsSuccess input v
  unfolding native_unwrap inner_unwrap
  native_unwrap_iff = ground arith

  native_unwrap_or_ret_iff : (native_unwrap_or_ret input thrown ≡ ok v) ↔ IsSuccess input v
  unfolding native_unwrap_or_ret inner_unwrap
  native_unwrap_or_ret_iff = ground arith

  native_try_ret_iff : (native_try_ret input ≡ ok v) ↔ IsSuccess input v
  unfolding native_try_ret
  native_try_ret_iff = ground arith

  native_unwrap_err_iff : (native_unwrap_err input ≡ ok v) ↔ (input ≡ response false v)
  unfolding native_unwrap_err inner_unwrap_err
  native_unwrap_err_iff = ground arith

  native_unwrap_err_or_ret_iff :
      (native_unwrap_err_or_ret input thrown ≡ ok v) ↔ (input ≡ response false v)
  unfolding native_unwrap_err_or_ret inner_unwrap_err
  native_unwrap_err_or_ret_iff = ground arith

is_err-unwrap :
    (input : Value)
    → (native_is_err input ≡ ok (bool true)) ↔ ((u : Value) × (native_unwrap_err input ≡ ok u))
unfolding native_is_err is_okay native_unwrap_err inner_unwrap_err
is_err-unwrap (response false u) = (λ h. (u, refl), λ h. refl)
is_err-unwrap (response true u) = ground arith
is_err-unwrap input = ground arith

abbrev IsFull : Value → Type 0
IsFull input = (native_is_okay input ≡ ok (bool true)) ⊎ (native_is_some input ≡ ok (bool true))

IsFull-unwrap : (input : Value) → IsFull input ↔ ((u : Value) × (native_unwrap input ≡ ok u))
unfolding native_is_okay is_okay native_is_some is_some native_unwrap inner_unwrap
IsFull-unwrap (response true u) = (λ h. (u, refl), λ h. inl refl)
IsFull-unwrap (some_value u) = (λ h. (u, refl), λ h. inr refl)
IsFull-unwrap (response false u) = ground arith
IsFull-unwrap input = ground arith

-- On every value, the functions that unwrap a success give v exactly when the value is (some v)
-- or (ok v), and those that unwrap an error exactly when it is (err v). Unwrapping a success
-- succeeds exactly when is-ok or is-some answers true, and unwrapping an error exactly when is-
-- err does.
pub unwrap_iff :
    (input v thrown : Value)
    → ((native_unwrap input ≡ ok v) ↔ IsSuccess input v)
      × ((native_unwrap_or_ret input thrown ≡ ok v) ↔ IsSuccess input v)
      × ((native_try_ret input ≡ ok v) ↔ IsSuccess input v)
      × ((native_unwrap_err input ≡ ok v) ↔ (input ≡ response false v))
      × ((native_unwrap_err_or_ret input thrown ≡ ok v) ↔ (input ≡ response false v))
      × (((native_is_okay input ≡ ok (bool true)) ⊎ (native_is_some input ≡ ok (bool true)))
          ↔ ((u : Value) × (native_unwrap input ≡ ok u)))
      × ((native_is_err input ≡ ok (bool true)) ↔ ((u : Value) × (native_unwrap_err input ≡ ok u)))
unwrap_iff input v thrown = (
  native_unwrap_iff input v thrown,
  native_unwrap_or_ret_iff input v thrown,
  native_try_ret_iff input v thrown,
  native_unwrap_err_iff input v thrown,
  native_unwrap_err_or_ret_iff input v thrown,
  IsFull-unwrap input,
  is_err-unwrap input,
)
