-- ===== src/Functions/Options.antt =====
-- src/clarity/functions/options.rs: unwrapping, wrapping and testing optional values and responses;
-- `native_not` of src/clarity/functions/boolean.rs.
pub mod Laws
use clarity_repl.Prelude.{Bool, true, false, not, Option, none, some, if◌then◌else◌}
use clarity_repl.Prelude.Result.{Result, ok, err, panic, map_err, expect, ◌>>=◌}
use clarity_repl.Errors.{
  Error, unchecked, runtime, short_return, expected_value, unwrap_failure, expected_optional_value,
  expected_response_value, expected_optional_or_response_value, type_value_error,
}
use clarity_repl.Types.{bool_type}
use clarity_repl.Values.{Value, bool, none_value, some_value, response}
use clarity_repl.Values.TypeOf.{some_of, okay, error}

unfoldable pub inner_unwrap : Value → Result Error (Option Value)
inner_unwrap (some_value v) = ok (some v)
inner_unwrap none_value = ok none
inner_unwrap (response true v) = ok (some v)
inner_unwrap (response false v) = ok none
inner_unwrap v = err (unchecked (expected_optional_or_response_value v))

unfoldable pub inner_unwrap_err : Value → Result Error (Option Value)
inner_unwrap_err (response false v) = ok (some v)
inner_unwrap_err (response true v) = ok none
inner_unwrap_err v = err (unchecked (expected_response_value v))

-- `Some(v) => Ok(v), None => Err(e)`
abbrev pub or_fail : Option Value → Error → Result Error Value
or_fail (some v) e = ok v
or_fail none e = err e

unfoldable pub native_unwrap : Value → Result Error Value
unfolding inner_unwrap
native_unwrap input = do opt_value ← inner_unwrap input; or_fail opt_value (runtime unwrap_failure)

unfoldable pub native_unwrap_or_ret : Value → Value → Result Error Value
unfolding inner_unwrap
native_unwrap_or_ret input thrown = do
  opt_value ← inner_unwrap input
  or_fail opt_value (short_return (expected_value thrown))

unfoldable pub native_unwrap_err : Value → Result Error Value
unfolding inner_unwrap_err
native_unwrap_err input = do
  opt_value ← inner_unwrap_err input
  or_fail opt_value (runtime unwrap_failure)

unfoldable pub native_unwrap_err_or_ret : Value → Value → Result Error Value
unfolding inner_unwrap_err
native_unwrap_err_or_ret input thrown = do
  opt_value ← inner_unwrap_err input
  or_fail opt_value (short_return (expected_value thrown))

unfoldable pub native_try_ret : Value → Result Error Value
native_try_ret (some_value v) = ok v
native_try_ret none_value = err (short_return (expected_value none_value))
native_try_ret (response true v) = ok v
native_try_ret (response false v) = do
  short_return_val ← expect (error v)
  err (short_return (expected_value short_return_val))
native_try_ret v = err (unchecked (expected_optional_or_response_value v))

unfoldable pub native_some : Value → Result Error Value
native_some input = map_err unchecked (some_of input)

unfoldable pub native_okay : Value → Result Error Value
native_okay input = map_err unchecked (okay input)

unfoldable pub native_error : Value → Result Error Value
native_error input = map_err unchecked (error input)

unfoldable pub is_some : Value → Result Error Bool
is_some (some_value v) = ok true
is_some none_value = ok false
is_some v = err (unchecked (expected_optional_value v))

unfoldable pub is_okay : Value → Result Error Bool
is_okay (response committed v) = ok committed
is_okay v = err (unchecked (expected_response_value v))

unfoldable pub native_is_some : Value → Result Error Value
unfolding is_some
native_is_some input = do b ← is_some input; ok (bool b)

unfoldable pub native_is_none : Value → Result Error Value
unfolding is_some
native_is_none input = do b ← is_some input; ok (bool (not b))

unfoldable pub native_is_okay : Value → Result Error Value
unfolding is_okay
native_is_okay input = do b ← is_okay input; ok (bool b)

unfoldable pub native_is_err : Value → Result Error Value
unfolding is_okay
native_is_err input = do b ← is_okay input; ok (bool (not b))

unfoldable pub native_default_to : Value → Value → Result Error Value
native_default_to default (some_value v) = ok v
native_default_to default none_value = ok default
native_default_to default v = err (unchecked (expected_optional_value v))

unfoldable pub type_force_bool : Value → Result Error Bool
type_force_bool (bool b) = ok b
type_force_bool v = err (unchecked (type_value_error bool_type v))

unfoldable pub native_not : Value → Result Error Value
unfolding type_force_bool
native_not input = do value ← type_force_bool input; ok (bool (not value))
