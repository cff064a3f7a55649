-- ===== src/Serialization/Prefix.antt =====
-- The bytes that tell what value follows: `TypePrefix` of src/clarity/types/serialization.rs.
use clarity_repl.Prelude.{ℕ, ◌≡◌, refl, true, false, Option, none, some, ◌==◌, if◌then◌else◌}
use clarity_repl.Types.{PrincipalData, standard, contract}
use clarity_repl.Values.{
  Value, int, uint, bool, buffer, string_ascii, string_utf8, list, principal, tuple, none_value,
  some_value, response,
}

pub data TypePrefix : Type 0 where
  int_prefix uint_prefix buffer_prefix bool_true bool_false principal_standard principal_contract :
      TypePrefix
  response_ok response_err optional_none optional_some list_prefix tuple_prefix : TypePrefix
  string_ascii_prefix string_utf8_prefix : TypePrefix

unfoldable pub to_u8 : TypePrefix → ℕ
to_u8 int_prefix = 0
to_u8 uint_prefix = 1
to_u8 buffer_prefix = 2
to_u8 bool_true = 3
to_u8 bool_false = 4
to_u8 principal_standard = 5
to_u8 principal_contract = 6
to_u8 response_ok = 7
to_u8 response_err = 8
to_u8 optional_none = 9
to_u8 optional_some = 10
to_u8 list_prefix = 11
to_u8 tuple_prefix = 12
to_u8 string_ascii_prefix = 13
to_u8 string_utf8_prefix = 14

unfoldable pub from_u8 : ℕ → Option TypePrefix
from_u8 v =
    if v == 0
    then some int_prefix
    else if v == 1
    then some uint_prefix
    else if v == 2
    then some buffer_prefix
    else if v == 3
    then some bool_true
    else if v == 4
    then some bool_false
    else if v == 5
    then some principal_standard
    else if v == 6
    then some principal_contract
    else if v == 7
    then some response_ok
    else if v == 8
    then some response_err
    else if v == 9
    then some optional_none
    else if v == 10
    then some optional_some
    else if v == 11
    then some list_prefix
    else if v == 12
    then some tuple_prefix
    else if v == 13
    then some string_ascii_prefix
    else if v == 14
    then some string_utf8_prefix
    else none

unfoldable pub prefix_of_principal : PrincipalData → TypePrefix
prefix_of_principal (standard p) = principal_standard
prefix_of_principal (contract c) = principal_contract

unfoldable pub prefix_of : Value → TypePrefix
unfolding prefix_of_principal
prefix_of (int n) = int_prefix
prefix_of (uint n) = uint_prefix
prefix_of (bool true) = bool_true
prefix_of (bool false) = bool_false
prefix_of (principal p) = prefix_of_principal p
prefix_of (response true v) = response_ok
prefix_of (response false v) = response_err
prefix_of none_value = optional_none
prefix_of (some_value v) = optional_some
prefix_of (tuple items t) = tuple_prefix
prefix_of (buffer bytes) = buffer_prefix
prefix_of (list items t n) = list_prefix
prefix_of (string_ascii bytes) = string_ascii_prefix
prefix_of (string_utf8 chars) = string_utf8_prefix

pub from_u8-to_u8 : (p : TypePrefix) → from_u8 (to_u8 p) ≡ some p
unfolding from_u8 to_u8
from_u8-to_u8 int_prefix = refl
from_u8-to_u8 uint_prefix = refl
from_u8-to_u8 buffer_prefix = refl
from_u8-to_u8 bool_true = refl
from_u8-to_u8 bool_false = refl
from_u8-to_u8 principal_standard = refl
from_u8-to_u8 principal_contract = refl
from_u8-to_u8 response_ok = refl
from_u8-to_u8 response_err = refl
from_u8-to_u8 optional_none = refl
from_u8-to_u8 optional_some = refl
from_u8-to_u8 list_prefix = refl
from_u8-to_u8 tuple_prefix = refl
from_u8-to_u8 string_ascii_prefix = refl
from_u8-to_u8 string_utf8_prefix = refl
