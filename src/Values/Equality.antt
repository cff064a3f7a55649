-- ===== src/Values/Equality.antt =====
-- Equality of values: the derived `PartialEq` of src/clarity/types/mod.rs, where lists and tuples
-- are compared by their contents alone.
use clarity_repl.Prelude.{ℕ, Bool, true, false, ◌&&◌, List, ◌==◌}
use clarity_repl.Prelude.Int.{ℤ, pos, negsuc}
use clarity_repl.Prelude.Keys.{string_eq, list_eq, nat_eq}
use clarity_repl.Types.Keys.{principal_beq}
use clarity_repl.Values.{
  Value, Values, Fields, int, uint, bool, buffer, string_ascii, string_utf8, list, principal, tuple,
  none_value, some_value, response, nil, cons, no_entries, entry,
}

abbrev pub int_beq : ℤ → ℤ → Bool
int_beq (pos m) (pos n) = m == n
int_beq (negsuc m) (negsuc n) = m == n
int_beq _ _ = false

abbrev pub bool_beq : Bool → Bool → Bool
bool_beq true b = b
bool_beq false true = false
bool_beq false false = true

abbrev pub bytes_beq : List ℕ → List ℕ → Bool
bytes_beq = (list_eq {A = ℕ}).beq

unfoldable mutual
  pub value_beq : Value → Value → Bool
  value_beq (int m) (int n) = int_beq m n
  value_beq (uint m) (uint n) = m == n
  value_beq (bool b) (bool c) = bool_beq b c
  value_beq (buffer a) (buffer b) = bytes_beq a b
  value_beq (string_ascii a) (string_ascii b) = bytes_beq a b
  value_beq (string_utf8 a) (string_utf8 b) = (list_eq {A = List ℕ}).beq a b
  value_beq (list items t n) (list others s m) = values_beq items others
  value_beq (principal p) (principal q) = principal_beq p q
  value_beq (tuple items t) (tuple others s) = entries_beq items others
  value_beq none_value none_value = true
  value_beq (some_value v) (some_value w) = value_beq v w
  value_beq (response b v) (response c w) = bool_beq b c && value_beq v w
  value_beq _ _ = false

  pub values_beq : Values → Values → Bool
  values_beq nil nil = true
  values_beq (cons v vs) (cons w ws) = value_beq v w && values_beq vs ws
  values_beq _ _ = false

  pub entries_beq : Fields → Fields → Bool
  entries_beq no_entries no_entries = true
  entries_beq (entry k v rest) (entry j w more) =
      string_eq.beq k j && (value_beq v w && entries_beq rest more)
  entries_beq _ _ = false
