-- ===== src/Functions/Integer.antt =====
-- The operations of u128 and i128 that src/clarity/functions/arithmetic.rs uses, as the Rust
-- standard library documents them, behind one interface: the source writes them once, in a macro.
use clarity_repl.Prelude.{
  ℕ, zero, suc, ◌+◌, ◌-◌, ◌*◌, ◌/◌, ◌%◌, ◌^◌, Bool, Option, none, some, ltb, leb, ◌==◌,
  if◌then◌else◌,
}
use clarity_repl.Prelude.Int.{
  ℤ, pos, negsuc, ◌+ℤ◌, ◌-ℤ◌, ◌*ℤ◌, ltb_ℤ, leb_ℤ, eqb_ℤ, tdiv, tmod, pow_ℤ, pos_part,
}
use clarity_repl.Prelude.Machine.{u128_mod, checked_add, checked_sub, checked_mul}
use clarity_repl.Values.{Value, uint, int}

pub record Integer (A : Type 0) : Type 0 where
  pub make_value : A → Value
  pub of_ℕ : ℕ → A
  pub lt : A → A → Bool
  pub le : A → A → Bool
  pub eq : A → A → Bool
  pub xor : A → A → A
  pub add : A → A → Option A
  pub sub : A → A → Option A
  pub mul : A → A → Option A
  pub neg : A → Option A
  pub div : A → A → Option A
  pub rem : A → A → Option A
  pub pow : A → ℕ → Option A
  -- the value of a non-negative number
  pub to_ℕ : A → ℕ

-- the exclusive or of the lowest `bits` bits
unfoldable pub xor_bits : ℕ → ℕ → ℕ → ℕ
xor_bits zero a b = 0
xor_bits (suc bits) a b = let rest = xor_bits bits (a / 2) (b / 2) in (a % 2 + b % 2) % 2 + 2 * rest

-- the number of bits of a number below 2 ^ fuel
unfoldable pub bit_length : ℕ → ℕ → ℕ
bit_length zero n = 0
bit_length (suc fuel) n = let rest = bit_length fuel (n / 2) in if n == 0 then 0 else suc rest

abbrev pub below : ℕ → Option ℕ
below n = if ltb n u128_mod then some n else none

-- u128: a division by 0 has no result.
abbrev pub u128 : Integer ℕ
u128 = record {
  make_value = uint;
  of_ℕ = λ n. n;
  lt = ltb;
  le = leb;
  eq = λ a b. a == b;
  xor = xor_bits 128;
  add = checked_add u128_mod;
  sub = checked_sub;
  mul = checked_mul u128_mod;
  neg = λ a. if a == 0 then some 0 else none;
  div = λ a b. if b == 0 then none else some (a / b);
  rem = λ a b. if b == 0 then none else some (a % b);
  pow = λ a n. below (a ^ n);
  to_ℕ = λ n. n;
}

abbrev pub i128_half : ℕ
i128_half = 2 ^ 127

-- Is an integer between -2^127 and 2^127 - 1?
abbrev pub in_i128 : ℤ → Bool
in_i128 (pos n) = ltb n i128_half
in_i128 (negsuc n) = ltb n i128_half

abbrev pub checked : ℤ → Option ℤ
checked a = if in_i128 a then some a else none

-- the bits of an i128 and back
abbrev pub to_bits : ℤ → ℕ
to_bits (pos n) = n
to_bits (negsuc n) = u128_mod - 1 - n

abbrev pub of_bits : ℕ → ℤ
of_bits n = if ltb n i128_half then pos n else negsuc (u128_mod - 1 - n)

-- i128: a result out of range, or a division by 0, has no result. The remainder of the least number
-- by -1 has none either.
abbrev pub i128 : Integer ℤ
i128 = record {
  make_value = int;
  of_ℕ = pos;
  lt = ltb_ℤ;
  le = leb_ℤ;
  eq = eqb_ℤ;
  xor = λ a b. of_bits (xor_bits 128 (to_bits a) (to_bits b));
  add = λ a b. checked (a +ℤ b);
  sub = λ a b. checked (a -ℤ b);
  mul = λ a b. checked (a *ℤ b);
  neg = λ a. checked (pos 0 -ℤ a);
  div = λ a b. if eqb_ℤ b (pos 0) then none else checked (tdiv a b);
  rem =
      λ a b. if eqb_ℤ b (pos 0) then none else if in_i128 (tdiv a b) then some (tmod a b) else none;
  pow = λ a n. checked (pow_ℤ a n);
  to_ℕ = pos_part;
}
