-- ===== src/Prelude/Machine.antt =====
-- The unsigned machine integers of Rust: checked operations, as the standard library documents them.
-- A value of a w-bit type is a number below 2 ^ w.
use Prim.Native.Nat.{ℕ, ◌+◌, ◌-◌, ◌*◌, ◌^◌, ◌<◌}
use mathlib.Core.Option.{Option, none, some}
use clarity_repl.Prelude.Tests.{ltb, leb, if◌then◌else◌}

-- The values of a type with `m` values: 2 ^ 8, 2 ^ 32, 2 ^ 64 or 2 ^ 128 of them.
abbrev pub u32_mod : ℕ
u32_mod = 2 ^ 32

abbrev pub u64_mod : ℕ
u64_mod = 2 ^ 64

abbrev pub u128_mod : ℕ
u128_mod = 2 ^ 128

abbrev pub IsU64 : ℕ → Type 0
IsU64 n = n < u64_mod

abbrev pub IsU128 : ℕ → Type 0
IsU128 n = n < u128_mod

module _ (modulus : ℕ) where
  abbrev pub checked_add : ℕ → ℕ → Option ℕ
  checked_add a b = if ltb (a + b) modulus then some (a + b) else none

  abbrev pub checked_mul : ℕ → ℕ → Option ℕ
  checked_mul a b = if ltb (a * b) modulus then some (a * b) else none

abbrev pub checked_sub : ℕ → ℕ → Option ℕ
checked_sub a b = if leb b a then some (a - b) else none
