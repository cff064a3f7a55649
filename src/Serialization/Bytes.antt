-- ===== src/Serialization/Bytes.antt =====
-- `to_be_bytes` and `from_be_bytes` of the integers that src/clarity/types/serialization.rs writes.
use clarity_repl.Prelude.{
  ℕ, zero, suc, ◌+◌, ◌-◌, ◌*◌, ◌/◌, ◌%◌, ◌^◌, ◌<◌, ◌≡◌, refl, List, [], ◌∷◌, ◌++◌, length,
  length-append, ltb, if◌then◌else◌, arith,
}
use clarity_repl.Prelude.Int.{ℤ, pos, negsuc}
use clarity_repl.Prelude.Machine.{u128_mod}

unfoldable pub to_be_bytes : ℕ → ℕ → List ℕ
to_be_bytes zero n = []
to_be_bytes (suc width) n = to_be_bytes width (n / 256) ++ (n % 256 ∷ [])

unfoldable pub from_be_bytes : ℕ → List ℕ → ℕ
from_be_bytes acc [] = acc
from_be_bytes acc (b ∷ bytes) = from_be_bytes (acc * 256 + b) bytes

-- an i128 as the u128 with the same bits
abbrev pub bits_of_int : ℤ → ℕ
bits_of_int (pos n) = n
bits_of_int (negsuc n) = u128_mod - 1 - n

abbrev pub int_of_bits : ℕ → ℤ
int_of_bits n = if ltb n (2 ^ 127) then pos n else negsuc (u128_mod - 1 - n)

from_be_bytes-append :
    (acc : ℕ) (xs : List ℕ) (b : ℕ)
    → from_be_bytes acc (xs ++ (b ∷ [])) ≡ from_be_bytes acc xs * 256 + b
unfolding from_be_bytes
from_be_bytes-append acc [] b = refl
from_be_bytes-append acc (x ∷ xs) b = from_be_bytes-append (acc * 256 + x) xs b

pub from_be_bytes-to_be_bytes :
    (width n : ℕ) → n < 256 ^ width → from_be_bytes 0 (to_be_bytes width n) ≡ n
unfolding to_be_bytes from_be_bytes
from_be_bytes-to_be_bytes zero n h = omega arith
from_be_bytes-to_be_bytes (suc width) n h =
    let small : n / 256 < 256 ^ width = omega arith in
    omega (
      arith,
      from_be_bytes-append 0 (to_be_bytes width (n / 256)) (n % 256),
      from_be_bytes-to_be_bytes width (n / 256) small,
    )

pub length-to_be_bytes : (width n : ℕ) → length (to_be_bytes width n) ≡ width
unfolding to_be_bytes
length-to_be_bytes zero n = refl
length-to_be_bytes (suc width) n = omega (
  arith,
  length-append (to_be_bytes width (n / 256)) (n % 256 ∷ []),
  length-to_be_bytes width (n / 256),
)
