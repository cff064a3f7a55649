-- ===== src/Values/Utf8.antt =====
-- `str::from_utf8`, `chars` and `encode_utf8` of the standard library, as src/clarity/types/mod.rs uses
-- them: a text in UTF-8 is cut into the encodings of its characters.
pub mod Laws
use clarity_repl.Prelude.{
  ℕ, ◌+◌, ◌*◌, ◌/◌, ◌%◌, ◌≡◌, refl, ◌∙◌, ap, ◌<◌, Bool, true, false, ◌&&◌, Option, none, some, List,
  [], ◌∷◌, ◌++◌, ltb, leb, if◌then◌else◌, arith,
}
use Prim.Native.Char.{Char, char, code, IsScalar}
use Prim.Native.Nat.{Ordering, compare}
use Prim.Native.String.{String}
use text.Mathlib.TextEquality.{Char-path}

-- The least and the greatest value of a byte.
abbrev pub Range : Type 0
Range = ℕ × ℕ

abbrev pub is_in : Range → ℕ → Bool
is_in (low, high) b = leb low b && leb b high

abbrev pub tail_byte : Range
tail_byte = (128, 191)

-- What has to follow a character's first byte.
unfoldable pub following : ℕ → Option (List Range)
following b =
    if ltb b 128
    then some []
    else if is_in (194, 223) b
    then some (tail_byte ∷ [])
    else if is_in (224, 224) b
    then some ((160, 191) ∷ tail_byte ∷ [])
    else if is_in (237, 237) b
    then some ((128, 159) ∷ tail_byte ∷ [])
    else if is_in (225, 239) b
    then some (tail_byte ∷ tail_byte ∷ [])
    else if is_in (240, 240) b
    then some ((144, 191) ∷ tail_byte ∷ tail_byte ∷ [])
    else if is_in (241, 243) b
    then some (tail_byte ∷ tail_byte ∷ tail_byte ∷ [])
    else if is_in (244, 244) b
    then some ((128, 143) ∷ tail_byte ∷ tail_byte ∷ [])
    else none

abbrev pub prepend {ℓ} : {A : Type ℓ} → A → Option (List A) → Option (List A)
prepend c none = none
prepend c (some cs) = some (c ∷ cs)

-- The characters of the bytes, after the bytes `begun` of one that lacks `missing`.
unfoldable pub chars_from : List ℕ → List Range → List ℕ → Option (List (List ℕ))
unfolding following
chars_from begun [] [] = some []
chars_from begun (r ∷ missing) [] = none
chars_from begun [] (b ∷ bytes) = elim (following b) [
  | none ↦ none
  | some [] ↦ prepend (b ∷ []) (chars_from [] [] bytes)
  | some (r ∷ missing) ↦ chars_from (b ∷ []) (r ∷ missing) bytes
]
chars_from begun (r ∷ missing) (b ∷ bytes) = elim (is_in r b) [
  | true ↦ elim missing [
    | [] ↦ prepend (begun ++ (b ∷ [])) (chars_from [] [] bytes)
    | (s ∷ more) ↦ chars_from (begun ++ (b ∷ [])) (s ∷ more) bytes
  ]
  | false ↦ none
]

-- `none` where `str::from_utf8` fails
unfoldable pub utf8_chars : List ℕ → Option (List (List ℕ))
unfolding chars_from
utf8_chars bytes = chars_from [] [] bytes

-- `encode_utf8` of a character's number, and back
unfoldable pub encode : ℕ → List ℕ
encode n =
    if ltb n 128
    then n ∷ []
    else if ltb n 2048
    then (192 + n / 64) ∷ (128 + n % 64) ∷ []
    else if ltb n 65536
    then (224 + n / 4096) ∷ (128 + n / 64 % 64) ∷ (128 + n % 64) ∷ []
    else (240 + n / 262144) ∷ (128 + n / 4096 % 64) ∷ (128 + n / 64 % 64) ∷ (128 + n % 64) ∷ []

unfoldable pub decode : List ℕ → ℕ
decode (a ∷ []) = a
decode (a ∷ b ∷ []) = a % 32 * 64 + b % 64
decode (a ∷ b ∷ c ∷ []) = a % 16 * 4096 + b % 64 * 64 + c % 64
decode (a ∷ b ∷ c ∷ d ∷ []) = a % 8 * 262144 + b % 64 * 4096 + c % 64 * 64 + d % 64
decode _ = 0

-- `as_bytes`
unfoldable pub as_bytes : String → List ℕ
unfolding encode
as_bytes String.[] = []
as_bytes (String.◌∷◌ c s) = encode (code c) ++ as_bytes s

pub low-IsScalar : (n : ℕ) → ltb n 55296 ≡ true → IsScalar n
low-IsScalar n h = let c : compare n 55296 ≡ Ordering.lt = ground arith in rw c tt

pub high-IsScalar : (n : ℕ) → ltb 57343 n ≡ true → ltb n 1114112 ≡ true → IsScalar n
high-IsScalar n h k =
    let c : compare n 55296 ≡ Ordering.gt = ground arith in
    let d : compare 57343 n ≡ Ordering.lt = ground arith in
    let e : compare n 1114112 ≡ Ordering.lt = ground arith in rw (c, d, e) tt

abbrev pub low_char : (n : ℕ) (b : Bool) → ltb n 55296 ≡ b → Option Char → Option Char
low_char n true h otherwise = some (char n (low-IsScalar n h))
low_char n false h otherwise = otherwise

abbrev pub high_char : (n : ℕ) (b c : Bool) → ltb 57343 n ≡ b → ltb n 1114112 ≡ c → Option Char
high_char n true true h k = some (char n (high-IsScalar n h k))
high_char n true false h k = none
high_char n false c h k = none

-- the character with a number, if it is a scalar value
unfoldable pub char_of : ℕ → Option Char
char_of n = low_char n (ltb n 55296) refl (high_char n (ltb 57343 n) (ltb n 1114112) refl refl)

abbrev pub text_of : List (List ℕ) → Option String
text_of [] = some String.[]
text_of (c ∷ cs) = elim (text_of cs) [
  | none ↦ none
  | some s ↦ elim (char_of (decode c)) [ none ↦ none | some x ↦ some (String.◌∷◌ x s) ]
]

-- `String::from_utf8`
unfoldable pub from_utf8 : List ℕ → Option String
unfolding utf8_chars char_of decode
from_utf8 bytes = elim (utf8_chars bytes) [ none ↦ none | some cs ↦ text_of cs ]

-- A character: a first byte, and after it what has to follow.
abbrev pub AreIn : List Range → List ℕ → Type 0
AreIn [] [] = Unit {0}
AreIn [] (b ∷ bytes) = ⊥
AreIn (r ∷ rs) [] = ⊥
AreIn (r ∷ rs) (b ∷ bytes) = (is_in r b ≡ true) × AreIn rs bytes

pub record IsEncoding (c : List ℕ) : Type 0 where
  pub first : ℕ
  pub rest : List ℕ
  pub ranges : List Range
  pub shape : c ≡ first ∷ rest
  pub starts : following first ≡ some ranges
  pub continues : AreIn ranges rest
