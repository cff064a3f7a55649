-- ===== src/Values/Utf8/Laws.antt =====
-- Cutting a text in UTF-8 into characters (src/clarity/types/mod.rs) undoes putting them together.
use clarity_repl.Prelude.{
  ℕ, ◌<◌, ◌≡◌, refl, sym, subst, ◌∙◌, ap, Bool, true, false, Option, some, List, [], ◌∷◌, ◌++◌, All,
  ltb, arith,
}
use Prim.Native.Char.{Char, char, code}
use Prim.Native.String.{String}
use text.Mathlib.TextEquality.{Char-path}
use mathlib.Core.List.{append_assoc}
use clarity_repl.Values.Utf8.{
  Range, following, prepend, chars_from, utf8_chars, encode, decode, as_bytes, char_of, low_char,
  low-IsScalar, from_utf8, AreIn, IsEncoding,
}

low_char-code :
    (c : Char) (b : Bool) (h : ltb (code c) 55296 ≡ b) (otherwise : Option Char)
    → b ≡ true
    → low_char (code c) b h otherwise ≡ some c
low_char-code c true h otherwise e =
    ap some (Char-path (char (code c) (low-IsScalar (code c) h)) c refl)
low_char-code c false h otherwise e = ground arith

pub char_of-code : (c : Char) → code c < 128 → char_of (code c) ≡ some c
unfolding char_of
char_of-code c h = low_char-code c (ltb (code c) 55296) refl _ (ground arith)

chars_from-rest :
    (begun : List ℕ) (r : Range) (rs : List Range) (cs bytes : List ℕ)
    → AreIn (r ∷ rs) cs
    → chars_from begun (r ∷ rs) (cs ++ bytes) ≡ prepend (begun ++ cs) (chars_from [] [] bytes)
unfolding chars_from
chars_from-rest begun r rs [] bytes h = absurd h
chars_from-rest begun r [] (c ∷ []) bytes (h, k) = ground (arith, h)
chars_from-rest begun r [] (c ∷ d ∷ cs) bytes (h, k) = absurd k
chars_from-rest begun r (s ∷ rs) (c ∷ cs) bytes (h, k) =
    ground (
      arith,
      h,
      chars_from-rest (begun ++ (c ∷ [])) s rs cs bytes k,
      append_assoc begun (c ∷ []) cs,
    )

utf8_chars-cons :
    (first : ℕ) (rest bytes : List ℕ) (ranges : List Range)
    → following first ≡ some ranges
    → AreIn ranges rest
    → utf8_chars ((first ∷ rest) ++ bytes) ≡ prepend (first ∷ rest) (utf8_chars bytes)
unfolding utf8_chars chars_from
utf8_chars-cons first [] bytes [] h k = ground (arith, h)
utf8_chars-cons first (b ∷ rest) bytes [] h k = absurd k
utf8_chars-cons first rest bytes (r ∷ rs) h k =
    ground (arith, h, chars_from-rest (first ∷ []) r rs rest bytes k)

-- The encoding of a character in front is the first character.
pub utf8_chars-append :
    (c bytes : List ℕ) → IsEncoding c → utf8_chars (c ++ bytes) ≡ prepend c (utf8_chars bytes)
utf8_chars-append c bytes e =
    subst (λ x. utf8_chars (x ++ bytes) ≡ prepend x (utf8_chars bytes)) (sym e.shape)
      (utf8_chars-cons e.first e.rest bytes e.ranges e.starts e.continues)

abbrev pub concat : List (List ℕ) → List ℕ
concat [] = []
concat (c ∷ cs) = c ++ concat cs

-- A text in UTF-8 is cut into the characters it was made of.
pub utf8_chars-concat : (cs : List (List ℕ)) → All IsEncoding cs → utf8_chars (concat cs) ≡ some cs
unfolding utf8_chars chars_from
utf8_chars-concat [] h = refl
utf8_chars-concat (c ∷ cs) (h, k) =
    utf8_chars-append c (concat cs) h ∙ ap (prepend c) (utf8_chars-concat cs k)

-- ASCII texts.
abbrev pub IsAscii : String → Type 0
IsAscii String.[] = Unit {0}
IsAscii (String.◌∷◌ c s) = (code c < 128) × IsAscii s

encode_ascii : (n : ℕ) → n < 128 → (encode n ≡ n ∷ []) × (following n ≡ some [])
unfolding encode following
encode_ascii n h = ground arith

-- The bytes of an ASCII text are read back as the text.
pub from_utf8-as_bytes : (s : String) → IsAscii s → from_utf8 (as_bytes s) ≡ some s
unfolding from_utf8 as_bytes decode utf8_chars chars_from
from_utf8-as_bytes String.[] h = refl
from_utf8-as_bytes (String.◌∷◌ c s) (h, k) =
    let (one_byte, alone) = encode_ascii (code c) h in
    ground (
      arith,
      one_byte,
      char_of-code c h,
      utf8_chars-cons (code c) [] (as_bytes s) [] alone tt,
      from_utf8-as_bytes s k,
    )
