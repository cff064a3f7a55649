-- ===== src/Values/Sequence/Laws.antt =====
-- Finding, taking and joining the elements of sequences (src/clarity/types/mod.rs).
use clarity_repl.Prelude.{
  ℕ, zero, suc, ◌+◌, ◌%◌, ◌-◌, ◌≤◌, ◌<◌, ◌≡◌, refl, Bool, true, Bool-cases, inl, inr, Option, some,
  List, [], ◌∷◌, ◌++◌, length, length-append, get_elem?, ltb, if◌then◌else◌, arith,
}
use clarity_repl.Prelude.Result.{Result, ok, >>=-eq-ok}
use clarity_repl.Prelude.Map.{Eq}
use clarity_repl.Prelude.Keys.{nat_eq, list_eq, list_beq_iff}
use clarity_repl.Errors.{Error}
use clarity_repl.Types.{TypeSignature}
use clarity_repl.Types.Build.{buffer_length}
use clarity_repl.Values.{Value, buffer, string_ascii, string_utf8}
use clarity_repl.Values.Equality.{value_beq}
use clarity_repl.Prelude.Machine.{u32_mod}
use clarity_repl.Types.Build.{list_of}
use clarity_repl.Types.Admits.{factor_out_no_type}
use clarity_repl.Values.Make.{checked, all, is_string_byte, string_ascii_from_bytes}
use clarity_repl.Values.Sequence.{
  SequenceData, buffer_data, ascii_data, utf8_data, list_data, len, element, element_at, position,
  position_of, contains, append, with_entries,
}

module _ {ℓ} {A : Type ℓ} where
  get_elem?-lt : (xs : List A) (j : ℕ) {x : A} → get_elem? xs j ≡ some x → j < length xs
  get_elem?-lt [] j h = ground (arith, h)
  get_elem?-lt (y ∷ xs) zero h = omega arith
  get_elem?-lt (y ∷ xs) (suc j) h = omega (arith, get_elem?-lt xs j h)

  lt-get_elem? : (xs : List A) (j : ℕ) → j < length xs → (x : A) × (get_elem? xs j ≡ some x)
  lt-get_elem? [] j h = ground arith
  lt-get_elem? (y ∷ xs) zero h = (y, refl)
  lt-get_elem? (y ∷ xs) (suc j) h = lt-get_elem? xs j (omega arith)

  get_elem?-append :
      (xs ys : List A) (j : ℕ)
      → get_elem? (xs ++ ys) j
        ≡ (if ltb j (length xs) then get_elem? xs j else get_elem? ys (j - length xs))
  get_elem?-append [] ys j = ground arith
  get_elem?-append (x ∷ xs) ys zero = ground arith
  get_elem?-append (x ∷ xs) ys (suc j) = ground (arith, get_elem?-append xs ys j)

  -- A position that is found is that of an element that passes the test.
  position-some :
      (test : A → Bool) (i : ℕ) (xs : List A) {k : ℕ}
      → position test i xs ≡ some k
      → (m : ℕ) × (k ≡ i + m) × ((x : A) × (get_elem? xs m ≡ some x) × (test x ≡ true))
  position-some test i [] h = ground (arith, h)
  position-some test i (x ∷ xs) {k} h = elim (Bool-cases (test x)) [
    | inl t ↦ (0, ground (arith, h, t), (x, refl, t))
    | inr f ↦
        let later : position test (suc i) xs ≡ some k = ground (arith, h, f) in
        let (m, e, found) = position-some test (suc i) xs later in (suc m, omega arith, found)
  ]

  -- An element that passes the test has a position found at it or before it.
  position-first :
      (test : A → Bool) (i j : ℕ) (xs : List A) {x : A}
      → get_elem? xs j ≡ some x
      → test x ≡ true
      → (k : ℕ) × (position test i xs ≡ some k) × (k ≤ i + j)
  position-first test i j [] h t = ground (arith, h)
  position-first test i zero (y ∷ xs) h t = (i, ground (arith, h, t), omega arith)
  position-first test i (suc j) (y ∷ xs) h t = elim (Bool-cases (test y)) [
    | inl u ↦ (i, ground (arith, u), omega arith)
    | inr f ↦
        let (k, e, le) = position-first test (suc i) j xs h t in
        (k, ground (arith, f, e), omega arith)
  ]

ok_some : {A : Type 0} {x y : Option A} → ◌≡◌ {A = Result Error (Option A)} (ok x) (ok y) → x ≡ y
ok_some h = ground (arith, h)

-- A sequence that the checked constructors make: a string has the bytes that are allowed.
abbrev pub IsSequence : SequenceData → Type 0
IsSequence (ascii_data bytes) = all is_string_byte bytes ≡ true
IsSequence _ = Unit {0}

-- The element at an index, as the value that `to_value` makes of it.
all-get_elem? :
    (test : ℕ → Bool) (bytes : List ℕ) (i : ℕ) {b : ℕ}
    → all test bytes ≡ true
    → get_elem? bytes i ≡ some b
    → test b ≡ true
all-get_elem? test [] i a h = ground (arith, h)
all-get_elem? test (x ∷ bytes) zero a h = ground (arith, a, h)
all-get_elem? test (x ∷ bytes) (suc i) a h = all-get_elem? test bytes i (ground (arith, a)) h

-- A byte of a string, alone.
one_byte :
    (b : ℕ)
    → is_string_byte b ≡ true
    → string_ascii_from_bytes (b ∷ []) ≡ ok (string_ascii (b ∷ []))
unfolding string_ascii_from_bytes buffer_length
one_byte b h = ground (arith, h)

element_at-buffer :
    (bytes : List ℕ) (i : ℕ) {b : ℕ}
    → get_elem? bytes i ≡ some b
    → element_at (buffer_data bytes) i ≡ ok (some (buffer (b ∷ [])))
unfolding element_at element len
element_at-buffer bytes i h = ground (arith, h, get_elem?-lt bytes i h)

element_at-ascii :
    (bytes : List ℕ) (i : ℕ) {b : ℕ}
    → all is_string_byte bytes ≡ true
    → get_elem? bytes i ≡ some b
    → element_at (ascii_data bytes) i ≡ ok (some (string_ascii (b ∷ [])))
unfolding element_at element len
element_at-ascii bytes i {b} a h =
    ground (arith, h, get_elem?-lt bytes i h, one_byte b (all-get_elem? is_string_byte bytes i a h))

element_at-utf8 :
    (chars : List (List ℕ)) (i : ℕ) {c : List ℕ}
    → get_elem? chars i ≡ some c
    → element_at (utf8_data chars) i ≡ ok (some (string_utf8 (c ∷ [])))
unfolding element_at element len
element_at-utf8 chars i h = ground (arith, h, get_elem?-lt chars i h)

element_at-list :
    (items : List Value) (t : TypeSignature) (n i : ℕ) {v : Value}
    → get_elem? items i ≡ some v
    → element_at (list_data items t n) i ≡ ok (some v)
unfolding element_at element len
element_at-list items t n i h = ground (arith, h, get_elem?-lt items i h)

position_of-some :
    {A : Type 0} ⦃e : Eq A⦄ (to_find xs : List A) {k : ℕ}
    → position_of to_find xs ≡ some k
    → (x : A) × (to_find ≡ x ∷ []) × (get_elem? xs k ≡ some x)
position_of-some [] xs h = ground (arith, h)
position_of-some (x ∷ y ∷ to_find) xs h = ground (arith, h)
position_of-some ⦃e⦄ (x ∷ []) xs {k} h =
    let (m, same, (y, found, equal)) = position-some (λ z. e.beq z x) 0 xs h in
    (x, refl, ground (arith, same, found, (e.beq_iff y x).0 equal))

-- On a sequence whose strings have allowed bytes only, where contains answers an index, the
-- element at that index is there and equals what was looked for.
pub contains-element_at :
    (s : SequenceData) (to_find : Value) (index : ℕ)
    → IsSequence s
    → contains s to_find ≡ ok (some index)
    → (v : Value) × (element_at s index ≡ ok (some v)) × (value_beq v to_find ≡ true)
unfolding contains value_beq
contains-element_at (buffer_data bytes) (buffer to_find) index a h =
    let (b, shape, found) = position_of-some to_find bytes (ok_some h) in
    (
      buffer (b ∷ []),
      element_at-buffer bytes index found,
      ground (arith, shape, list_beq_iff ⦃e = nat_eq⦄ (b ∷ []) to_find),
    )
contains-element_at (list_data items t n) to_find index a h =
    let (m, same, (v, found, equal)) =
      position-some (λ entry. value_beq entry to_find) 0 items (ok_some h) in
    let found_there : get_elem? items index ≡ some v = ground (arith, same, found) in
    (v, element_at-list items t n index found_there, equal)
contains-element_at (ascii_data bytes) (string_ascii to_find) index a h =
    let (b, shape, found) = position_of-some to_find bytes (ok_some h) in
    (
      string_ascii (b ∷ []),
      element_at-ascii bytes index a found,
      ground (arith, shape, list_beq_iff ⦃e = nat_eq⦄ (b ∷ []) to_find),
    )
contains-element_at (utf8_data chars) (string_utf8 to_find) index a h =
    let (c, shape, found) = position_of-some to_find chars (ok_some h) in
    (
      string_utf8 (c ∷ []),
      element_at-utf8 chars index found,
      ground (arith, shape, list_beq_iff ⦃e = list_eq⦄ (c ∷ []) to_find),
    )
contains-element_at (buffer_data bytes) v index a h = ground (arith, h)
contains-element_at (ascii_data bytes) v index a h = ground (arith, h)
contains-element_at (utf8_data chars) v index a h = ground (arith, h)

with_entries-some :
    (items : List Value) (t : TypeSignature) {joined : SequenceData}
    → with_entries items t ≡ ok joined
    → (u : TypeSignature) × (n : ℕ) × (joined ≡ list_data items u n)
with_entries-some items (TypeSignature.list_type t n) h = (t, n, ground (arith, h))
with_entries-some items t h = ground (arith, h)

append-list :
    (items others : List Value) (t u : TypeSignature) (n m : ℕ) {joined : SequenceData}
    → append (list_data items t n) (list_data others u m) ≡ ok joined
    → (v : TypeSignature) × (k : ℕ) × (joined ≡ list_data (items ++ others) v k)
unfolding append
append-list items others t u n m h =
    let (entry_type, made, rest) = >>=-eq-ok (checked (factor_out_no_type t u)) _ h in
    let (signature, listed, last) =
      >>=-eq-ok (checked (list_of entry_type ((n + m) % u32_mod))) _ rest in
    with_entries-some (items ++ others) signature last

buffer-joined :
    (xs ys : List ℕ) (i : ℕ)
    → element_at (buffer_data (xs ++ ys)) i ≡ (
        if ltb i (length xs)
        then element_at (buffer_data xs) i
        else element_at (buffer_data ys) (i - length xs))
unfolding element_at element len
buffer-joined xs ys i = ground (arith, length-append xs ys, get_elem?-append xs ys i)

ascii-joined :
    (xs ys : List ℕ) (i : ℕ)
    → element_at (ascii_data (xs ++ ys)) i ≡ (
        if ltb i (length xs)
        then element_at (ascii_data xs) i
        else element_at (ascii_data ys) (i - length xs))
unfolding element_at element len
ascii-joined xs ys i = ground (arith, length-append xs ys, get_elem?-append xs ys i)

utf8-joined :
    (xs ys : List (List ℕ)) (i : ℕ)
    → element_at (utf8_data (xs ++ ys)) i ≡ (
        if ltb i (length xs)
        then element_at (utf8_data xs) i
        else element_at (utf8_data ys) (i - length xs))
unfolding element_at element len
utf8-joined xs ys i = ground (arith, length-append xs ys, get_elem?-append xs ys i)

list-joined :
    (xs ys : List Value) (t u v : TypeSignature) (n m k i : ℕ)
    → element_at (list_data (xs ++ ys) t n) i ≡ (
        if ltb i (length xs)
        then element_at (list_data xs u m) i
        else element_at (list_data ys v k) (i - length xs))
unfolding element_at element len
list-joined xs ys t u v n m k i = ground (arith, length-append xs ys, get_elem?-append xs ys i)

-- A successful append of two sequences adds their lengths, and the elements of the first come
-- before those of the second.
pub append-element_at :
    (s other joined : SequenceData) (index : ℕ)
    → append s other ≡ ok joined
    → (len joined ≡ len s + len other)
      × (element_at joined index
          ≡ (if ltb index (len s) then element_at s index else element_at other (index - len s)))
unfolding append len
append-element_at (buffer_data bytes) (buffer_data others) joined index h =
    ground (arith, h, length-append bytes others, buffer-joined bytes others index)
append-element_at (ascii_data bytes) (ascii_data others) joined index h =
    ground (arith, h, length-append bytes others, ascii-joined bytes others index)
append-element_at (utf8_data chars) (utf8_data others) joined index h =
    ground (arith, h, length-append chars others, utf8-joined chars others index)
append-element_at (list_data items t n) (list_data others u m) joined index h =
    let (v, k, shape) = append-list items others t u n m h in
    ground (arith, shape, length-append items others, list-joined items others v t u k n m index)
append-element_at (buffer_data bytes) other joined index h = ground (arith, h)
append-element_at (ascii_data bytes) other joined index h = ground (arith, h)
append-element_at (utf8_data bytes) other joined index h = ground (arith, h)
append-element_at (list_data items t n) other joined index h = ground (arith, h)
