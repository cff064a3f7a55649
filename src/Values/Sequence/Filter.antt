-- ===== src/Values/Sequence/Filter.antt =====
-- `SequenceData::filter` of src/clarity/types/mod.rs, whose loop removes elements in place, against
-- the list of the elements that are kept.
use clarity_repl.Prelude.{
  ℕ, zero, suc, ◌+◌, ◌≡◌, refl, ap, ◌∙◌, Bool, true, false, Option, none, some, ◌<◌, List, [], ◌∷◌,
  ◌++◌, length, length-append, get_elem?, ◌==◌, if◌then◌else◌, arith,
}
use mathlib.Core.List.{append_assoc, append-nil}
use clarity_repl.Prelude.Result.{Result, ok, err, panic, expect}
use clarity_repl.Prelude.Method.{Method, pure, crash, lift, ◌>>=◌}
use clarity_repl.Errors.{Error}
use clarity_repl.Values.{Value}
use clarity_repl.Values.Make.{buff_from_byte, string_ascii_from_bytes, string_utf8_from_bytes}
use clarity_repl.Values.Sequence.{SequenceData, buffer_data, ascii_data, utf8_data, list_data}

-- `data.remove(i)`
abbrev pub remove_at {ℓ} : {A : Type ℓ} → ℕ → List A → List A
remove_at i [] = []
remove_at zero (x ∷ xs) = xs
remove_at (suc i) (x ∷ xs) = x ∷ remove_at i xs

-- A result of the loop, with elements that it has passed in front.
abbrev pub after :
    {E S A : Type 0} → List A → Result E (List A) × S → Result E (Option (List A)) × S
after front (ok xs, s) = (ok (some (front ++ xs)), s)
after front (err e, s) = (err e, s)
after front (panic, s) = (panic, s)

abbrev pub prepend : {E S A : Type 0} → A → Result E (List A) × S → Result E (List A) × S
prepend x (ok xs, s) = (ok (x ∷ xs), s)
prepend x (err e, s) = (err e, s)
prepend x (panic, s) = (panic, s)

module _ {A : Type 0} where
  get_elem?-middle :
      (front : List A) (x : A) (xs : List A) → get_elem? (front ++ (x ∷ xs)) (length front) ≡ some x
  get_elem?-middle [] x xs = refl
  get_elem?-middle (y ∷ front) x xs = get_elem?-middle front x xs

  remove_at-middle :
      (front : List A) (x : A) (xs : List A)
      → remove_at (length front) (front ++ (x ∷ xs)) ≡ front ++ xs
  remove_at-middle [] x xs = refl
  remove_at-middle (y ∷ front) x xs = ap (λ ys. y ∷ ys) (remove_at-middle front x xs)

  not_at_end :
      (front : List A) (x : A) (xs : List A) → (length front == length (front ++ (x ∷ xs))) ≡ false
  not_at_end front x xs = ground (arith, length-append front (x ∷ xs))

module _ {S A : Type 0} (to_value : A → Result Error Value)
    (filter : Value → Method S Error Bool) where
  -- `while i != data.len()` on fuel: `none` means that the rounds ran out
  unfoldable pub drain_filter : ℕ → ℕ → List A → Method S Error (Option (List A))
  drain_filter zero i data_items = pure none
  drain_filter (suc rounds) i data_items =
      if i == length data_items then pure (some data_items) else elim (get_elem? data_items i) [
        | none ↦ crash
        | some x ↦ do
          atom_value ← lift (to_value x)
          res ← filter atom_value
          elim res [
            | true ↦ drain_filter rounds (i + 1) data_items
            | false ↦ drain_filter rounds i (remove_at i data_items)
          ]
      ]

  -- The elements that the filter answers true for, asked in their order.
  unfoldable pub kept : List A → Method S Error (List A)
  kept [] = pure []
  kept (x ∷ xs) = do
    atom_value ← lift (to_value x)
    res ← filter atom_value
    rest ← kept xs
    pure (if res then x ∷ rest else rest)

  after-nil :
      (m : Method S Error (List A)) (s : S) → after [] (m s) ≡ (do items ← m; pure (some items)) s
  after-nil m s = ground arith

  after-prepend :
      (front : List A) (x : A) (r : Result Error (List A) × S)
      → after (front ++ (x ∷ [])) r ≡ after front (prepend x r)
  after-prepend front x (ok xs, s) = ap (λ ys. (ok (some ys), s)) (append_assoc front (x ∷ []) xs)
  after-prepend front x (err e, s) = refl
  after-prepend front x (panic, s) = refl

  abbrev Drains : ℕ → List A → List A → Type 0
  Drains rounds front xs =
      (s : S) → drain_filter rounds (length front) (front ++ xs) s ≡ after front (kept xs s)

  drain_filter-step :
      (rounds : ℕ) (front : List A) (x : A) (xs : List A) (s : S)
      → Drains rounds front xs
      → Drains rounds (front ++ (x ∷ [])) xs
      → (v : Result Error Value) → to_value x ≡ v
      → drain_filter (suc rounds) (length front) (front ++ (x ∷ xs)) s
        ≡ after front (kept (x ∷ xs) s)
  unfolding drain_filter kept
  drain_filter-step rounds front x xs s removed left (err e) h =
      ground (arith, h, get_elem?-middle front x xs, not_at_end front x xs)
  drain_filter-step rounds front x xs s removed left panic h =
      ground (arith, h, get_elem?-middle front x xs, not_at_end front x xs)
  drain_filter-step rounds front x xs s removed left (ok v) h =
      let next = (filter v s).1 in
      ground (
        arith,
        h,
        get_elem?-middle front x xs,
        not_at_end front x xs,
        remove_at-middle front x xs,
        removed next,
        left next,
        append_assoc front (x ∷ []) xs,
        length-append front (x ∷ []),
        after-prepend front x (kept xs next),
      )

  drain_filter-end : (rounds : ℕ) (front : List A) → 0 < rounds → Drains rounds front []
  unfolding drain_filter kept
  drain_filter-end zero front h s = elim h [ ]
  drain_filter-end (suc rounds) front h s = ground (arith, append-nil front)

  drain_filter-after :
      (rounds : ℕ) (front xs : List A) → length xs < rounds → Drains rounds front xs
  drain_filter-after rounds front [] h s = drain_filter-end rounds front h s
  drain_filter-after zero front (x ∷ xs) h s = elim h [ ]
  drain_filter-after (suc rounds) front (x ∷ xs) h s =
      drain_filter-step rounds front x xs s (drain_filter-after rounds front xs (omega (arith, h)))
        (drain_filter-after rounds (front ++ (x ∷ [])) xs (omega (arith, h))) (to_value x) refl

  -- Given more rounds than there are elements, the loop that removes elements in place ends
  -- before its rounds run out, and answers what keeping the elements that pass the filter
  -- answers: the same elements, the same first error or panic, and the same state of the filter.
  pub drain_filter-kept :
      (data_items : List A) (rounds : ℕ) (s : S)
      → length data_items < rounds
      → drain_filter rounds 0 data_items s ≡ (do items ← kept data_items; pure (some items)) s
  drain_filter-kept data_items rounds s h =
      drain_filter-after rounds [] data_items h s ∙ after-nil (kept data_items) s

  -- The loop with more rounds than elements, which is enough.
  abbrev pub drained : List A → Method S Error (List A)
  drained data_items = do
    left ← drain_filter (suc (length data_items)) 0 data_items
    elim left [ none ↦ crash | some items ↦ pure items ]

-- The filter of a sequence, by the loop on its items.
unfoldable pub filter_sequence :
    {S : Type 0} → (Value → Method S Error Bool) → SequenceData → Method S Error SequenceData
unfolding drain_filter string_ascii_from_bytes string_utf8_from_bytes
filter_sequence filter (buffer_data bytes) = do
  left ← drained (λ b. ok (buff_from_byte b)) filter bytes
  pure (buffer_data left)
filter_sequence filter (list_data items t n) = do
  left ← drained (λ v. ok v) filter items
  pure (list_data left t n)
filter_sequence filter (ascii_data bytes) = do
  left ← drained (λ b. expect (string_ascii_from_bytes (b ∷ []))) filter bytes
  pure (ascii_data left)
filter_sequence filter (utf8_data chars) = do
  left ← drained (λ c. expect (string_utf8_from_bytes c)) filter chars
  pure (utf8_data left)
