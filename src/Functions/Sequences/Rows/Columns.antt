-- ===== src/Functions/Sequences/Rows/Columns.antt =====
-- The rows of arguments of src/clarity/functions/sequences.rs, after some of the sequences.
use clarity_repl.Prelude.{
  ℕ, zero, suc, ◌-◌, ◌≤◌, ◌<◌, ◌≡◌, ◌⊎◌, refl, sym, subst, ap, ◌∙◌, min, Bool, true, Bool-cases,
  inl, inr, Option, none, some, List, [], ◌∷◌, ◌++◌, length, length-append, get_elem?, ltb, ltb→lt,
  leb, ◌==◌, if◌then◌else◌, arith,
}
use mathlib.Core.List.{append_assoc, append-nil}
use clarity_repl.Functions.Sequences.Rows.{usize_max, push_value, push_at, add_column, add_columns}

module _ {A : Type 0} where
  -- The elements of all sequences at an index, if every sequence has one there.
  abbrev pub add_element : Option A → Option (List A) → Option (List A)
  add_element (some v) (some row) = some (v ∷ row)
  add_element _ _ = none

  abbrev pub row_at : ℕ → List (List A) → Option (List A)
  row_at j [] = some []
  row_at j (s ∷ sequences) = add_element (get_elem? s j) (row_at j sequences)

  abbrev pub or_empty : Option (List A) → List A
  or_empty none = []
  or_empty (some row) = row

  get_elem?-push_value :
      (i j : ℕ) (v : A) (rows : List (List A))
      → i < length rows
      → get_elem? (push_value i v rows) j
        ≡ (if i == j then some (or_empty (get_elem? rows i) ++ (v ∷ [])) else get_elem? rows j)
  get_elem?-push_value i j v [] h = ground arith
  get_elem?-push_value zero zero v (row ∷ rows) h = refl
  get_elem?-push_value zero (suc j) v (row ∷ rows) h = ground arith
  get_elem?-push_value (suc i) zero v (row ∷ rows) h = ground arith
  get_elem?-push_value (suc i) (suc j) v (row ∷ rows) h =
      ground (arith, get_elem?-push_value i j v rows (omega arith))

  length-push_value :
      (i : ℕ) (v : A) (rows : List (List A)) → length (push_value i v rows) ≡ length rows
  length-push_value i v [] = refl
  length-push_value zero v (row ∷ rows) = refl
  length-push_value (suc i) v (row ∷ rows) = omega (arith, length-push_value i v rows)

  get_elem?-end :
      (j : ℕ) (row : List A) (rows : List (List A))
      → get_elem? (rows ++ (row ∷ [])) j ≡ (if length rows == j then some row else get_elem? rows j)
  get_elem?-end zero row [] = refl
  get_elem?-end (suc j) row [] = ground arith
  get_elem?-end zero row (r ∷ rows) = ground arith
  get_elem?-end (suc j) row (r ∷ rows) = ground (arith, get_elem?-end j row rows)

  get_elem?-past : (j : ℕ) (rows : List (List A)) → length rows ≤ j → get_elem? rows j ≡ none
  get_elem?-past j [] h = refl
  get_elem?-past zero (r ∷ rows) h = ground arith
  get_elem?-past (suc j) (r ∷ rows) h = get_elem?-past j rows (omega arith)

  get_elem?-push_at :
      (i j : ℕ) (v : A) (rows : List (List A))
      → i ≤ length rows
      → (get_elem? (push_at i v rows) j
          ≡ (if i == j then some (or_empty (get_elem? rows i) ++ (v ∷ [])) else get_elem? rows j))
        × (suc i ≤ length (push_at i v rows))
  unfolding push_at
  get_elem?-push_at i j v rows h = ground (
    arith,
    get_elem?-push_value i j v rows,
    length-push_value i v rows,
    get_elem?-end j (v ∷ []) rows,
    get_elem?-past i rows,
    length-append rows ((v ∷ []) ∷ []),
  )

  get_elem?-shift :
      (v : A) (vs : List A) (i j : ℕ)
      → get_elem? (v ∷ vs) (j - i) ≡ (if ltb i j then get_elem? vs (j - suc i) else some v)
  get_elem?-shift v vs i j = elim (Bool-cases (ltb i j)) [
    | inl h ↦
        let e : j - i ≡ suc (j - suc i) = ground arith in
        ap (get_elem? (v ∷ vs)) e ∙ ground (arith, h)
    | inr h ↦ let e : j - i ≡ 0 = ground arith in ap (get_elem? (v ∷ vs)) e ∙ ground (arith, h)
  ]

  -- A row takes the value at its index, up to the bound.
  abbrev extended : Bool → Option A → Option (List A) → Option (List A)
  extended true (some v) row = some (or_empty row ++ (v ∷ []))
  extended _ _ row = row

  get_elem?-add_column :
      (bound i j : ℕ) (vs : List A) (rows : List (List A))
      → i ≤ length rows
      → get_elem? (add_column bound i vs rows) j ≡ (
          if ltb j i
          then get_elem? rows j
          else extended (leb j bound) (get_elem? vs (j - i)) (get_elem? rows j))
  unfolding add_column
  get_elem?-add_column bound i j [] rows h = ground arith
  get_elem?-add_column bound i j (v ∷ vs) rows h =
      let (pushed, longer) = get_elem?-push_at i j v rows h in
      ground (
        arith,
        pushed,
        get_elem?-shift v vs i j,
        get_elem?-add_column bound (suc i) j vs (push_at i v rows) longer,
      )

  -- After the sequences `before`: the rows below the length of the shortest are full, and the others
  -- lack an element.
  pub record AreRows (before : List (List A)) (shortest : ℕ) (rows : List (List A)) : Type 0 where
    pub full :
        (j : ℕ)
        → j < shortest
        → (row : List A) × (get_elem? rows j ≡ some row)
          × (row_at j before ≡ some row)
          × (length row ≡ length before)
    pub partial : (j : ℕ) → shortest ≤ j → length (or_empty (get_elem? rows j)) < length before
    pub absent : (j : ℕ) → shortest ≤ j → row_at j before ≡ none

  abbrev push_element : Option (List A) → Option A → Option (List A)
  push_element (some row) (some v) = some (row ++ (v ∷ []))
  push_element _ _ = none

  row_at-snoc :
      (j : ℕ) (before : List (List A)) (s : List A)
      → row_at j (before ++ (s ∷ [])) ≡ push_element (row_at j before) (get_elem? s j)
  row_at-snoc j [] s = ground arith
  row_at-snoc j (x ∷ before) s = ground (arith, row_at-snoc j before s)

  element-cases :
      (s : List A) (j : ℕ)
      → ((j < length s) × ((v : A) × (get_elem? s j ≡ some v)))
        ⊎ ((length s ≤ j) × (get_elem? s j ≡ none))
  element-cases [] j = inr (omega arith, refl)
  element-cases (x ∷ s) zero = inl (omega arith, (x, refl))
  element-cases (x ∷ s) (suc j) = elim (element-cases s j) [
    | inl (lt, found) ↦ inl (omega arith, found)
    | inr (le, none_there) ↦ inr (omega arith, none_there)
  ]

  column-at :
      (bound j : ℕ) (s : List A) (rows : List (List A))
      → get_elem? (add_column bound 0 s rows) j
        ≡ extended (leb j bound) (get_elem? s j) (get_elem? rows j)
  column-at bound j s rows =
      let same : j - 0 ≡ j = omega arith in
      ground (arith, get_elem?-add_column bound 0 j s rows (omega arith), ap (get_elem? s) same)

  abbrev pub column : ℕ → List A → List (List A) → List (List A)
  column shortest s rows = add_column (min shortest (length s)) 0 s rows

  AreRows-column :
      (before : List (List A)) (shortest : ℕ) (rows : List (List A)) (s : List A)
      → 0 < length before
      → AreRows before shortest rows
      → AreRows (before ++ (s ∷ [])) (min shortest (length s)) (column shortest s rows)
  AreRows-column before shortest rows s some_before r = record {
    full = λ j lt. full_at j lt (element-cases s j);
    partial = λ j le. partial_at j le (element-cases s j);
    absent = λ j le. absent_at j le (element-cases s j);
  }
    where
      full_at :
          (j : ℕ)
          → j < min shortest (length s)
          → ((j < length s) × ((v : A) × (get_elem? s j ≡ some v)))
            ⊎ ((length s ≤ j) × (get_elem? s j ≡ none))
          → (row : List A) × (get_elem? (column shortest s rows) j ≡ some row)
            × (row_at j (before ++ (s ∷ [])) ≡ some row)
            × (length row ≡ length (before ++ (s ∷ [])))
      full_at j lt (inr (le, missing)) = ground arith
      full_at j lt (inl (lt_s, (v, found))) =
          let (row, there, same, width) = r.full j (omega arith) in
          (
            row ++ (v ∷ []),
            ground (arith, column-at (min shortest (length s)) j s rows, found, there),
            ground (arith, row_at-snoc j before s, same, found),
            omega (arith, length-append row (v ∷ []), length-append before (s ∷ []), width),
          )

      partial_at :
          (j : ℕ)
          → min shortest (length s) ≤ j
          → ((j < length s) × ((v : A) × (get_elem? s j ≡ some v)))
            ⊎ ((length s ≤ j) × (get_elem? s j ≡ none))
          → length (or_empty (get_elem? (column shortest s rows) j)) < length (before ++ (s ∷ []))
      partial_at j le (inl (lt, (v, found))) = ground (
        arith,
        column-at (min shortest (length s)) j s rows,
        found,
        r.partial j,
        length-append (or_empty (get_elem? rows j)) (v ∷ []),
        length-append before (s ∷ []),
      )
      partial_at j le (inr (le_s, missing)) = elim (Bool-cases (ltb j shortest)) [
        | inl h ↦
            let (row, there, same, width) = r.full j (ltb→lt j shortest h) in
            ground (
              arith,
              column-at (min shortest (length s)) j s rows,
              missing,
              there,
              width,
              length-append before (s ∷ []),
            )
        | inr h ↦ ground (
          arith,
          column-at (min shortest (length s)) j s rows,
          missing,
          r.partial j,
          length-append before (s ∷ []),
        )
      ]

      absent_at :
          (j : ℕ)
          → min shortest (length s) ≤ j
          → ((j < length s) × ((v : A) × (get_elem? s j ≡ some v)))
            ⊎ ((length s ≤ j) × (get_elem? s j ≡ none))
          → row_at j (before ++ (s ∷ [])) ≡ none
      absent_at j le (inl (lt, (v, found))) = ground (arith, row_at-snoc j before s, r.absent j)
      absent_at j le (inr (le_s, missing)) = ground (arith, row_at-snoc j before s, missing)

  -- the first sequence
  pub AreRows-first :
      (s : List A)
      → length s < usize_max
      → AreRows (s ∷ []) (min usize_max (length s)) (column usize_max s [])
  AreRows-first s small = record {
    full = λ j lt. full_at j lt (element-cases s j);
    partial = λ j le. partial_at j le (element-cases s j);
    absent = λ j le. absent_at j le (element-cases s j);
  }
    where
      full_at :
          (j : ℕ)
          → j < min usize_max (length s)
          → ((j < length s) × ((v : A) × (get_elem? s j ≡ some v)))
            ⊎ ((length s ≤ j) × (get_elem? s j ≡ none))
          → (row : List A) × (get_elem? (column usize_max s []) j ≡ some row)
            × (row_at j (s ∷ []) ≡ some row)
            × (length row ≡ 1)
      full_at j lt (inr (le, missing)) = ground arith
      full_at j lt (inl (lt_s, (v, found))) = (
        v ∷ [],
        ground (arith, column-at (min usize_max (length s)) j s [], found),
        ground (arith, found),
        refl,
      )

      partial_at :
          (j : ℕ)
          → min usize_max (length s) ≤ j
          → ((j < length s) × ((v : A) × (get_elem? s j ≡ some v)))
            ⊎ ((length s ≤ j) × (get_elem? s j ≡ none))
          → length (or_empty (get_elem? (column usize_max s []) j)) < 1
      partial_at j le (inl (lt, (v, found))) = ground (arith, small)
      partial_at j le (inr (le_s, missing)) =
          ground (arith, column-at (min usize_max (length s)) j s [], missing)

      absent_at :
          (j : ℕ)
          → min usize_max (length s) ≤ j
          → ((j < length s) × ((v : A) × (get_elem? s j ≡ some v)))
            ⊎ ((length s ≤ j) × (get_elem? s j ≡ none))
          → row_at j (s ∷ []) ≡ none
      absent_at j le (inl (lt, (v, found))) = ground (arith, small)
      absent_at j le (inr (le_s, missing)) = ground (arith, missing)

  abbrev pub shortest_of : ℕ → List (List A) → ℕ
  shortest_of shortest [] = shortest
  shortest_of shortest (s ∷ sequences) = shortest_of (min shortest (length s)) sequences

  pub AreRows-columns :
      (before : List (List A)) (shortest : ℕ) (rows : List (List A)) (sequences : List (List A))
      → 0 < length before
      → AreRows before shortest rows
      → AreRows
          (before ++ sequences)
          (shortest_of shortest sequences)
          (add_columns shortest sequences rows)
  unfolding add_columns
  AreRows-columns before shortest rows [] some_before r =
      subst (λ b. AreRows b shortest rows) (sym (append-nil before)) r
  AreRows-columns before shortest rows (s ∷ sequences) some_before r =
      subst
        (λ b.
          AreRows b (shortest_of shortest (s ∷ sequences))
            (add_columns shortest (s ∷ sequences) rows))
        (append_assoc before (s ∷ []) sequences)
        (AreRows-columns (before ++ (s ∷ [])) (min shortest (length s)) (column shortest s rows)
          sequences (omega (arith, length-append before (s ∷ [])))
          (AreRows-column before shortest rows s some_before r))
