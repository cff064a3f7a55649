-- ===== src/Functions/Sequences/Rows/Laws.antt =====
-- The rows of arguments of src/clarity/functions/sequences.rs, against the elements at each index.
use clarity_repl.Prelude.{
  ℕ, zero, suc, ◌≤◌, ◌<◌, ◌≡◌, min, Bool-cases, inl, inr, Option, none, some, List, [], ◌∷◌, length,
  get_elem?, ltb, if◌then◌else◌, All, arith,
}
use clarity_repl.Functions.Sequences.Rows.{usize_max, add_columns, applied_rows, map_arguments}
use clarity_repl.Functions.Sequences.Rows.Columns.{
  row_at, or_empty, column, AreRows, AreRows-first, AreRows-columns, shortest_of,
}

module _ {A : Type 0} where
  -- The second loop takes the rows as long as they are as wide as the first.
  get_elem?-applied_rows :
      (width shortest j : ℕ) (rows : List (List A))
      → ((i : ℕ)
          → i < shortest
          → (row : List A) × (get_elem? rows i ≡ some row) × (length row ≡ width))
      → ((i : ℕ) → shortest ≤ i → length (or_empty (get_elem? rows i)) < width)
      → get_elem? (applied_rows (some width) rows) j
        ≡ (if ltb j shortest then get_elem? rows j else none)
  unfolding applied_rows
  get_elem?-applied_rows width zero j [] full partial = ground arith
  get_elem?-applied_rows width (suc shortest) j [] full partial =
      ground (arith, full 0 (omega arith))
  get_elem?-applied_rows width zero j (row ∷ rows) full partial =
      ground (arith, partial 0 (omega arith))
  get_elem?-applied_rows width (suc shortest) zero (row ∷ rows) full partial =
      let (r, there, wide) = full 0 (omega arith) in ground (arith, there, wide)
  get_elem?-applied_rows width (suc shortest) (suc j) (row ∷ rows) full partial =
      let (r, there, wide) = full 0 (omega arith) in
      ground (
        arith,
        there,
        wide,
        get_elem?-applied_rows width shortest j rows (λ i lt. full (suc i) (omega arith))
            (λ i le. partial (suc i) (omega arith)),
      )

  shortest_of-pos :
      (shortest : ℕ) (sequences : List (List A))
      → 0 < shortest
      → All (λ s. 0 < length s) sequences
      → 0 < shortest_of shortest sequences
  shortest_of-pos shortest [] h a = h
  shortest_of-pos shortest (s ∷ sequences) h (some_there, a) =
      shortest_of-pos (min shortest (length s)) sequences (omega arith) a

  applied-AreRows :
      (before : List (List A)) (shortest j : ℕ) (rows : List (List A))
      → 0 < shortest
      → AreRows before shortest rows
      → get_elem? (applied_rows none rows) j ≡ row_at j before
  unfolding applied_rows
  applied-AreRows before shortest j [] h r =
      let (row, there, same, wide) = r.full 0 h in ground (arith, there)
  applied-AreRows before zero j (first ∷ rows) h r = ground arith
  applied-AreRows before (suc shortest) zero (first ∷ rows) h r =
      let (row, there, same, wide) = r.full 0 h in ground (arith, there, same)
  applied-AreRows before (suc shortest) (suc j) (first ∷ rows) h r =
      let (row, there, same, wide) = r.full 0 h in
      let width : length first ≡ length before = ground (arith, there, wide) in
      let taken =
        get_elem?-applied_rows (length before) shortest j rows
          (λ i lt. full_row (r.full (suc i) (omega arith)))
          (λ i le. r.partial (suc i) (omega arith)) in
      elim (Bool-cases (ltb j shortest)) [
        | inl lt ↦
            let (other, found, matching, other_wide) = r.full (suc j) (ground (arith, lt)) in
            ground (arith, width, taken, lt, found, matching)
        | inr le ↦ ground (arith, width, taken, le, r.absent (suc j) (ground (arith, le)))
      ]
    where
      full_row :
          {found : Option (List A)} {other : Option (List A)} {width : ℕ}
          → (row : List A) × (found ≡ some row) × (other ≡ some row) × (length row ≡ width)
          → (row : List A) × (found ≡ some row) × (length row ≡ width)
      full_row (row, there, same, wide) = (row, there, wide)

  -- If no sequence is empty and the first has fewer elements than usize::MAX, the calls of map
  -- are made with the elements of all sequences at index 0, then at index 1, and so on, as long
  -- as every sequence has an element at the index.
  pub map_arguments-row_at :
      (first : List A) (sequences : List (List A)) (j : ℕ)
      → length first < usize_max
      → All (λ s. 0 < length s) (first ∷ sequences)
      → get_elem? (map_arguments (first ∷ sequences)) j ≡ row_at j (first ∷ sequences)
  unfolding map_arguments add_columns
  map_arguments-row_at first sequences j small (some_there, a) =
      let shortest = min usize_max (length first) in
      applied-AreRows (first ∷ sequences) (shortest_of shortest sequences) j _
        (shortest_of-pos shortest sequences (omega arith) a)
        (AreRows-columns (first ∷ []) shortest (column usize_max first []) sequences (omega arith)
          (AreRows-first first small))
