-- ===== src/Functions/Sequences/Rows.antt =====
-- The arguments of the calls that `special_map` of src/clarity/functions/sequences.rs makes: the values
-- of the sequences, put together in rows.
pub mod Columns
pub mod Laws
use clarity_repl.Prelude.{
  ℕ, zero, suc, ◌+◌, ◌-◌, ◌^◌, min, Option, none, some, List, [], ◌∷◌, ◌++◌, length, ltb, leb, ◌==◌,
  if◌then◌else◌,
}

abbrev pub usize_max : ℕ
usize_max = 2 ^ 64 - 1

module _ {A : Type 0} where
  -- `mapped_func_args[apply_index].push(value)`
  abbrev pub push_value : ℕ → A → List (List A) → List (List A)
  push_value i v [] = []
  push_value zero v (row ∷ rows) = (row ++ (v ∷ [])) ∷ rows
  push_value (suc i) v (row ∷ rows) = row ∷ push_value i v rows

  unfoldable pub push_at : ℕ → A → List (List A) → List (List A)
  push_at apply_index v rows =
      if leb (length rows) apply_index
      then rows ++ ((v ∷ []) ∷ [])
      else push_value apply_index v rows

  -- the loop over the values of one sequence
  unfoldable pub add_column : ℕ → ℕ → List A → List (List A) → List (List A)
  unfolding push_at
  add_column min_args_len apply_index [] rows = rows
  add_column min_args_len apply_index (v ∷ vs) rows =
      if ltb min_args_len apply_index
      then rows
      else add_column min_args_len (suc apply_index) vs (push_at apply_index v rows)

  -- the loop over the sequences
  unfoldable pub add_columns : ℕ → List (List A) → List (List A) → List (List A)
  unfolding add_column
  add_columns min_args_len [] rows = rows
  add_columns min_args_len (s ∷ sequences) rows =
      let shorter = min min_args_len (length s) in
      add_columns shorter sequences (add_column shorter 0 s rows)

  -- the rows that the second loop applies the function to
  unfoldable pub applied_rows : Option ℕ → List (List A) → List (List A)
  applied_rows previous_len [] = []
  applied_rows none (row ∷ rows) = row ∷ applied_rows (some (length row)) rows
  applied_rows (some n) (row ∷ rows) =
      let rest = applied_rows (some n) rows in if n == length row then row ∷ rest else []

  unfoldable pub map_arguments : List (List A) → List (List A)
  unfolding add_columns applied_rows
  map_arguments sequences = applied_rows none (add_columns usize_max sequences [])
