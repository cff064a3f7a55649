-- ===== src/Database/EditLog.antt =====
-- The edit histories of src/clarity/database/key_value_wrapper.rs, generic in the key.
-- A `Vec` that is pushed and popped is a list with its last element first: a pass over the reversed
-- `Vec` is a pass over the list, and a pass over the `Vec` one over `reverse` of the list.
pub mod Represents
use clarity_repl.Prelude.{String, List, [], ◌∷◌, reverse, none, some, is_empty, if◌then◌else◌}
use clarity_repl.Prelude.Result.{Result, ok, panic, assert, unwrap, ◌>>=◌, ◌>>◌}
use clarity_repl.Prelude.Map.{Eq, Map, lookup, contains_key, insert, remove}
use clarity_repl.Errors.{Error}

abbrev pub LookupMap : Type 0 → Type 0
LookupMap T = Map T (List String)

module _ {T : Type 0} ⦃e : Eq T⦄ where
  -- Pops the last edit of a key.
  unfoldable pub rollback_lookup_map : T → LookupMap T → Result Error (String × LookupMap T)
  rollback_lookup_map key lookup_map = elim (lookup key lookup_map) [
    | none ↦ panic
    | some [] ↦ panic
    | some (popped ∷ history) ↦
        ok (
          popped,
          if is_empty history then remove key lookup_map else insert key history lookup_map,
        )
  ]

  -- Pops an edit for each key in turn, and pairs it with its key.
  unfoldable pub pop_edits : List T → LookupMap T → Result Error (List (T × String) × LookupMap T)
  unfolding rollback_lookup_map
  pop_edits [] lookup_map = ok ([], lookup_map)
  pop_edits (key ∷ edits) lookup_map = do
    (value, rest) ← rollback_lookup_map key lookup_map
    (output, left) ← pop_edits edits rest
    ok ((key, value) ∷ output, left)

  -- `for (_, edit_history) in lookup_map.iter_mut() { edit_history.reverse() }`
  unfoldable pub reverse_histories : LookupMap T → LookupMap T
  reverse_histories [] = []
  reverse_histories ((key, history) ∷ rest) = (key, reverse history) ∷ reverse_histories rest

  unfoldable pub rollback_check_pre_bottom_commit :
      List T → LookupMap T → Result Error (List (T × String) × LookupMap T)
  unfolding pop_edits reverse_histories
  rollback_check_pre_bottom_commit edits lookup_map = do
    (output, left) ← pop_edits (reverse edits) (reverse_histories lookup_map)
    assert (is_empty left)
    ok (output, left)

  -- `if !lookup_map.contains_key(&key) { lookup_map.insert(key.clone(), Vec::new()) }`
  unfoldable pub with_history : T → LookupMap T → LookupMap T
  with_history key lookup_map =
      if contains_key key lookup_map then lookup_map else insert key [] lookup_map

  unfoldable pub inner_put : LookupMap T → List T → T → String → Result Error (LookupMap T × List T)
  unfolding with_history
  inner_put lookup_map edits key value = do
    key_edit_deque ← unwrap (lookup key (with_history key lookup_map))
    ok (insert key (value ∷ key_edit_deque) (with_history key lookup_map), key ∷ edits)
