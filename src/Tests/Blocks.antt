-- ===== src/Tests/Blocks.antt =====
-- A datastore whose blocks are identified by their heights.
use clarity_repl.Prelude.{
  ℕ, ◌≡◌, refl, none, some, Bool, true, false, if◌then◌else◌, List, [], ◌∷◌, arith,
}
use clarity_repl.Prelude.Result.{ok}
use clarity_repl.Prelude.Map.{lookup}
use clarity_repl.Prelude.Keys.{string_eq}
use clarity_repl.Database.Datastore.{Datastore, new, backing_store}
use clarity_repl.Database.Datastore.Chain.{HasDistinctIds}
use clarity_repl.Database.Datastore.History.{empty_chain, Follows, new-Follows, write_all}
use clarity_repl.Database.Datastore.Runs.{
  Action, add_blocks_action, put_action, read_block, AreAllowed, effects, perform_all, read_key,
  perform_all-Follows, earlier_blocks_unchanged,
}
use clarity_repl.Database.Datastore.Committed.{commit-Follows}
use clarity_repl.Database.EditLog.Represents.{non_empty}
use clarity_repl.Database.Wrapper.{RollbackWrapper, commit}
use clarity_repl.Database.Wrapper.Models.{Writes, Models}

abbrev by_height : ℕ → List ℕ
by_height h = h ∷ []

by_height_distinct : HasDistinctIds by_height
by_height_distinct a b lt_a lt_b e = ground (arith, e)

-- two writes in block 0, two more blocks, a write in the last, and a read of block 0
abbrev actions : List Action
actions =
    put_action (("a", "1") ∷ ("b", "2") ∷ [])
    ∷ add_blocks_action 2
    ∷ put_action (("a", "3") ∷ [])
    ∷ read_block 0
    ∷ []

actions_allowed : AreAllowed actions empty_chain
actions_allowed = ground arith

perform_all-Follows_example :
    ((perform_all by_height actions (new by_height)).0 ≡ ok tt)
    × Follows by_height
        (perform_all by_height actions (new by_height)).1
        (effects actions empty_chain)
perform_all-Follows_example =
    perform_all-Follows by_height by_height_distinct actions (new-Follows by_height) actions_allowed

abbrev later : List Action
later = add_blocks_action 1 ∷ put_action (("a", "4") ∷ []) ∷ []

abbrev used : Datastore
used = (perform_all by_height actions (new by_height)).1

earlier_blocks_unchanged_example :
    (read_key by_height 0 "a" (perform_all by_height later used).1).0
    ≡ (read_key by_height 0 "a" used).0
earlier_blocks_unchanged_example =
    earlier_blocks_unchanged by_height by_height_distinct later 0 "a" perform_all-Follows_example.1
      (ground arith) (ground arith)

abbrev wrapper : RollbackWrapper Datastore
wrapper = record {
  store = new by_height;
  lookup_map = ("a", "2" ∷ "1" ∷ []) ∷ [];
  metadata_lookup_map = [];
  stack = record { edits = "a" ∷ "a" ∷ []; metadata_edits = [] } ∷ [];
  query_pending_data = true;
}

abbrev two_writes : Writes
two_writes = record { writes = ("a", "2") ∷ ("a", "1") ∷ []; metadata = [] }

two_histories :
    (b : Bool)
    → (if b then some ("2" ∷ "1" ∷ []) else none)
      ≡ non_empty (if b then "2" ∷ (if b then "1" ∷ [] else []) else (if b then "1" ∷ [] else []))
two_histories true = refl
two_histories false = refl

wrapper-Models : Models wrapper (two_writes ∷ [])
unfolding lookup
wrapper-Models = record {
  stack = refl;
  writes = record { histories = λ k. two_histories (string_eq.beq "a" k) };
  metadata = record { histories = λ k. refl };
}

commit-Follows_example :
    ((commit (backing_store by_height) wrapper).0 ≡ ok tt)
    × Follows by_height
        (commit (backing_store by_height) wrapper).1.store
        (write_all (("a", "1") ∷ ("a", "2") ∷ []) empty_chain)
commit-Follows_example =
    commit-Follows by_height by_height_distinct wrapper two_writes wrapper-Models
      (new-Follows by_height) refl
