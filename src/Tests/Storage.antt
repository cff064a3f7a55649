-- ===== src/Tests/Storage.antt =====
-- Nested contexts over a backing store that is a map.
use clarity_repl.Prelude.{
  ◌≡◌, refl, String, none, some, List, [], ◌∷◌, Bool, true, false, if◌then◌else◌,
}
use clarity_repl.Prelude.Result.{ok}
use clarity_repl.Prelude.Map.{Map, lookup, insert, contains_key}
use clarity_repl.Prelude.Keys.{string_eq, pair_eq, list_eq, nat_eq}
use clarity_repl.Prelude.Method.{pure, gets, modify}
use clarity_repl.Types.{QualifiedContractIdentifier}
use clarity_repl.Types.Keys.{contract_eq}
use clarity_repl.Database.{ClarityBackingStore}
use clarity_repl.Database.EditLog.{rollback_check_pre_bottom_commit}
use clarity_repl.Database.EditLog.Represents.{Represents, non_empty, pre_bottom_commit-Represents}
use clarity_repl.Database.Wrapper.{
  RollbackWrapper, commit, get, get_metadata, has_entry, has_metadata_entry, on_store,
  insert_all_metadata,
}
use clarity_repl.Database.Wrapper.Models.{Writes, Models, bottom_commit-Models, get-Models}
use clarity_repl.Database.Wrapper.Transactions.{
  Actions, put_data, put_metadata, nested, done, then_do, perform, perform_all, effects, Leads,
  perform_all-Models, rolled_back_reads,
}
use clarity_repl.Tests.{demo}

abbrev Store : Type 0
Store = Map String String

abbrev put_each : List (String × String) → Store → Store
put_each [] m = m
put_each ((k, v) ∷ rest) m = put_each rest (insert k v m)

abbrev memory : ClarityBackingStore Store
memory = record {
  put_all = λ items. modify (put_each items);
  get = λ key. gets (lookup key);
  has_entry = λ key. gets (contains_key key);
  set_block_hash = λ bhh. pure bhh;
  get_block_at_height = λ height. pure none;
  get_current_block_height = pure 0;
  insert_metadata = λ contract key value. modify (insert key value);
  get_metadata = λ contract key. gets (lookup key);
}

-- one context, in which "a" was written
abbrev open_wrapper : RollbackWrapper Store
open_wrapper = record {
  store = ("a", "0") ∷ ("b", "1") ∷ [];
  lookup_map = ("a", "2" ∷ []) ∷ [];
  metadata_lookup_map = [];
  stack = record { edits = "a" ∷ []; metadata_edits = [] } ∷ [];
  query_pending_data = true;
}

abbrev one_write : Writes
one_write = record { writes = ("a", "2") ∷ []; metadata = [] }

one_history :
    (b : Bool) → (if b then some ("2" ∷ []) else none) ≡ non_empty (if b then "2" ∷ [] else [])
one_history true = refl
one_history false = refl

Represents-one : Represents open_wrapper.lookup_map (("a", "2") ∷ [])
unfolding lookup
Represents-one = record { histories = λ k. one_history (string_eq.beq "a" k) }

open_wrapper-Models : Models open_wrapper (one_write ∷ [])
unfolding lookup
open_wrapper-Models = record {
  stack = refl;
  writes = Represents-one;
  metadata = record { histories = λ k. refl };
}

abbrev body : Actions
body = then_do (put_data "b" "3") (
    then_do (nested true (then_do (put_data "a" "4") (then_do (put_metadata demo "m" "5") done)))
      done)

perform_all-Models_example :
    (w' : RollbackWrapper Store) × (perform_all memory body open_wrapper ≡ (ok tt, w'))
    × Leads open_wrapper w' (effects body one_write ∷ [])
perform_all-Models_example =
    perform_all-Models memory body open_wrapper one_write [] open_wrapper-Models

rolled_back_reads_example :
    (w' : RollbackWrapper Store) × (perform memory (nested false body) open_wrapper ≡ (ok tt, w'))
    × ((key : String) → (get memory key w').0 ≡ (get memory key open_wrapper).0)
    × ((key : String) → (has_entry memory key w').0 ≡ (has_entry memory key open_wrapper).0)
    × ((contract : QualifiedContractIdentifier) (key : String)
        → (get_metadata memory contract key w').0
          ≡ (get_metadata memory contract key open_wrapper).0)
    × ((contract : QualifiedContractIdentifier) (key : String)
        → (has_metadata_entry memory contract key w').0
          ≡ (has_metadata_entry memory contract key open_wrapper).0)
rolled_back_reads_example =
    rolled_back_reads memory body open_wrapper one_write [] open_wrapper-Models

pre_bottom_commit-Represents_example :
    rollback_check_pre_bottom_commit {T = String} ("a" ∷ []) (("a", "2" ∷ []) ∷ [])
    ≡ ok (("a", "2") ∷ [], [])
pre_bottom_commit-Represents_example =
    pre_bottom_commit-Represents (("a", "2" ∷ []) ∷ []) (("a", "2") ∷ []) Represents-one

bottom_commit-Models_example :
    commit memory open_wrapper
    ≡ on_store (insert_all_metadata memory []) (record open_wrapper {
      store = ("a", "2") ∷ ("b", "1") ∷ [];
      lookup_map = [];
      metadata_lookup_map = [];
      stack = [];
    })
unfolding insert
bottom_commit-Models_example =
    bottom_commit-Models memory open_wrapper one_write (("a", "2") ∷ ("b", "1") ∷ [])
      open_wrapper-Models refl

get-Models_example : get memory "a" open_wrapper ≡ (ok (some "2"), open_wrapper)
get-Models_example = get-Models memory open_wrapper one_write [] "a" open_wrapper-Models refl
