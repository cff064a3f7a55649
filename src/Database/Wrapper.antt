-- ===== src/Database/Wrapper.antt =====
-- `RollbackWrapper` of src/clarity/database/key_value_wrapper.rs: nested contexts of pending edits
-- over a backing store.
pub mod Models
pub mod Transactions
use clarity_repl.Prelude.{
  ℕ, String, Bool, true, false, ◌&&◌, not, List, [], ◌∷◌, ◌++◌, reverse, Option, none, some,
  is_empty, length, if◌then◌else◌,
}
use clarity_repl.Prelude.Result.{Result, ok, err, panic}
use clarity_repl.Prelude.Map.{Map, lookup, contains_key, is_some}
use clarity_repl.Prelude.Keys.{string_eq, pair_eq}
use clarity_repl.Prelude.Method.{Method, pure, crash, lift, try, gets, modify, ◌>>=◌, ◌>>◌}
use clarity_repl.Errors.{Error}
use clarity_repl.Types.{QualifiedContractIdentifier}
use clarity_repl.Types.Keys.{contract_eq}
use clarity_repl.Database.{ClarityBackingStore, StacksBlockId}
use clarity_repl.Database.EditLog.{
  LookupMap, pop_edits, rollback_check_pre_bottom_commit, inner_put,
}

-- The contract and the key of a metadata entry.
abbrev pub MetadataKey : Type 0
MetadataKey = QualifiedContractIdentifier × String

-- The edits of one context: their keys, last first.
pub record RollbackContext : Type 0 where
  pub edits : List String
  pub metadata_edits : List MetadataKey

-- The innermost context comes first in `stack`.
pub record RollbackWrapper (S : Type 0) : Type 0 where
  pub store : S
  pub lookup_map : LookupMap String
  pub metadata_lookup_map : LookupMap MetadataKey
  pub stack : List RollbackContext
  pub query_pending_data : Bool

abbrev pub no_edits : RollbackContext
no_edits = record { edits = []; metadata_edits = [] }

module _ {S : Type 0} where
  abbrev pub new : S → RollbackWrapper S
  new store = record {
    store = store;
    lookup_map = [];
    metadata_lookup_map = [];
    stack = [];
    query_pending_data = true;
  }

  -- A call on the backing store.
  abbrev pub on_store : {A : Type 0} → Method S Error A → Method (RollbackWrapper S) Error A
  on_store call w = let (r, store) = call w.store in (r, record w { store = store })

  -- `self.stack.last().expect(..)`
  abbrev pub last_context : RollbackWrapper S → Result Error RollbackContext
  last_context w = elim w.stack [ [] ↦ panic | (context ∷ outer) ↦ ok context ]

  unfoldable pub nest : RollbackWrapper S → RollbackWrapper S
  nest w = record w { stack = no_edits ∷ w.stack }

  abbrev pub depth : RollbackWrapper S → ℕ
  depth w = length w.stack

  unfoldable pub put : String → String → Method (RollbackWrapper S) Error (Unit {0})
  put key value w = elim w.stack [
    | [] ↦ (panic, w)
    | (current ∷ outer) ↦ elim (inner_put w.lookup_map current.edits key value) [
      | ok (lookup_map, edits) ↦ (
        ok tt,
        record w { lookup_map = lookup_map; stack = record current { edits = edits } ∷ outer },
      )
      | err e ↦ (err e, w)
      | panic ↦ (panic, w)
    ]
  ]

  unfoldable pub insert_metadata :
      QualifiedContractIdentifier → String → String → Method (RollbackWrapper S) Error (Unit {0})
  insert_metadata contract key value w = elim w.stack [
    | [] ↦ (panic, w)
    | (current ∷ outer) ↦
        elim (inner_put w.metadata_lookup_map current.metadata_edits (contract, key) value) [
          | ok (lookup_map, edits) ↦ (
            ok tt,
            record w {
              metadata_lookup_map = lookup_map;
              stack = record current { metadata_edits = edits } ∷ outer;
            },
          )
          | err e ↦ (err e, w)
          | panic ↦ (panic, w)
        ]
  ]

  unfoldable pub rollback : Method (RollbackWrapper S) Error (Unit {0})
  rollback w = elim w.stack [
    | [] ↦ (panic, w)
    | (last_item ∷ outer) ↦
        (do
          (popped, lookup_map) ← try (λ w. pop_edits last_item.edits w.lookup_map)
          modify (λ w. record w { lookup_map = lookup_map })
          (popped, metadata) ← try (λ w. pop_edits last_item.metadata_edits w.metadata_lookup_map)
          modify (λ w. record w { metadata_lookup_map = metadata }))
          (record w { stack = outer })
  ]

  -- The values that wait for a commit.
  abbrev pub pending : String → RollbackWrapper S → Option String
  pending key w =
      if w.query_pending_data
      then elim (lookup key w.lookup_map) [
        | none ↦ none
        | some [] ↦ none
        | some (value ∷ older) ↦ some value
      ]
      else none

  abbrev pub pending_metadata : MetadataKey → RollbackWrapper S → Option String
  pending_metadata key w =
      if w.query_pending_data
      then elim (lookup key w.metadata_lookup_map) [
        | none ↦ none
        | some [] ↦ none
        | some (value ∷ older) ↦ some value
      ]
      else none

module _ {S : Type 0} (backing : ClarityBackingStore S) where
  -- `for ((contract, key), value) in metadata_edits { self.store.insert_metadata(..) }`
  abbrev pub insert_all_metadata : List (MetadataKey × String) → Method S Error (Unit {0})
  insert_all_metadata [] = pure tt
  insert_all_metadata (((contract, key), value) ∷ edits) = do
    backing.insert_metadata contract key value
    insert_all_metadata edits

  -- `if all_edits.len() > 0 { self.store.put_all(all_edits) }`
  abbrev pub put_pending : List (String × String) → Method S Error (Unit {0})
  put_pending edits = if is_empty edits then pure tt else backing.put_all edits

  unfoldable pub bottom_commit : RollbackContext → Method (RollbackWrapper S) Error (Unit {0})
  bottom_commit last_item = do
    (all_edits, left) ← try (λ w. rollback_check_pre_bottom_commit last_item.edits w.lookup_map)
    modify (λ w. record w { lookup_map = left })
    on_store (put_pending all_edits)
    (metadata_edits, left) ←
        try (λ w. rollback_check_pre_bottom_commit last_item.metadata_edits w.metadata_lookup_map)
    modify (λ w. record w { metadata_lookup_map = left })
    on_store (insert_all_metadata metadata_edits)

  unfoldable pub commit : Method (RollbackWrapper S) Error (Unit {0})
  unfolding bottom_commit
  commit w = elim w.stack [
    | [] ↦ (panic, w)
    | (last_item ∷ []) ↦ bottom_commit last_item (record w { stack = [] })
    | (last_item ∷ next_up ∷ outer) ↦ (
      ok tt,
      record w {
        stack =
            record {
              edits = last_item.edits ++ next_up.edits;
              metadata_edits = last_item.metadata_edits ++ next_up.metadata_edits;
            }
            ∷ outer;
      },
    )
  ]

  unfoldable pub set_block_hash :
      StacksBlockId → Bool → Method (RollbackWrapper S) Error StacksBlockId
  set_block_hash bhh query_pending_data = do
    prior ← on_store (backing.set_block_hash bhh)
    modify (λ w. record w { query_pending_data = query_pending_data })
    pure prior

  -- `get` and `get_value`, up to the deserialization of the string that they find.
  unfoldable pub get : String → Method (RollbackWrapper S) Error (Option String)
  get key = do
    try last_context
    lookup_result ← gets (pending key)
    elim lookup_result [ none ↦ on_store (backing.get key) | some value ↦ pure (some value) ]

  unfoldable pub get_metadata :
      QualifiedContractIdentifier → String → Method (RollbackWrapper S) Error (Option String)
  get_metadata contract key = do
    try last_context
    lookup_result ← gets (pending_metadata (contract, key))
    elim lookup_result [
      | none ↦ on_store (backing.get_metadata contract key)
      | some value ↦ pure (some value)
    ]

  unfoldable pub has_entry : String → Method (RollbackWrapper S) Error Bool
  has_entry key = do
    try last_context
    found ← gets (λ w. w.query_pending_data && contains_key key w.lookup_map)
    if found then pure true else on_store (backing.has_entry key)

  unfoldable pub has_metadata_entry :
      QualifiedContractIdentifier → String → Method (RollbackWrapper S) Error Bool
  unfolding get_metadata
  has_metadata_entry contract key w =
      let (r, w') = get_metadata contract key w in
      elim r [ ok found ↦ (ok (is_some found), w') | err e ↦ (ok false, w') | panic ↦ (panic, w') ]
