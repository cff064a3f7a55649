-- ===== src/Database/Datastore.antt =====
-- `Datastore` of src/clarity/database/datastore.rs: the backing store that keeps every block's data in
-- memory. `height_to_id` hashes a height by SHA-512/256 of another crate, and is a parameter.
pub mod Chain
pub mod Committed
pub mod Growth
pub mod History
pub mod Runs
pub mod Writes
use clarity_repl.Prelude.{
  ℕ, zero, suc, ◌+◌, ◌%◌, String, Bool, not, List, [], ◌∷◌, Option, none, some, if◌then◌else◌,
}
use clarity_repl.Prelude.Result.{Result, ok, err, panic}
use clarity_repl.Prelude.Machine.{u32_mod}
use clarity_repl.Prelude.Map.{Map, Eq, lookup, insert, is_some}
use clarity_repl.Prelude.Keys.{string_eq, pair_eq, list_eq, nat_eq}
use clarity_repl.Prelude.Method.{Method, pure, crash, gets, modify, ◌>>=◌, ◌>>◌}
use clarity_repl.Errors.{Error}
use clarity_repl.Types.{QualifiedContractIdentifier}
use clarity_repl.Types.Keys.{contract_eq}
use clarity_repl.Database.{ClarityBackingStore, StacksBlockId}

-- A contract in a key of `metadata` stands for its text.
pub record Datastore : Type 0 where
  pub store : Map StacksBlockId (Map String String)
  pub block_id_lookup : Map StacksBlockId StacksBlockId
  pub metadata : Map (QualifiedContractIdentifier × String) String
  pub open_chain_tip : StacksBlockId
  pub current_chain_tip : StacksBlockId
  pub chain_height : ℕ
  pub height_at_chain_tip : Map StacksBlockId ℕ

-- `map.get(key).expect(..)`
abbrev pub get_expect :
    {K V : Type 0} ⦃e : Eq K⦄ → K → (Datastore → Map K V) → Method Datastore Error V
get_expect key field d = elim (lookup key (field d)) [ none ↦ (panic, d) | some v ↦ (ok v, d) ]

unfoldable pub get : String → Method Datastore Error (Option String)
get key = do
  current ← gets (λ d. d.current_chain_tip)
  lookup_id ← get_expect current (λ d. d.block_id_lookup)
  block ← get_expect lookup_id (λ d. d.store)
  pure (lookup key block)

unfoldable pub has_entry : String → Method Datastore Error Bool
unfolding get
has_entry key = do value ← get key; pure (is_some value)

-- the copy that the first write of a block makes
unfoldable pub open_store : StacksBlockId → Method Datastore Error (Unit {0})
open_store lookup_id = do
  block ← get_expect lookup_id (λ d. d.store)
  modify (λ d. record d {
    store = insert d.open_chain_tip block d.store;
    block_id_lookup = insert d.open_chain_tip d.current_chain_tip d.block_id_lookup;
  })

unfoldable pub put : String → String → Method Datastore Error (Unit {0})
unfolding open_store
put key value = do
  open_tip ← gets (λ d. d.open_chain_tip)
  lookup_id ← get_expect open_tip (λ d. d.block_id_lookup)
  if not (list_eq.beq lookup_id open_tip) then open_store lookup_id else pure tt
  block ← get_expect open_tip (λ d. d.store)
  modify (λ d. record d { store = insert open_tip (insert key value block) d.store })

unfoldable pub put_all : List (String × String) → Method Datastore Error (Unit {0})
unfolding put
put_all [] = pure tt
put_all ((key, value) ∷ items) = do put key value; put_all items

unfoldable pub set_block_hash : StacksBlockId → Method Datastore Error StacksBlockId
set_block_hash bhh d = (ok d.open_chain_tip, record d { current_chain_tip = bhh })

unfoldable pub set_chain_tip : StacksBlockId → Datastore → Datastore
set_chain_tip bhh d = record d { current_chain_tip = bhh }

unfoldable pub get_current_block_height : Method Datastore Error ℕ
get_current_block_height = do
  current ← gets (λ d. d.current_chain_tip)
  get_expect current (λ d. d.height_at_chain_tip)

unfoldable pub get_open_chain_tip_height : Datastore → ℕ
get_open_chain_tip_height d = d.chain_height

unfoldable pub get_open_chain_tip : Datastore → StacksBlockId
get_open_chain_tip d = d.open_chain_tip

unfoldable pub insert_metadata :
    QualifiedContractIdentifier → String → String → Method Datastore Error (Unit {0})
insert_metadata contract key value =
    modify (λ d. record d { metadata = insert (contract, key) value d.metadata })

unfoldable pub get_metadata :
    QualifiedContractIdentifier → String → Method Datastore Error (Option String)
get_metadata contract key = gets (λ d. lookup (contract, key) d.metadata)

module _ (height_to_id : ℕ → StacksBlockId) where
  abbrev pub genesis : StacksBlockId
  genesis = height_to_id 0

  unfoldable pub new : Datastore
  new = record {
    store = (genesis, []) ∷ [];
    block_id_lookup = (genesis, genesis) ∷ [];
    metadata = [];
    open_chain_tip = genesis;
    current_chain_tip = genesis;
    chain_height = 0;
    height_at_chain_tip = (genesis, 0) ∷ [];
  }

  -- the body of the loop of `advance_chain_tip`, and the loop over `i` and the `n - 1` numbers after it
  unfoldable pub add_block : StacksBlockId → ℕ → Datastore → Datastore
  add_block current_lookup_id height d = record d {
    block_id_lookup = insert (height_to_id height) current_lookup_id d.block_id_lookup;
    height_at_chain_tip = insert (height_to_id height) height d.height_at_chain_tip;
  }

  unfoldable pub add_blocks : StacksBlockId → ℕ → ℕ → ℕ → Datastore → Datastore
  unfolding add_block
  add_blocks current_lookup_id cur_height i zero d = d
  add_blocks current_lookup_id cur_height i (suc n) d =
      add_blocks current_lookup_id cur_height (i + 1) n
        (add_block current_lookup_id ((cur_height + i) % u32_mod) d)

  unfoldable pub advance_chain_tip : ℕ → Method Datastore Error ℕ
  unfolding add_blocks
  advance_chain_tip count = do
    cur_height ← gets (λ d. d.chain_height)
    open_tip ← gets (λ d. d.open_chain_tip)
    current_lookup_id ← get_expect open_tip (λ d. d.block_id_lookup)
    modify (add_blocks current_lookup_id cur_height 1 count)
    modify (λ d. record d { chain_height = (d.chain_height + count) % u32_mod })
    modify (λ d. record d { open_chain_tip = height_to_id d.chain_height })
    modify (λ d. record d { current_chain_tip = d.open_chain_tip })
    gets (λ d. d.chain_height)

  unfoldable pub get_block_at_height : ℕ → Method Datastore Error (Option StacksBlockId)
  get_block_at_height height = pure (some (height_to_id height))

  -- `impl ClarityBackingStore for Datastore`
  unfoldable pub backing_store : ClarityBackingStore Datastore
  backing_store = record {
    put_all = put_all;
    get = get;
    has_entry = has_entry;
    set_block_hash = set_block_hash;
    get_block_at_height = get_block_at_height;
    get_current_block_height = get_current_block_height;
    insert_metadata = insert_metadata;
    get_metadata = get_metadata;
  }
