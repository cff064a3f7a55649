-- ===== src/Database/Datastore/History.antt =====
-- The data of each block in src/clarity/database/datastore.rs, against an abstract history: what
-- every key holds at every height.
use clarity_repl.Prelude.{
  ℕ, zero, suc, ap, sym, ◌+◌, ◌<◌, ◌≤◌, ◌≡◌, ◌∙◌, refl, String, Option, none, some, List, [], ◌∷◌,
  leb, if◌then◌else◌, arith,
}
use clarity_repl.Prelude.Result.{ok}
use clarity_repl.Prelude.Machine.{u32_mod}
use clarity_repl.Prelude.Map.{Map, lookup}
use clarity_repl.Prelude.Keys.{string_eq, pair_eq, list_eq, nat_eq, list_beq_iff}
use clarity_repl.Database.{StacksBlockId}
use clarity_repl.Database.Datastore.{Datastore, get, set_block_hash, get_current_block_height, new}

-- The height of the open block, the one that reads are served from, and the data at each height.
pub record Chain : Type 0 where
  pub height : ℕ
  pub reading : ℕ
  pub at : ℕ → String → Option String

abbrev pub write : String → String → Chain → Chain
write key value c = record c {
  at = λ h k.
      if nat_eq.beq h c.height
      then (if string_eq.beq key k then some value else c.at h k)
      else c.at h k;
}

abbrev pub write_all : List (String × String) → Chain → Chain
write_all [] c = c
write_all ((key, value) ∷ items) c = write_all items (write key value c)

abbrev pub grow : ℕ → Chain → Chain
grow count c = record {
  height = c.height + count;
  reading = c.height + count;
  at = λ h k. if leb h c.height then c.at h k else c.at c.height k;
}

abbrev pub read_at : ℕ → Chain → Chain
read_at h c = record c { reading = h }

-- A height's block, maybe shared with an earlier one, holds the history's data.
pub record Holds (height_to_id : ℕ → StacksBlockId) (d : Datastore) (c : Chain) (h : ℕ)
    : Type 0 where
  pub owner : ℕ
  pub data_of : Map String String
  pub owner_le : owner ≤ h
  pub looked_up : lookup (height_to_id h) d.block_id_lookup ≡ some (height_to_id owner)
  pub stored : lookup (height_to_id owner) d.store ≡ some data_of
  pub agrees : (k : String) → lookup k data_of ≡ c.at h k
  pub height_of : lookup (height_to_id h) d.height_at_chain_tip ≡ some h

pub record Follows (height_to_id : ℕ → StacksBlockId) (d : Datastore) (c : Chain) : Type 0 where
  pub fits : c.height < u32_mod
  pub same_height : d.chain_height ≡ c.height
  pub open_tip : d.open_chain_tip ≡ height_to_id c.height
  pub reading_le : c.reading ≤ c.height
  pub reading_tip : d.current_chain_tip ≡ height_to_id c.reading
  pub blocks : (h : ℕ) → h ≤ c.height → Holds height_to_id d c h

abbrev pub empty_chain : Chain
empty_chain = record { height = 0; reading = 0; at = λ h k. none }

pub le_refl : (n : ℕ) → n ≤ n
le_refl n = omega arith

abbrev pub top_block :
    {height_to_id : ℕ → StacksBlockId} {d : Datastore} {c : Chain}
    → Follows height_to_id d c
    → Holds height_to_id d c c.height
top_block {c = c} f = f.blocks c.height (le_refl c.height)

module _ (height_to_id : ℕ → StacksBlockId) where
  genesis-Holds : (h : ℕ) → h ≤ 0 → Holds height_to_id (new height_to_id) empty_chain h
  unfolding new lookup
  genesis-Holds zero le = record {
    owner = 0;
    data_of = [];
    owner_le = le;
    looked_up = ground (arith, list_beq_iff ⦃e = nat_eq⦄ (height_to_id 0) (height_to_id 0));
    stored = ground (arith, list_beq_iff ⦃e = nat_eq⦄ (height_to_id 0) (height_to_id 0));
    agrees = λ k. refl;
    height_of = ground (arith, list_beq_iff ⦃e = nat_eq⦄ (height_to_id 0) (height_to_id 0));
  }
  genesis-Holds (suc h) le = ground arith

  pub new-Follows : Follows height_to_id (new height_to_id) empty_chain
  unfolding new
  new-Follows = record {
    fits = omega arith;
    same_height = refl;
    open_tip = refl;
    reading_le = omega arith;
    reading_tip = refl;
    blocks = genesis-Holds;
  }

  pub get-Follows :
      (key : String) {d : Datastore} {c : Chain}
      → Follows height_to_id d c
      → get key d ≡ (ok (c.at c.reading key), d)
  unfolding get
  get-Follows key f =
      let b = f.blocks _ f.reading_le in
      ground (arith, f.reading_tip, b.looked_up, b.stored, b.agrees key)

  pub get_current_block_height-Follows :
      {d : Datastore} {c : Chain}
      → Follows height_to_id d c
      → get_current_block_height d ≡ (ok c.reading, d)
  unfolding get_current_block_height
  get_current_block_height-Follows f =
      let b = f.blocks _ f.reading_le in ground (arith, f.reading_tip, b.height_of)

  -- What a height holds depends on the three tables of blocks alone.
  pub Holds-same_blocks :
      {d d' : Datastore} {c c' : Chain} {h : ℕ}
      → (d'.store ≡ d.store)
        × (d'.block_id_lookup ≡ d.block_id_lookup)
        × (d'.height_at_chain_tip ≡ d.height_at_chain_tip)
      → ((k : String) → c'.at h k ≡ c.at h k)
      → Holds height_to_id d c h
      → Holds height_to_id d' c' h
  Holds-same_blocks (e_s, e_l, e_t) same_data b = record {
    owner = b.owner;
    data_of = b.data_of;
    owner_le = b.owner_le;
    looked_up = ground (arith, e_l, b.looked_up);
    stored = ground (arith, e_s, b.stored);
    agrees = λ k. b.agrees k ∙ sym (same_data k);
    height_of = ground (arith, e_t, b.height_of);
  }

  pub set_block_hash-Follows :
      (h : ℕ) {d : Datastore} {c : Chain}
      → Follows height_to_id d c
      → h ≤ c.height
      → ((set_block_hash (height_to_id h) d).0 ≡ ok (height_to_id c.height))
        × Follows height_to_id (set_block_hash (height_to_id h) d).1 (read_at h c)
  unfolding set_block_hash
  set_block_hash-Follows h {d} {c} f le = (
    ap ok f.open_tip,
    record {
      fits = f.fits;
      same_height = f.same_height;
      open_tip = f.open_tip;
      reading_le = le;
      reading_tip = refl;
      blocks = λ j le_j. Holds-same_blocks (refl, refl, refl) (λ k. refl) (f.blocks j le_j);
    },
  )
