-- ===== src/Database/Datastore/Chain.antt =====
-- The lookup tables of src/clarity/database/datastore.rs after blocks were added.
use clarity_repl.Prelude.{
  ℕ, zero, suc, ◌+◌, ◌%◌, ◌<◌, ◌≤◌, ◌≡◌, refl, Bool, ◌&&◌, some, ltb, leb, if◌then◌else◌, arith,
}
use clarity_repl.Prelude.Machine.{u32_mod}
use clarity_repl.Prelude.Map.{Map, lookup, insert, lookup-insert}
use clarity_repl.Prelude.Keys.{string_eq, pair_eq, list_eq, nat_eq, list_beq_iff}
use clarity_repl.Database.{StacksBlockId}
use clarity_repl.Database.Datastore.{Datastore, add_block, add_blocks}

-- The hash distinguishes the heights of u32.
abbrev pub HasDistinctIds : (ℕ → StacksBlockId) → Type 0
HasDistinctIds height_to_id =
    (a b : ℕ) → a < u32_mod → b < u32_mod → height_to_id a ≡ height_to_id b → a ≡ b

abbrev pub is_within : ℕ → ℕ → ℕ → Bool
is_within from n j = leb from j && ltb j (from + n)

pub u32_small : (n : ℕ) → n < u32_mod → n % u32_mod ≡ n
u32_small n h = omega arith

module _ (height_to_id : ℕ → StacksBlockId) (distinct : HasDistinctIds height_to_id) where
  -- Insertion under the identifier of a height, seen from another height.
  pub lookup_id-insert :
      {V : Type 0} (h j : ℕ) (v : V) (m : Map StacksBlockId V)
      → h < u32_mod
      → j < u32_mod
      → lookup (height_to_id j) (insert (height_to_id h) v m)
        ≡ (if nat_eq.beq h j then some v else lookup (height_to_id j) m)
  lookup_id-insert h j v m lt_h lt_j = ground (
    arith,
    lookup-insert (height_to_id h) (height_to_id j) v m,
    list_beq_iff ⦃e = nat_eq⦄ (height_to_id h) (height_to_id j),
    distinct h j lt_h lt_j,
  )

  pub lookup-add_blocks :
      (b : StacksBlockId) (cur i n j : ℕ) (d : Datastore)
      → cur + i + n ≤ u32_mod
      → j < u32_mod
      → (lookup (height_to_id j) (add_blocks height_to_id b cur i n d).block_id_lookup
          ≡ (if is_within (cur + i) n j then some b else lookup (height_to_id j) d.block_id_lookup))
        × (lookup (height_to_id j) (add_blocks height_to_id b cur i n d).height_at_chain_tip ≡ (
            if is_within (cur + i) n j
            then some j
            else lookup (height_to_id j) d.height_at_chain_tip))
  unfolding add_blocks
  lookup-add_blocks b cur i zero j d fits lt_j = ground arith
  lookup-add_blocks b cur i (suc n) j d fits lt_j =
      let h = (cur + i) % u32_mod in
      let at : h ≡ cur + i = u32_small (cur + i) (omega arith) in
      let lt_h : h < u32_mod = omega arith in
      ground (
        arith,
        at,
        lookup-add_blocks b cur (i + 1) n j (add_block height_to_id b h d) (omega arith) lt_j,
        lookup_id-insert h j b d.block_id_lookup lt_h lt_j,
        lookup_id-insert h j h d.height_at_chain_tip lt_h lt_j,
      )

  -- Adding blocks touches the two tables alone.
  pub add_blocks_kept :
      (b : StacksBlockId) (cur i n : ℕ) (d : Datastore)
      → ((add_blocks height_to_id b cur i n d).store ≡ d.store)
        × ((add_blocks height_to_id b cur i n d).chain_height ≡ d.chain_height)
  unfolding add_blocks add_block
  add_blocks_kept b cur i zero d = (refl, refl)
  add_blocks_kept b cur i (suc n) d =
      add_blocks_kept b cur (i + 1) n (add_block height_to_id b ((cur + i) % u32_mod) d)
