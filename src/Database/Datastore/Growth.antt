-- ===== src/Database/Datastore/Growth.antt =====
-- `advance_chain_tip` of src/clarity/database/datastore.rs against the history of the chain.
use clarity_repl.Prelude.{ℕ, ◌+◌, ◌<◌, ◌≤◌, ◌≡◌, ap, sym, subst, ◌∙◌, ◌⊎◌, inl, inr, arith}
use clarity_repl.Prelude.Result.{ok}
use clarity_repl.Prelude.Machine.{u32_mod}
use clarity_repl.Prelude.Keys.{string_eq, pair_eq, list_eq, nat_eq}
use clarity_repl.Database.{StacksBlockId}
use clarity_repl.Database.Datastore.{Datastore, add_blocks, advance_chain_tip}
use clarity_repl.Database.Datastore.Chain.{
  HasDistinctIds, lookup-add_blocks, u32_small, add_blocks_kept,
}
use clarity_repl.Database.Datastore.History.{Chain, grow, Holds, Follows, top_block}

module _ (height_to_id : ℕ → StacksBlockId) (distinct : HasDistinctIds height_to_id) where
  -- The datastore after blocks were added to one whose open block has its data under `owner`.
  advanced : ℕ → ℕ → Datastore → Datastore
  unfolding add_blocks
  advanced owner n d = record (add_blocks height_to_id (height_to_id owner) d.chain_height 1 n d) {
    chain_height = d.chain_height + n;
    open_chain_tip = height_to_id (d.chain_height + n);
    current_chain_tip = height_to_id (d.chain_height + n);
  }

  advance_chain_tip-advanced :
      (n : ℕ) {d : Datastore} {c : Chain} (f : Follows height_to_id d c)
      → c.height + n < u32_mod
      → advance_chain_tip height_to_id n d
        ≡ (ok (d.chain_height + n), advanced (top_block f).owner n d)
  unfolding advance_chain_tip advanced
  advance_chain_tip-advanced n {d} {c} f lt =
      let b = top_block f in
      ground (
        arith,
        f.open_tip,
        f.same_height,
        b.looked_up,
        add_blocks_kept height_to_id distinct (height_to_id b.owner) d.chain_height 1 n d,
        u32_small (d.chain_height + n),
      )

  advanced-Holds :
      (n : ℕ) {d : Datastore} {c : Chain} (f : Follows height_to_id d c)
      → c.height + n < u32_mod
      → (h : ℕ) → h ≤ c.height + n
      → (h ≤ c.height) ⊎ (c.height < h)
      → Holds height_to_id (advanced (top_block f).owner n d) (grow n c) h
  unfolding advanced
  advanced-Holds n {d} {c} f lt h le (inl old) =
      let b = f.blocks h old in
      let id = height_to_id (top_block f).owner in
      let same =
        lookup-add_blocks height_to_id distinct id d.chain_height 1 n h d
          (omega (arith, f.same_height)) (omega arith) in
      let kept = add_blocks_kept height_to_id distinct id d.chain_height 1 n d in
      record {
        owner = b.owner;
        data_of = b.data_of;
        owner_le = b.owner_le;
        looked_up = ground (arith, same, b.looked_up, f.same_height);
        stored = ground (arith, kept, b.stored);
        agrees = λ k. ground (arith, b.agrees k);
        height_of = ground (arith, same, b.height_of, f.same_height);
      }
  advanced-Holds n {d} {c} f lt h le (inr new_h) =
      let b = top_block f in
      let id = height_to_id b.owner in
      let same =
        lookup-add_blocks height_to_id distinct id d.chain_height 1 n h d
          (omega (arith, f.same_height)) (omega arith) in
      let kept = add_blocks_kept height_to_id distinct id d.chain_height 1 n d in
      record {
        owner = b.owner;
        data_of = b.data_of;
        owner_le = omega (arith, b.owner_le);
        looked_up = ground (arith, same, f.same_height);
        stored = ground (arith, kept, b.stored);
        agrees = λ k. ground (arith, b.agrees k);
        height_of = ground (arith, same, f.same_height);
      }

  pub advance_chain_tip-Follows :
      (n : ℕ) {d : Datastore} {c : Chain}
      → Follows height_to_id d c
      → c.height + n < u32_mod
      → ((advance_chain_tip height_to_id n d).0 ≡ ok (c.height + n))
        × Follows height_to_id (advance_chain_tip height_to_id n d).1 (grow n c)
  unfolding advanced
  advance_chain_tip-Follows n {d} {c} f lt =
      let e = advance_chain_tip-advanced n f lt in
      let follows : Follows height_to_id (advanced (top_block f).owner n d) (grow n c) = record {
        fits = lt;
        same_height = ap (λ h. h + n) f.same_height;
        open_tip = ap (λ h. height_to_id (h + n)) f.same_height;
        reading_le = omega arith;
        reading_tip = ap (λ h. height_to_id (h + n)) f.same_height;
        blocks = λ h le. advanced-Holds n f lt h le (omega arith);
      } in
      (
        ap (λ p. p.0) e ∙ ap (λ h. ok (h + n)) f.same_height,
        subst (λ p. Follows height_to_id p.1 (grow n c)) (sym e) follows,
      )
