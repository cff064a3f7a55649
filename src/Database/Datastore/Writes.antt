-- ===== src/Database/Datastore/Writes.antt =====
-- `put` and `put_all` of src/clarity/database/datastore.rs against the history of the chain.
use clarity_repl.Prelude.{
  ℕ, ◌<◌, ◌≤◌, ◌≡◌, refl, ap, sym, subst, ◌∙◌, ◌⊎◌, inl, inr, String, Bool, some, List, [], ◌∷◌,
  if◌then◌else◌, arith,
}
use clarity_repl.Prelude.Result.{ok}
use clarity_repl.Prelude.Method.{>>=-eq_ok}
use clarity_repl.Prelude.Machine.{u32_mod}
use clarity_repl.Prelude.Map.{Map, lookup, insert, lookup-insert}
use clarity_repl.Prelude.Keys.{string_eq, pair_eq, list_eq, nat_eq, list_beq_iff}
use clarity_repl.Database.{StacksBlockId}
use clarity_repl.Database.Datastore.{Datastore, put, open_store, put_all}
use clarity_repl.Database.Datastore.Chain.{HasDistinctIds, lookup_id-insert}
use clarity_repl.Database.Datastore.History.{Chain, write, write_all, Holds, Follows, top_block}

module _ (height_to_id : ℕ → StacksBlockId) (distinct : HasDistinctIds height_to_id) where
  -- What a write leaves of the open block and of the blocks below it.
  overwritten-Follows :
      (key value : String) {d d' : Datastore} {c : Chain} (m : Map String String)
      → Follows height_to_id d c
      → (d'.chain_height ≡ d.chain_height)
        × (d'.open_chain_tip ≡ d.open_chain_tip)
        × (d'.current_chain_tip ≡ d.current_chain_tip)
        × (d'.height_at_chain_tip ≡ d.height_at_chain_tip)
      → ((k : String) → lookup k m ≡ c.at c.height k)
      → ((h : ℕ)
          → h < u32_mod
          → lookup (height_to_id h) d'.block_id_lookup ≡ (
              if nat_eq.beq c.height h
              then some (height_to_id h)
              else lookup (height_to_id h) d.block_id_lookup))
      → ((h : ℕ)
          → h < u32_mod
          → lookup (height_to_id h) d'.store ≡ (
              if nat_eq.beq c.height h
              then some (insert key value m)
              else lookup (height_to_id h) d.store))
      → Follows height_to_id d' (write key value c)
  overwritten-Follows key value {d} {d'} {c} m f (e_h, e_o, e_c, e_t) m_lem ids maps = record {
    fits = f.fits;
    same_height = e_h ∙ f.same_height;
    open_tip = e_o ∙ f.open_tip;
    reading_le = f.reading_le;
    reading_tip = e_c ∙ f.reading_tip;
    blocks = λ h le. block h le (omega arith);
  }
    where
      block :
          (h : ℕ)
          → h ≤ c.height
          → (h < c.height) ⊎ (h ≡ c.height)
          → Holds height_to_id d' (write key value c) h
      block h le (inl below) =
          let b = f.blocks h le in
          record {
            owner = b.owner;
            data_of = b.data_of;
            owner_le = b.owner_le;
            looked_up = ground (arith, ids h, b.looked_up, f.fits);
            stored = ground (arith, maps b.owner, b.owner_le, b.stored, f.fits);
            agrees = λ k. ground (arith, b.agrees k);
            height_of = ground (arith, e_t, b.height_of);
          }
      block h le (inr top) =
          let b = f.blocks h le in
          record {
            owner = h;
            data_of = insert key value m;
            owner_le = omega arith;
            looked_up = ground (arith, ids h, f.fits);
            stored = ground (arith, maps h, f.fits);
            agrees = λ k. ground (arith, lookup-insert key k value m, m_lem k, top);
            height_of = ground (arith, e_t, b.height_of);
          }

  written : String → String → Bool → Map String String → Datastore → Datastore
  written key value is_open m d =
      let store = if is_open then d.store else insert d.open_chain_tip m d.store in
      record d {
        store = insert d.open_chain_tip (insert key value m) store;
        block_id_lookup =
            if is_open
            then d.block_id_lookup
            else insert d.open_chain_tip d.current_chain_tip d.block_id_lookup;
      }

  put-written :
      (key value : String) {d : Datastore} {c : Chain} (f : Follows height_to_id d c)
      → put key value d ≡ (
        ok tt,
        written key value (nat_eq.beq (top_block f).owner c.height) (top_block f).data_of d,
      )
  unfolding put open_store written
  put-written key value {d} {c} f =
      let b = top_block f in
      ground (
        arith,
        f.open_tip,
        b.looked_up,
        b.stored,
        b.owner_le,
        f.fits,
        list_beq_iff ⦃e = nat_eq⦄ (height_to_id b.owner) (height_to_id c.height),
        distinct b.owner c.height,
        lookup_id-insert height_to_id distinct c.height c.height b.data_of d.store,
      )

  pub put-Follows :
      (key value : String) {d : Datastore} {c : Chain}
      → Follows height_to_id d c
      → c.reading ≡ c.height
      → ((put key value d).0 ≡ ok tt) × Follows height_to_id (put key value d).1 (write key value c)
  unfolding written
  put-Follows key value {d} {c} f e =
      let b = top_block f in
      let eq = put-written key value f in
      let follows =
        overwritten-Follows key value b.data_of f (refl, refl, refl, refl) b.agrees
          (λ h lt. ground (
            arith,
            f.open_tip,
            f.reading_tip,
            e,
            b.looked_up,
            lookup_id-insert height_to_id distinct c.height h (height_to_id c.height)
                d.block_id_lookup f.fits lt,
          ))
          (λ h lt. ground (
            arith,
            f.open_tip,
            lookup_id-insert height_to_id distinct c.height h (insert key value b.data_of)
                (insert (height_to_id c.height) b.data_of d.store) f.fits lt,
            lookup_id-insert height_to_id distinct c.height h (insert key value b.data_of) d.store
                f.fits lt,
            lookup_id-insert height_to_id distinct c.height h b.data_of d.store f.fits lt,
          )) in
      (ap (λ p. p.0) eq, subst (λ p. Follows height_to_id p.1 (write key value c)) (sym eq) follows)

  pub put_all-Follows :
      (items : List (String × String)) {d : Datastore} {c : Chain}
      → Follows height_to_id d c
      → c.reading ≡ c.height
      → ((put_all items d).0 ≡ ok tt) × Follows height_to_id (put_all items d).1 (write_all items c)
  unfolding put_all
  put_all-Follows [] f e = (refl, f)
  put_all-Follows ((key, value) ∷ items) {d} {c} f e =
      let (answer, next) = put-Follows key value f e in
      let (answers, last) = put_all-Follows items next e in
      let eq = sym (>>=-eq_ok (put key value) (λ _. put_all items) d answer) in
      subst (λ p. (p.0 ≡ ok tt) × Follows height_to_id p.1 (write_all items (write key value c))) eq
        (answers, last)
