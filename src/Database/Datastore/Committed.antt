-- ===== src/Database/Datastore/Committed.antt =====
-- The commit of src/clarity/database/key_value_wrapper.rs over the datastore of
-- src/clarity/database/datastore.rs.
use clarity_repl.Prelude.{ℕ, ◌≡◌, refl, ap, sym, subst, String, List, [], ◌∷◌, reverse}
use clarity_repl.Prelude.Result.{ok}
use clarity_repl.Types.{QualifiedContractIdentifier}
use clarity_repl.Database.{StacksBlockId}
use clarity_repl.Database.Datastore.{Datastore, backing_store, insert_metadata}
use clarity_repl.Database.Datastore.Chain.{HasDistinctIds}
use clarity_repl.Database.Datastore.History.{Chain, write_all, Follows, Holds-same_blocks}
use clarity_repl.Database.Datastore.Writes.{put_all-Follows}
use clarity_repl.Database.Wrapper.{
  RollbackWrapper, MetadataKey, commit, insert_all_metadata, put_pending,
}
use clarity_repl.Database.Wrapper.Models.{Writes, Models, bottom_commit-Models}

module _ (height_to_id : ℕ → StacksBlockId) (distinct : HasDistinctIds height_to_id) where
  insert_metadata-Follows :
      (contract : QualifiedContractIdentifier) (key value : String) {d : Datastore} {c : Chain}
      → Follows height_to_id d c
      → Follows height_to_id (insert_metadata contract key value d).1 c
  unfolding insert_metadata
  insert_metadata-Follows contract key value f = record {
    fits = f.fits;
    same_height = f.same_height;
    open_tip = f.open_tip;
    reading_le = f.reading_le;
    reading_tip = f.reading_tip;
    blocks = λ h le. Holds-same_blocks height_to_id (refl, refl, refl) (λ k. refl) (f.blocks h le);
  }

  insert_all_metadata-Follows :
      (items : List (MetadataKey × String)) {d : Datastore} {c : Chain}
      → Follows height_to_id d c
      → ((insert_all_metadata (backing_store height_to_id) items d).0 ≡ ok tt)
        × Follows height_to_id (insert_all_metadata (backing_store height_to_id) items d).1 c
  unfolding backing_store insert_metadata
  insert_all_metadata-Follows [] f = (refl, f)
  insert_all_metadata-Follows (((contract, key), value) ∷ items) f =
      insert_all_metadata-Follows items (insert_metadata-Follows contract key value f)

  put_pending-Follows :
      (items : List (String × String)) {d : Datastore} {c : Chain}
      → Follows height_to_id d c
      → c.reading ≡ c.height
      → ((put_pending (backing_store height_to_id) items d).0 ≡ ok tt)
        × Follows height_to_id
            (put_pending (backing_store height_to_id) items d).1
            (write_all items c)
  unfolding backing_store
  put_pending-Follows [] f e = (refl, f)
  put_pending-Follows (item ∷ items) f e = put_all-Follows height_to_id distinct (item ∷ items) f e

  -- If the identifiers of any two heights in u32 differ, a commit of the outermost context over a
  -- datastore that follows a history and whose open block is the one that is read succeeds, and
  -- the datastore then follows the history with the writes of the context made in the open block,
  -- first write first.
  pub commit-Follows :
      (w : RollbackWrapper Datastore) (pending : Writes) {c : Chain}
      → Models w (pending ∷ [])
      → Follows height_to_id w.store c
      → c.reading ≡ c.height
      → ((commit (backing_store height_to_id) w).0 ≡ ok tt)
        × Follows height_to_id
            (commit (backing_store height_to_id) w).1.store
            (write_all (reverse pending.writes) c)
  commit-Follows w pending {c} models f e =
      let (answer, stored) = put_pending-Follows (reverse pending.writes) f e in
      let eq =
        bottom_commit-Models (backing_store height_to_id) w pending
          (put_pending (backing_store height_to_id) (reverse pending.writes) w.store).1 models
          (ap
            (λ r.
              (r, (put_pending (backing_store height_to_id) (reverse pending.writes) w.store).1))
            answer) in
      subst
        (λ p. (p.0 ≡ ok tt) × Follows height_to_id p.1.store (write_all (reverse pending.writes) c))
        (sym eq) (insert_all_metadata-Follows (reverse pending.metadata) stored)
