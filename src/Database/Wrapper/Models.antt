-- ===== src/Database/Wrapper/Models.antt =====
-- The rollback wrapper against its specification: a stack of contexts that hold their writes.
use clarity_repl.Prelude.{
  String, true, List, [], ◌∷◌, ◌++◌, reverse, map, some, ◌≡◌, refl, sym, subst, ap, arith,
}
use mathlib.Core.List.{map-append, append_assoc, append-nil}
use clarity_repl.Prelude.Result.{ok}
use clarity_repl.Prelude.Keys.{string_eq, pair_eq}
use clarity_repl.Types.{QualifiedContractIdentifier}
use clarity_repl.Types.Keys.{contract_eq}
use clarity_repl.Database.{ClarityBackingStore}
use clarity_repl.Database.EditLog.Represents.{
  Represents, values, inner_put-Represents, pop_edits-Represents, pre_bottom_commit-Represents,
}
use clarity_repl.Database.Wrapper.{
  MetadataKey, RollbackContext, RollbackWrapper, on_store, nest, put, insert_metadata, rollback,
  bottom_commit, commit, get, put_pending, insert_all_metadata,
}

-- The writes of one context, last first.
pub record Writes : Type 0 where
  pub writes : List (String × String)
  pub metadata : List (MetadataKey × String)

abbrev pub no_writes : Writes
no_writes = record { writes = []; metadata = [] }

-- The writes of a context and then those of one nested in it.
abbrev pub merged : Writes → Writes → Writes
merged c d = record { writes = c.writes ++ d.writes; metadata = c.metadata ++ d.metadata }

-- What is written in any context, last first.
abbrev pub all_writes : List Writes → Writes
all_writes [] = no_writes
all_writes (c ∷ s) = record {
  writes = c.writes ++ (all_writes s).writes;
  metadata = c.metadata ++ (all_writes s).metadata;
}

abbrev pub context_of : Writes → RollbackContext
context_of c = record {
  edits = map (λ p. p.0) c.writes;
  metadata_edits = map (λ p. p.0) c.metadata;
}

pub record Models {S : Type 0} (w : RollbackWrapper S) (spec : List Writes) : Type 0 where
  pub stack : w.stack ≡ map context_of spec
  pub writes : Represents w.lookup_map (all_writes spec).writes
  pub metadata : Represents w.metadata_lookup_map (all_writes spec).metadata

module _ {S : Type 0} (w : RollbackWrapper S) where
  pub nest-Models : (spec : List Writes) → Models w spec → Models (nest w) (no_writes ∷ spec)
  unfolding nest
  nest-Models spec m = record {
    stack = ap (λ s. context_of no_writes ∷ s) m.stack;
    writes = m.writes;
    metadata = m.metadata;
  }

  -- A write in a nested context succeeds and is recorded in the innermost one.
  pub put-Models :
      (c : Writes) (spec : List Writes) (key value : String)
      → Models w (c ∷ spec)
      → (w' : RollbackWrapper S) × (put key value w ≡ (ok tt, w'))
        × Models w' (record c { writes = (key, value) ∷ c.writes } ∷ spec)
        × (w'.store ≡ w.store)
        × (w'.query_pending_data ≡ w.query_pending_data)
  unfolding put
  put-Models c spec key value m =
      let (lm, h, r) =
        inner_put-Represents w.lookup_map (all_writes (c ∷ spec)).writes (map (λ p. p.0) c.writes)
          key value m.writes in
      (
        record w {
          lookup_map = lm;
          stack = context_of (record c { writes = (key, value) ∷ c.writes }) ∷ map context_of spec;
        },
        ground (arith, m.stack, h),
        record { stack = refl; writes = r; metadata = m.metadata },
        refl,
        refl,
      )

  pub insert_metadata-Models :
      (c : Writes) (spec : List Writes) (contract : QualifiedContractIdentifier)
      (key value : String)
      → Models w (c ∷ spec)
      → (w' : RollbackWrapper S) × (insert_metadata contract key value w ≡ (ok tt, w'))
        × Models w' (record c { metadata = ((contract, key), value) ∷ c.metadata } ∷ spec)
        × (w'.store ≡ w.store)
        × (w'.query_pending_data ≡ w.query_pending_data)
  unfolding insert_metadata
  insert_metadata-Models c spec contract key value m =
      let (lm, h, r) =
        inner_put-Represents w.metadata_lookup_map (all_writes (c ∷ spec)).metadata
          (map (λ p. p.0) c.metadata) (contract, key) value m.metadata in
      (
        record w {
          metadata_lookup_map = lm;
          stack =
              context_of (record c { metadata = ((contract, key), value) ∷ c.metadata })
              ∷ map context_of spec;
        },
        ground (arith, m.stack, h),
        record { stack = refl; writes = m.writes; metadata = r },
        refl,
        refl,
      )

  -- A rollback succeeds and drops the writes of the innermost context.
  pub rollback-Models :
      (c : Writes) (spec : List Writes)
      → Models w (c ∷ spec)
      → (w' : RollbackWrapper S) × (rollback w ≡ (ok tt, w'))
        × Models w' spec
        × (w'.store ≡ w.store)
        × (w'.query_pending_data ≡ w.query_pending_data)
  unfolding rollback
  rollback-Models c spec m =
      let (lm, h, r) =
        pop_edits-Represents w.lookup_map c.writes (all_writes spec).writes m.writes in
      let (mm, h', r') =
        pop_edits-Represents w.metadata_lookup_map c.metadata (all_writes spec).metadata
          m.metadata in
      (
        record w { lookup_map = lm; metadata_lookup_map = mm; stack = map context_of spec },
        ground (arith, m.stack, h, h'),
        record { stack = refl; writes = r; metadata = r' },
        refl,
        refl,
      )

module _ {S : Type 0} (backing : ClarityBackingStore S) (w : RollbackWrapper S) where
  -- A commit in a nested context hands its writes to the enclosing one.
  pub commit-Models :
      (c d : Writes) (spec : List Writes)
      → Models w (c ∷ d ∷ spec)
      → (w' : RollbackWrapper S) × (commit backing w ≡ (ok tt, w'))
        × Models w' (merged c d ∷ spec)
        × (w'.store ≡ w.store)
        × (w'.query_pending_data ≡ w.query_pending_data)
  unfolding commit
  commit-Models c d spec m = (
    record w { stack = context_of (merged c d) ∷ map context_of spec },
    ground (
      arith,
      m.stack,
      map-append (λ p. p.0) c.writes d.writes,
      map-append (λ p. p.0) c.metadata d.metadata,
    ),
    record {
      stack = refl;
      writes =
          subst (Represents w.lookup_map)
            (sym (append_assoc c.writes d.writes (all_writes spec).writes)) m.writes;
      metadata =
          subst (Represents w.metadata_lookup_map)
            (sym (append_assoc c.metadata d.metadata (all_writes spec).metadata)) m.metadata;
    },
    refl,
    refl,
  )

  -- A commit of the outermost context leaves nothing pending and passes exactly its writes to the
  -- backing store, first write first: the data and then, if the store takes them, the metadata.
  pub bottom_commit-Models :
      (c : Writes) (store' : S)
      → Models w (c ∷ [])
      → put_pending backing (reverse c.writes) w.store ≡ (ok tt, store')
      → commit backing w
        ≡ on_store
            (insert_all_metadata backing (reverse c.metadata))
            (record w { store = store'; lookup_map = []; metadata_lookup_map = []; stack = [] })
  unfolding commit bottom_commit
  bottom_commit-Models c store' m h = ground (
    arith,
    m.stack,
    h,
    pre_bottom_commit-Represents w.lookup_map c.writes
        (subst (Represents w.lookup_map) (append-nil c.writes) m.writes),
    pre_bottom_commit-Represents w.metadata_lookup_map c.metadata
        (subst (Represents w.metadata_lookup_map) (append-nil c.metadata) m.metadata),
  )

  -- A read of pending data in an open context finds the last value written to the key in any open
  -- context, and asks the backing store exactly when there is none.
  pub get-Models :
      (c : Writes) (spec : List Writes) (key : String)
      → Models w (c ∷ spec)
      → w.query_pending_data ≡ true
      → get backing key w ≡ elim (values key (all_writes (c ∷ spec)).writes) [
        | [] ↦ on_store (backing.get key) w
        | (value ∷ older) ↦ (ok (some value), w)
      ]
  unfolding get
  get-Models c spec key m q = ground (arith, m.stack, q, m.writes.histories key)
