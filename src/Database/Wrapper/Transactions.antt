-- ===== src/Database/Wrapper/Transactions.antt =====
-- Transactions: well-bracketed runs of the rollback wrapper, as the interpreter makes them.
use clarity_repl.Prelude.{
  String, Bool, true, false, List, ◌∷◌, ◌≡◌, refl, ◌∙◌, arith, if◌then◌else◌,
}
use clarity_repl.Prelude.Result.{ok}
use clarity_repl.Prelude.Map.{contains_key-lookup}
use clarity_repl.Prelude.Keys.{string_eq, pair_eq}
use clarity_repl.Prelude.Method.{Method, pure, modify, ◌>>◌}
use clarity_repl.Errors.{Error}
use clarity_repl.Types.{QualifiedContractIdentifier}
use clarity_repl.Types.Keys.{contract_eq}
use clarity_repl.Database.{ClarityBackingStore}
use clarity_repl.Database.Wrapper.{
  RollbackWrapper, nest, put, insert_metadata, rollback, commit, get, has_entry, get_metadata,
  has_metadata_entry,
}
use clarity_repl.Database.Wrapper.Models.{
  Writes, no_writes, merged, Models, nest-Models, put-Models, insert_metadata-Models,
  rollback-Models, commit-Models,
}

mutual
  pub data Action : Type 0 where
    put_data : String → String → Action
    put_metadata : QualifiedContractIdentifier → String → String → Action
    -- a nested context, which is committed if the flag says so and rolled back otherwise
    nested : Bool → Actions → Action

  pub data Actions : Type 0 where
    done : Actions
    then_do : Action → Actions → Actions

module _ {S : Type 0} (backing : ClarityBackingStore S) where
  unfoldable mutual
    pub perform : Action → Method (RollbackWrapper S) Error (Unit {0})
    perform (put_data key value) = put key value
    perform (put_metadata contract key value) = insert_metadata contract key value
    perform (nested committed body) = do
      modify nest
      perform_all body
      if committed then commit backing else rollback

    pub perform_all : Actions → Method (RollbackWrapper S) Error (Unit {0})
    perform_all done = pure tt
    perform_all (then_do action rest) = do perform action; perform_all rest

unfoldable mutual
  -- What an action adds to the writes of the context that it runs in.
  pub effect : Action → Writes → Writes
  effect (put_data key value) c = record c { writes = (key, value) ∷ c.writes }
  effect (put_metadata contract key value) c = record c {
    metadata = ((contract, key), value) ∷ c.metadata;
  }
  effect (nested committed body) c =
      let inner = effects body no_writes in if committed then merged inner c else c

  pub effects : Actions → Writes → Writes
  effects done c = c
  effects (then_do action rest) c = effects rest (effect action c)

-- Two states of a wrapper with the same pending writes, as far as reads can tell.
pub record Leads {S : Type 0} (w w' : RollbackWrapper S) (spec : List Writes) : Type 0 where
  pub models : Models w' spec
  pub store : w'.store ≡ w.store
  pub query_pending_data : w'.query_pending_data ≡ w.query_pending_data

module _ {S : Type 0} (backing : ClarityBackingStore S) where
  mutual
    unfolding perform perform_all effect effects nest

    perform-Models :
        (a : Action) (w : RollbackWrapper S) (c : Writes) (spec : List Writes)
        → Models w (c ∷ spec)
        → (w' : RollbackWrapper S) × (perform backing a w ≡ (ok tt, w'))
          × Leads w w' (effect a c ∷ spec)
    perform-Models (put_data key value) w c spec m =
        let (w', h, m', s, q) = put-Models w c spec key value m in
        (w', h, record { models = m'; store = s; query_pending_data = q })
    perform-Models (put_metadata contract key value) w c spec m =
        let (w', h, m', s, q) = insert_metadata-Models w c spec contract key value m in
        (w', h, record { models = m'; store = s; query_pending_data = q })
    perform-Models (nested true body) w c spec m =
        let (w1, h1, l1) =
          all-Models body (nest w) no_writes (c ∷ spec) (nest-Models w (c ∷ spec) m) in
        let (w2, h2, m2, s2, q2) =
          commit-Models backing w1 (effects body no_writes) c spec l1.models in
        (
          w2,
          ground (arith, h1, h2),
          record {
            models = m2;
            store = s2 ∙ l1.store;
            query_pending_data = q2 ∙ l1.query_pending_data;
          },
        )
    perform-Models (nested false body) w c spec m =
        let (w1, h1, l1) =
          all-Models body (nest w) no_writes (c ∷ spec) (nest-Models w (c ∷ spec) m) in
        let (w2, h2, m2, s2, q2) =
          rollback-Models w1 (effects body no_writes) (c ∷ spec) l1.models in
        (
          w2,
          ground (arith, h1, h2),
          record {
            models = m2;
            store = s2 ∙ l1.store;
            query_pending_data = q2 ∙ l1.query_pending_data;
          },
        )

    all-Models :
        (a : Actions) (w : RollbackWrapper S) (c : Writes) (spec : List Writes)
        → Models w (c ∷ spec)
        → (w' : RollbackWrapper S) × (perform_all backing a w ≡ (ok tt, w'))
          × Leads w w' (effects a c ∷ spec)
    all-Models done w c spec m =
        (w, refl, record { models = m; store = refl; query_pending_data = refl })
    all-Models (then_do a rest) w c spec m =
        let (w1, h1, l1) = perform-Models a w c spec m in
        let (w2, h2, l2) = all-Models rest w1 (effect a c) spec l1.models in
        (
          w2,
          ground (arith, h1, h2),
          record {
            models = l2.models;
            store = l2.store ∙ l1.store;
            query_pending_data = l2.query_pending_data ∙ l1.query_pending_data;
          },
        )

  -- Every well-bracketed run of writes, nested commits and nested rollbacks in an open context of
  -- the rollback wrapper succeeds without a panic, leaves the backing store alone, and has on the
  -- abstract stack of writes exactly the effect of its committed writes in their order.
  pub perform_all-Models :
      (a : Actions) (w : RollbackWrapper S) (c : Writes) (spec : List Writes)
      → Models w (c ∷ spec)
      → (w' : RollbackWrapper S) × (perform_all backing a w ≡ (ok tt, w'))
        × Leads w w' (effects a c ∷ spec)
  perform_all-Models = all-Models

  -- Two wrappers with the same pending writes over the same store answer every read alike.
  module _ (w w' : RollbackWrapper S) (c : Writes) (spec : List Writes) (m : Models w (c ∷ spec))
      (l : Leads w w' (c ∷ spec)) where
    get-Leads : (key : String) → (get backing key w').0 ≡ (get backing key w).0
    unfolding get
    get-Leads key = ground (
      arith,
      m.stack,
      l.models.stack,
      m.writes.histories key,
      l.models.writes.histories key,
      l.store,
      l.query_pending_data,
    )

    has_entry-Leads : (key : String) → (has_entry backing key w').0 ≡ (has_entry backing key w).0
    unfolding has_entry
    has_entry-Leads key = ground (
      arith,
      m.stack,
      l.models.stack,
      contains_key-lookup key w.lookup_map,
      contains_key-lookup key w'.lookup_map,
      m.writes.histories key,
      l.models.writes.histories key,
      l.store,
      l.query_pending_data,
    )

    get_metadata-Leads :
        (contract : QualifiedContractIdentifier) (key : String)
        → (get_metadata backing contract key w').0 ≡ (get_metadata backing contract key w).0
    unfolding get_metadata
    get_metadata-Leads contract key = ground (
      arith,
      m.stack,
      l.models.stack,
      m.metadata.histories (contract, key),
      l.models.metadata.histories (contract, key),
      l.store,
      l.query_pending_data,
    )

    has_metadata_entry-Leads :
        (contract : QualifiedContractIdentifier) (key : String)
        → (has_metadata_entry backing contract key w').0
          ≡ (has_metadata_entry backing contract key w).0
    unfolding has_metadata_entry
    has_metadata_entry-Leads contract key = ground (arith, get_metadata-Leads contract key)

  -- In an open context of the rollback wrapper, a nested transaction that is rolled back,
  -- whatever it wrote and however it nested, succeeds and leaves the outcome of every read as it
  -- was: of the value of a key and of whether it has an entry, of data and of metadata.
  pub rolled_back_reads :
      (body : Actions) (w : RollbackWrapper S) (c : Writes) (spec : List Writes)
      → Models w (c ∷ spec)
      → (w' : RollbackWrapper S) × (perform backing (nested false body) w ≡ (ok tt, w'))
        × ((key : String) → (get backing key w').0 ≡ (get backing key w).0)
        × ((key : String) → (has_entry backing key w').0 ≡ (has_entry backing key w).0)
        × ((contract : QualifiedContractIdentifier) (key : String)
            → (get_metadata backing contract key w').0 ≡ (get_metadata backing contract key w).0)
        × ((contract : QualifiedContractIdentifier) (key : String)
            → (has_metadata_entry backing contract key w').0
              ≡ (has_metadata_entry backing contract key w).0)
  unfolding effect
  rolled_back_reads body w c spec m =
      let (w', h, l) = perform-Models (nested false body) w c spec m in
      (
        w',
        h,
        get-Leads w w' c spec m l,
        has_entry-Leads w w' c spec m l,
        get_metadata-Leads w w' c spec m l,
        has_metadata_entry-Leads w w' c spec m l,
      )
