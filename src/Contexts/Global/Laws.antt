-- ===== src/Contexts/Global/Laws.antt =====
-- Nested contexts of `GlobalContext` (src/clarity/contexts.rs): begin, commit and rollback together.
use clarity_repl.Prelude.{Bool, true, false, List, ◌∷◌, ◌++◌, Option, none, ◌≡◌, arith}
use clarity_repl.Prelude.Result.{ok, err}
use clarity_repl.Prelude.Method.{Method}
use clarity_repl.Errors.{Error}
use clarity_repl.Values.{Value, response}
use clarity_repl.Contexts.AssetMap.{AssetMap, commit_other}
use clarity_repl.Contexts.AssetMap.Commit.{commit_other_atomic}
use clarity_repl.Contexts.Events.{EventBatch}
use clarity_repl.Contexts.Global.{
  GlobalContext, Transactional, begin, begin_read_only, commit, roll_back, execute,
  handle_tx_result, merge_assets, merge_events,
}

module _ {D Contract : Type 0} (db : Transactional D) (c : GlobalContext D Contract) where
  -- Rolling back a context right after it began, read-only or not, restores the context.
  pub roll_back-begin :
      (roll_back db (begin db c) ≡ (ok tt, c)) × (roll_back db (begin_read_only db c) ≡ (ok tt, c))
  unfolding roll_back begin begin_read_only
  roll_back-begin =
      (ground (arith, db.roll_back-begin c.database), ground (arith, db.roll_back-begin c.database))

  -- A commit whose asset map does not fit the enclosing one fails with that error, and leaves
  -- exactly the context that a rollback leaves, if the database rolls back.
  pub commit_overflow :
      (a b b' : AssetMap) (maps : List AssetMap) (flag : Bool) (flags : List Bool) (x : EventBatch)
      (xs : List EventBatch) (e : Error) (d : D)
      → c.asset_maps ≡ a ∷ b ∷ maps
      → c.read_only ≡ flag ∷ flags
      → c.event_batches ≡ x ∷ xs
      → commit_other a b ≡ (err e, b')
      → db.roll_back c.database ≡ (ok tt, d)
      → commit db c ≡ (err e, (roll_back db c).1)
  unfolding commit roll_back merge_assets
  commit_overflow a b b' maps flag flags x xs e d ha hr hx h k =
      ground (arith, ha, hr, hx, h, k, commit_other_atomic a b b' e h)

  -- If the body of execute fails, having changed only the innermost layer of the context and the
  -- costs, and the database rolls back to where it was, then execute fails with the same error
  -- and leaves the context as it was but for the costs.
  pub execute_error :
      {A : Type 0} (f : Method (GlobalContext D Contract) Error A) (e : Error)
      (c' : GlobalContext D Contract) (a : AssetMap) (flag : Bool) (x : EventBatch)
      → f (begin db c) ≡ (err e, c')
      → c'.asset_maps ≡ a ∷ c.asset_maps
      → c'.read_only ≡ flag ∷ c.read_only
      → c'.event_batches ≡ x ∷ c.event_batches
      → db.roll_back c'.database ≡ (ok tt, c.database)
      → execute db f c ≡ (err e, record c { cost_track = c'.cost_track })
  unfolding execute roll_back
  execute_error f e c' a flag x hf ha hr hx hd = ground (arith, hf, ha, hr, hx, hd)

  -- A response decides: an okay commits the context, an error response and a failure roll it back.
  pub handle_tx_result_outcome :
      (v : Value) (e : Error)
      → ((handle_tx_result db (ok (response false v)) c).1 ≡ (roll_back db c).1)
        × ((handle_tx_result db (err e) c).1 ≡ (roll_back db c).1)
        × ((handle_tx_result db (ok (response true v)) c).1 ≡ (commit db c).1)
  unfolding handle_tx_result
  handle_tx_result_outcome v e = (ground arith, ground arith, ground arith)

  -- A nested commit appends the events to the enclosing batch, after those that it has.
  pub commit_events :
      (x y : EventBatch) (xs : List EventBatch) (out : Option AssetMap × Option EventBatch)
      (c' : GlobalContext D Contract)
      → c.event_batches ≡ x ∷ y ∷ xs
      → commit db c ≡ (ok out, c')
      → (c'.event_batches ≡ (y ++ x) ∷ xs) × (out.1 ≡ none)
  unfolding commit merge_assets merge_events
  commit_events x y xs out c' hx h = ground (arith, hx, h)
