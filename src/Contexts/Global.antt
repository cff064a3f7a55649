-- ===== src/Contexts/Global.antt =====
-- `GlobalContext` of src/clarity/contexts.rs: the stacks of one transaction's execution.
pub mod Laws
use clarity_repl.Prelude.{
  ℕ, String, Bool, true, false, Option, none, some, List, [], ◌∷◌, ◌++◌, is_empty, ◌≡◌,
}
use clarity_repl.Prelude.Result.{Result, ok, err, panic, and_then, expect}
use clarity_repl.Prelude.Method.{Method, pure, raise, crash, lift, try, gets, modify, ◌>>=◌, ◌>>◌}
use clarity_repl.Types.{QualifiedContractIdentifier, PrincipalData}
use clarity_repl.Errors.{Error, unchecked, public_function_must_return_response}
use clarity_repl.Values.{Value, response}
use clarity_repl.Values.TypeOf.{type_of}
use clarity_repl.Contexts.AssetMap
use clarity_repl.Contexts.AssetMap.{
  AssetMap, commit_other, add_stx_transfer, add_stx_burn, add_asset_transfer, add_token_transfer,
}
use clarity_repl.Contexts.Events.{EventBatch, StacksTransactionEvent}
use clarity_repl.Tracker.{LimitedCostTracker}

-- What the context needs of the database: nested transactions.
pub record Transactional (D : Type 0) : Type 0 where
  pub begin : D → D
  pub commit : Method D Error (Unit {0})
  pub roll_back : Method D Error (Unit {0})
  pub roll_back-begin : (d : D) → roll_back (begin d) ≡ (ok tt, d)

-- The innermost context comes first in each stack.
pub record GlobalContext (D Contract : Type 0) : Type 0 where
  pub asset_maps : List AssetMap
  pub event_batches : List EventBatch
  pub database : D
  pub read_only : List Bool
  pub cost_track : LimitedCostTracker Contract

-- a pop, and a push
abbrev pub tail {ℓ} : {A : Type ℓ} → List A → List A
tail [] = []
tail (x ∷ xs) = xs

module _ {D Contract : Type 0} where
  unfoldable pub is_top_level : GlobalContext D Contract → Bool
  is_top_level c = is_empty c.asset_maps

  -- A change of the innermost asset map, which has to be there.
  unfoldable pub on_asset_map :
      Method AssetMap Error (Unit {0}) → Method (GlobalContext D Contract) Error (Unit {0})
  on_asset_map change c = elim c.asset_maps [
    | [] ↦ (panic, c)
    | (m ∷ outer) ↦ let (r, m') = change m in (r, record c { asset_maps = m' ∷ outer })
  ]

  unfoldable pub log_asset_transfer :
      PrincipalData
      → QualifiedContractIdentifier
      → String
      → Value
      → Method (GlobalContext D Contract) Error (Unit {0})
  unfolding on_asset_map
  log_asset_transfer sender contract asset_name transfered =
      on_asset_map (modify (add_asset_transfer sender (contract, asset_name) transfered))

  unfoldable pub log_token_transfer :
      PrincipalData
      → QualifiedContractIdentifier
      → String
      → ℕ
      → Method (GlobalContext D Contract) Error (Unit {0})
  unfolding on_asset_map
  log_token_transfer sender contract asset_name transfered =
      on_asset_map (add_token_transfer sender (contract, asset_name) transfered)

  unfoldable pub log_stx_transfer :
      PrincipalData → ℕ → Method (GlobalContext D Contract) Error (Unit {0})
  unfolding on_asset_map
  log_stx_transfer sender transfered = on_asset_map (add_stx_transfer sender transfered)

  unfoldable pub log_stx_burn :
      PrincipalData → ℕ → Method (GlobalContext D Contract) Error (Unit {0})
  unfolding on_asset_map
  log_stx_burn sender transfered = on_asset_map (add_stx_burn sender transfered)

  -- `if let Some(batch) = event_batches.last_mut() { batch.events.push(event) }`, the end of every
  -- `register_.._event`
  unfoldable pub register_event :
      StacksTransactionEvent → GlobalContext D Contract → GlobalContext D Contract
  register_event event c = elim c.event_batches [
    | [] ↦ c
    | (batch ∷ outer) ↦ record c { event_batches = (batch ++ (event ∷ [])) ∷ outer }
  ]

  unfoldable pub is_read_only : GlobalContext D Contract → Bool
  is_read_only c = elim c.read_only [ [] ↦ false | (r ∷ outer) ↦ r ]

module _ {D Contract : Type 0} (db : Transactional D) where
  unfoldable pub begin : GlobalContext D Contract → GlobalContext D Contract
  unfolding is_read_only
  begin c = record c {
    asset_maps = AssetMap.new ∷ c.asset_maps;
    event_batches = [] ∷ c.event_batches;
    database = db.begin c.database;
    read_only = is_read_only c ∷ c.read_only;
  }

  unfoldable pub begin_read_only : GlobalContext D Contract → GlobalContext D Contract
  begin_read_only c = record c {
    asset_maps = AssetMap.new ∷ c.asset_maps;
    event_batches = [] ∷ c.event_batches;
    database = db.begin c.database;
    read_only = true ∷ c.read_only;
  }

  abbrev pub on_database :
      Method D Error (Unit {0}) → Method (GlobalContext D Contract) Error (Unit {0})
  on_database change c = let (r, d) = change c.database in (r, record c { database = d })

  -- The asset map that a commit merges into the next one, or gives out at the top level.
  unfoldable pub merge_assets : AssetMap → Method (GlobalContext D Contract) Error (Option AssetMap)
  merge_assets asset_map c = elim c.asset_maps [
    | [] ↦ (ok (some asset_map), c)
    | (tail_back ∷ outer) ↦
        let (r, merged) = commit_other asset_map tail_back in
        let c' = record c { asset_maps = merged ∷ outer } in
        elim r [
          | ok u ↦ (ok none, c')
          | err e ↦ (do on_database db.roll_back; raise e) c'
          | panic ↦ (panic, c')
        ]
  ]

  unfoldable pub merge_events :
      EventBatch → GlobalContext D Contract → Option EventBatch × GlobalContext D Contract
  merge_events event_batch c = elim c.event_batches [
    | [] ↦ (some event_batch, c)
    | (tail_back ∷ outer) ↦ (none, record c { event_batches = (tail_back ++ event_batch) ∷ outer })
  ]

  unfoldable pub commit :
      Method (GlobalContext D Contract) Error (Option AssetMap × Option EventBatch)
  unfolding merge_assets merge_events
  commit c = elim c.asset_maps [
    | [] ↦ (panic, record c { read_only = tail c.read_only })
    | (asset_map ∷ maps) ↦ elim c.event_batches [
      | [] ↦ (panic, record c { read_only = tail c.read_only; asset_maps = maps })
      | (event_batch ∷ batches) ↦
          (do
            out_map ← merge_assets asset_map
            out_batch ← (λ s. let (b, s') = merge_events event_batch s in (ok b, s'))
            on_database db.commit
            pure (out_map, out_batch))
            (record c { read_only = tail c.read_only; asset_maps = maps; event_batches = batches })
    ]
  ]

  unfoldable pub roll_back : Method (GlobalContext D Contract) Error (Unit {0})
  roll_back c = elim c.asset_maps [
    | [] ↦ (panic, c)
    | (asset_map ∷ maps) ↦ elim c.read_only [
      | [] ↦ (panic, record c { asset_maps = maps })
      | (flag ∷ flags) ↦ elim c.event_batches [
        | [] ↦ (panic, record c { asset_maps = maps; read_only = flags })
        | (event_batch ∷ batches) ↦
            on_database db.roll_back
              (record c { asset_maps = maps; read_only = flags; event_batches = batches })
      ]
    ]
  ]

  unfoldable pub execute :
      {A : Type 0}
      → Method (GlobalContext D Contract) Error A
      → Method (GlobalContext D Contract) Error A
  unfolding begin commit roll_back
  execute f c =
      let (r, c') = f (begin c) in
      elim r [
        | ok result ↦ (do commit; pure result) c'
        | err e ↦ (do roll_back; raise e) c'
        | panic ↦ (panic, c')
      ]

  unfoldable pub handle_tx_result :
      Result Error Value → Method (GlobalContext D Contract) Error Value
  unfolding commit roll_back
  handle_tx_result (ok (response true v)) = do commit; pure (response true v)
  handle_tx_result (ok (response false v)) = do roll_back; pure (response false v)
  handle_tx_result (ok other) = lift (
      and_then (expect (type_of other))
        (λ t. err (unchecked (public_function_must_return_response t))))
  handle_tx_result (err e) = do roll_back; raise e
  handle_tx_result panic = crash
