-- ===== src/Tests/Tokens.antt =====
-- Tokens and STX balances on a small database.
use clarity_repl.Prelude.{ℕ, ◌+◌, ◌≤◌, ◌<◌, ◌≡◌, ◌≢◌, ◌↔◌, ◌⊎◌, refl, some, [], ◌∷◌, arith, false}
use clarity_repl.Prelude.Result.{ok, err}
use clarity_repl.Prelude.Machine.{u128_mod}
use clarity_repl.Prelude.Map.{lookup}
use clarity_repl.Errors.{interpreter, runtime, insufficient_balance, arithmetic_overflow}
use clarity_repl.Types.Keys.{principal_eq, contract_eq, principal_beq_iff}
use clarity_repl.Prelude.Keys.{string_eq, pair_eq}
use clarity_repl.Values.{uint, principal}
use clarity_repl.Values.TypeOf.{okay_true, err_uint}
use clarity_repl.Tracker.{LimitedCostTracker, new_free}
use clarity_repl.Database.Tables.{ClarityDatabase, StxBalance, FungibleTokenMetadata, Token}
use clarity_repl.Database.Tables.Stx.{
  StxBalanceSnapshot, get_stx_balance_snapshot, transfer_to, lock_tokens,
  get_available_balance_at_burn_block, get_account_stx_balance,
}
use clarity_repl.Database.Tables.Conservation.{
  stx_total, holding, transfer_to_total, transfer_to_self_total, transfer_to_iff, transfer_to_error,
  lock_tokens_available,
}
use clarity_repl.Contexts.AssetMap
use clarity_repl.Contexts.Global.{GlobalContext}
use clarity_repl.Functions.Assets.{
  SavedTables, Environment, transfer_token, mint_token, burn_token, mint_amount, token,
  stx_transfer_consolidated,
}
use clarity_repl.Functions.Assets.Laws.{
  IsBacked, ft_total, transfer_token-IsBacked, mint_token-IsBacked, burn_token-IsBacked,
  mint_amount_limit, stx_transfer_total,
}
use clarity_repl.Tests.{alice, bob, demo}

abbrev gold : Token
gold = (demo, "gold")

abbrev with_limit : FungibleTokenMetadata
with_limit = record { total_supply = some 1000 }

abbrev tables : ClarityDatabase
tables = record {
  accounts =
      (alice, record { amount_unlocked = 50; amount_locked = 30; unlock_height = 9 })
      ∷ (bob, record { amount_unlocked = 5; amount_locked = 0; unlock_height = 0 })
      ∷ [];
  ustx_liquid_supply = 85;
  ft_metadata = (gold, with_limit) ∷ [];
  circulating_supply = (gold, 100) ∷ [];
  ft_balances = ((gold, alice), 60) ∷ ((gold, bob), 40) ∷ [];
  burnchain_block_height = 10;
}

abbrev env : Environment
env = record {
  contract_identifier = demo;
  meta_ft = ("gold", with_limit) ∷ [];
  sender = some alice;
}

abbrev context : GlobalContext SavedTables (Unit {0})
context = record {
  asset_maps = AssetMap.new ∷ [];
  event_batches = [] ∷ [];
  database = record { current = tables; saved = [] };
  read_only = false ∷ [];
  cost_track = new_free;
}

backed : IsBacked gold tables
unfolding lookup
backed = record { supply = refl }

abbrev after_transfer : GlobalContext SavedTables (Unit {0})
unfolding transfer_token
after_transfer = (transfer_token env "gold" (uint 20) (principal alice) (principal bob) context).1

transfer_token-IsBacked_example :
    IsBacked gold after_transfer.database.current
    × (ft_total gold after_transfer.database.current ≡ ft_total gold tables)
unfolding transfer_token lookup after_transfer clarity_repl.Database.Tables.get_ft_balance
    clarity_repl.Tracker.add_memory clarity_repl.Database.Tables.set_ft_balance
    clarity_repl.Contexts.Global.log_token_transfer AssetMap.add_token_transfer
transfer_token-IsBacked_example =
    transfer_token-IsBacked env "gold" 20 alice bob context after_transfer okay_true backed refl

abbrev after_stx_transfer : GlobalContext SavedTables (Unit {0})
after_stx_transfer = (stx_transfer_consolidated env alice bob 70 context).1

stx_transfer_total_example :
    (stx_total after_stx_transfer.database.current ≡ stx_total tables)
    × ((okay_true ≡ okay_true) → env.sender ≡ some alice)
unfolding stx_transfer_consolidated clarity_repl.Tracker.add_memory
    clarity_repl.Database.Tables.Stx.can_transfer get_stx_balance_snapshot lookup transfer_to
    clarity_repl.Contexts.Global.log_stx_transfer AssetMap.add_stx_transfer
stx_transfer_total_example =
    stx_transfer_total env alice bob 70 context after_stx_transfer okay_true refl

abbrev after_mint : GlobalContext SavedTables (Unit {0})
after_mint = (mint_token env "gold" (uint 7) (principal bob) context).1

mint_token-IsBacked_example :
    IsBacked gold after_mint.database.current
    × (ft_total gold after_mint.database.current ≡ ft_total gold tables + 7)
unfolding mint_token lookup clarity_repl.Database.Tables.checked_increase_token_supply
    clarity_repl.Database.Tables.get_ft_balance clarity_repl.Tracker.add_memory
    clarity_repl.Database.Tables.set_ft_balance
mint_token-IsBacked_example =
    mint_token-IsBacked env "gold" 7 bob context after_mint okay_true backed refl

abbrev after_burn : GlobalContext SavedTables (Unit {0})
after_burn = (burn_token env "gold" (uint 15) (principal bob) context).1

burn_token-IsBacked_example :
    IsBacked gold after_burn.database.current
    × ((ft_total gold after_burn.database.current + 15 ≡ ft_total gold tables)
        ⊎ ((okay_true ≡ err_uint 1) × (after_burn ≡ context)))
unfolding burn_token clarity_repl.Database.Tables.get_ft_balance lookup
    clarity_repl.Database.Tables.checked_decrease_token_supply
    clarity_repl.Database.Tables.set_ft_balance clarity_repl.Tracker.add_memory
    clarity_repl.Contexts.Global.register_event clarity_repl.Contexts.Global.log_token_transfer
    AssetMap.add_token_transfer
burn_token-IsBacked_example =
    burn_token-IsBacked env "gold" 15 bob context after_burn okay_true backed refl

mint_amount_limit_example :
    (supply' : ℕ) × (lookup
        (token env "gold")
        (mint_amount env "gold" 900 bob context).1.database.current.circulating_supply
      ≡ some supply')
    × (supply' ≡ 100 + 900)
    × (supply' ≤ 1000)
unfolding lookup mint_amount clarity_repl.Database.Tables.checked_increase_token_supply
    clarity_repl.Database.Tables.get_ft_balance clarity_repl.Tracker.add_memory
    clarity_repl.Database.Tables.set_ft_balance
mint_amount_limit_example =
    mint_amount_limit env "gold" 900 1000 100 bob context (mint_amount env "gold" 900 bob context).1
      okay_true refl refl refl

alice_is_not_bob : alice ≢ bob
alice_is_not_bob = λ e. ground (arith, e, principal_beq_iff alice bob)

abbrev moved : ClarityDatabase
moved = (transfer_to (get_stx_balance_snapshot alice tables) bob 70 tables).1

transfer_to_total_example : stx_total moved ≡ stx_total tables
unfolding transfer_to get_stx_balance_snapshot lookup
transfer_to_total_example = transfer_to_total tables alice bob 70 moved alice_is_not_bob refl

abbrev moved_within : ClarityDatabase
moved_within = (transfer_to (get_stx_balance_snapshot alice tables) alice 70 tables).1

transfer_to_self_total_example : stx_total moved_within + 70 ≡ stx_total tables
unfolding transfer_to get_stx_balance_snapshot lookup
transfer_to_self_total_example = transfer_to_self_total tables alice alice 70 moved_within refl refl

transfer_to_iff_example :
    ((transfer_to (get_stx_balance_snapshot alice tables) bob 70 tables).0 ≡ ok tt)
    ↔ ((70 ≤ 80) × ((get_account_stx_balance bob tables).amount_unlocked + 70 < u128_mod))
unfolding get_available_balance_at_burn_block get_stx_balance_snapshot lookup
transfer_to_iff_example =
    transfer_to_iff tables (get_stx_balance_snapshot alice tables) bob 70 80 refl

transfer_to_error_example :
    ((transfer_to (get_stx_balance_snapshot alice tables) bob 81 tables
        ≡ (err (interpreter insufficient_balance), tables))
      ↔ (80 < 81))
    × ((transfer_to (get_stx_balance_snapshot alice tables) bob 81 tables
          ≡ (err (runtime arithmetic_overflow), tables))
        ↔ ((81 ≤ 80) × (u128_mod ≤ (get_account_stx_balance bob tables).amount_unlocked + 81)))
unfolding get_stx_balance_snapshot lookup get_available_balance_at_burn_block
transfer_to_error_example =
    transfer_to_error tables (get_stx_balance_snapshot alice tables) bob 81 80 refl

abbrev unlocked : StxBalanceSnapshot
unlocked = record {
  principal = alice;
  balance = record { amount_unlocked = 50; amount_locked = 30; unlock_height = 9 };
  burn_block_height = 10;
}

abbrev locked : StxBalanceSnapshot
locked = record {
  principal = alice;
  balance = record { amount_unlocked = 60; amount_locked = 20; unlock_height = 25 };
  burn_block_height = 10;
}

lock_tokens_available_example :
    (holding locked.balance ≡ holding unlocked.balance)
    × (get_available_balance_at_burn_block locked.balance 24 ≡ ok 60)
unfolding lock_tokens
lock_tokens_available_example = lock_tokens_available unlocked locked 20 25 24 (ground arith) refl
