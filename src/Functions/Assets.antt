-- ===== src/Functions/Assets.antt =====
-- The token functions of src/clarity/functions/assets.rs, from the point where the arguments are
-- evaluated and the cost of the call is charged: `special_mint_token`, `special_transfer_token`,
-- `special_burn_token`, `stx_transfer_consolidated` and `special_stx_burn`.
pub mod Laws
use clarity_repl.Prelude.{
  ℕ, ◌-◌, String, Bool, true, false, Option, none, some, List, [], ◌∷◌, ltb, ◌==◌, if◌then◌else◌,
  ◌≡◌, refl,
}
use clarity_repl.Prelude.Result.{Result, ok, err, panic, unwrap, ok_or}
use clarity_repl.Prelude.Machine.{u128_mod, checked_add}
use clarity_repl.Prelude.Map.{Map, lookup}
use clarity_repl.Prelude.Keys.{string_eq}
use clarity_repl.Prelude.Method.{Method, pure, raise, crash, lift, try, gets, modify, ◌>>=◌, ◌>>◌}
use clarity_repl.Types.{QualifiedContractIdentifier, PrincipalData}
use clarity_repl.Types.Keys.{principal_eq}
use clarity_repl.Errors.{
  Error, unchecked, runtime, arithmetic_overflow, no_such_ft, bad_transfer_ft_arguments,
  bad_mint_ft_arguments, bad_burn_ft_arguments, bad_transfer_stx_arguments, from_cost_errors,
}
use clarity_repl.Values.{Value, uint, principal}
use clarity_repl.Values.TypeOf.{okay_true, err_uint}
use clarity_repl.Tracker
use clarity_repl.Tracker.{LimitedCostTracker}
use clarity_repl.Database.Tables.{
  ClarityDatabase, FungibleTokenMetadata, Token, get_ft_balance, set_ft_balance,
  checked_increase_token_supply, checked_decrease_token_supply, decrement_ustx_liquid_supply,
}
use clarity_repl.Database.Tables.Stx.{
  StxBalanceSnapshot, get_stx_balance_snapshot, can_transfer, transfer_to, debit, save,
}
use clarity_repl.Contexts.Events.{
  StacksTransactionEvent, stx_transfer_event, stx_burn_event, ft_mint_event, ft_transfer_event,
  ft_burn_event,
}
use clarity_repl.Contexts.Global.{
  GlobalContext, Transactional, log_token_transfer, log_stx_transfer, log_stx_burn, register_event,
}

-- The database under its savepoints: `begin` saves the tables, `roll_back` brings them back.
pub record SavedTables : Type 0 where
  pub current : ClarityDatabase
  pub saved : List ClarityDatabase

-- What stays fixed during a call: the contract with its tokens, and the sender.
pub record Environment : Type 0 where
  pub contract_identifier : QualifiedContractIdentifier
  pub meta_ft : Map String FungibleTokenMetadata
  pub sender : Option PrincipalData

-- `TypeSignature::PrincipalType.size()`, `TypeSignature::UIntType.size()`, `StxBalance::size_of`
abbrev pub principal_size : ℕ
principal_size = 148

abbrev pub uint_size : ℕ
uint_size = 16

abbrev pub stx_balance_size : ℕ
stx_balance_size = 40

module _ {Contract : Type 0} where
  -- a call of the database, and of the tracker for memory
  unfoldable pub on_tables :
      {A : Type 0}
      → Method ClarityDatabase Error A
      → Method (GlobalContext SavedTables Contract) Error A
  on_tables call g =
      let (r, d) = call g.database.current in
      (r, record g { database = record g.database { current = d } })

  unfoldable pub add_memory : ℕ → Method (GlobalContext SavedTables Contract) Error (Unit {0})
  add_memory n g =
      let (r, t) = Tracker.add_memory n g.cost_track in
      (
        elim r [ ok u ↦ ok tt | err e ↦ err (unchecked (from_cost_errors e)) | panic ↦ panic ],
        record g { cost_track = t },
      )

module _ (env : Environment) where
  abbrev pub token : String → Token
  token token_name = (env.contract_identifier, token_name)

  -- `Some(from) != env.sender.as_ref()`
  abbrev pub is_sender : PrincipalData → Bool
  is_sender from = elim env.sender [ none ↦ false | some s ↦ principal_eq.beq s from ]

module _ {Contract : Type 0} (env : Environment) where
  abbrev pub ft_info :
      String → Method (GlobalContext SavedTables Contract) Error FungibleTokenMetadata
  ft_info token_name =
      lift (ok_or (lookup token_name env.meta_ft) (unchecked (no_such_ft token_name)))

  unfoldable pub mint_amount :
      String → ℕ → PrincipalData → Method (GlobalContext SavedTables Contract) Error Value
  unfolding on_tables add_memory
  mint_amount token_name amount to_principal = do
    info ← ft_info token_name
    on_tables (checked_increase_token_supply (token env token_name) amount info)
    to_bal ← on_tables (get_ft_balance (token env token_name) to_principal (some info))
    final_to_bal ← lift (unwrap (checked_add u128_mod to_bal amount))
    add_memory principal_size
    add_memory uint_size
    on_tables (set_ft_balance (token env token_name) to_principal final_to_bal)
    modify (register_event (ft_mint_event to_principal (token env token_name) amount))
    pure okay_true

  unfoldable pub mint_token :
      String → Value → Value → Method (GlobalContext SavedTables Contract) Error Value
  unfolding mint_amount
  mint_token token_name (uint amount) (principal to_principal) =
      if amount == 0 then pure (err_uint 1) else mint_amount token_name amount to_principal
  mint_token token_name _ _ = raise (unchecked bad_mint_ft_arguments)

  unfoldable pub move_amount :
      String
      → ℕ
      → PrincipalData
      → PrincipalData
      → ℕ
      → FungibleTokenMetadata
      → Method (GlobalContext SavedTables Contract) Error Value
  unfolding on_tables add_memory
  move_amount token_name amount from_principal to_principal from_bal info = do
    to_bal ← on_tables (get_ft_balance (token env token_name) to_principal (some info))
    final_to_bal ← lift (ok_or (checked_add u128_mod to_bal amount) (runtime arithmetic_overflow))
    add_memory principal_size
    add_memory principal_size
    add_memory uint_size
    add_memory uint_size
    on_tables (set_ft_balance (token env token_name) from_principal (from_bal - amount))
    on_tables (set_ft_balance (token env token_name) to_principal final_to_bal)
    log_token_transfer from_principal env.contract_identifier token_name amount
    modify (
        register_event
          (ft_transfer_event from_principal to_principal (token env token_name) amount))
    pure okay_true

  unfoldable pub transfer_token :
      String → Value → Value → Value → Method (GlobalContext SavedTables Contract) Error Value
  unfolding on_tables move_amount
  transfer_token token_name (uint amount) (principal from_principal) (principal to_principal) =
      if amount == 0
      then pure (err_uint 3)
      else if principal_eq.beq from_principal to_principal
      then pure (err_uint 2)
      else (do
        info ← ft_info token_name
        from_bal ← on_tables (get_ft_balance (token env token_name) from_principal (some info))
        if ltb from_bal amount
            then pure (err_uint 1)
            else move_amount token_name amount from_principal to_principal from_bal info)
  transfer_token token_name _ _ _ = raise (unchecked bad_transfer_ft_arguments)

  unfoldable pub burn_amount :
      String → ℕ → PrincipalData → ℕ → Method (GlobalContext SavedTables Contract) Error Value
  unfolding on_tables add_memory
  burn_amount token_name amount burner burner_bal = do
    on_tables (checked_decrease_token_supply (token env token_name) amount)
    on_tables (set_ft_balance (token env token_name) burner (burner_bal - amount))
    modify (register_event (ft_burn_event burner (token env token_name) amount))
    add_memory principal_size
    add_memory uint_size
    log_token_transfer burner env.contract_identifier token_name amount
    pure okay_true

  -- The code of a burn of nothing is that of `MintTokenErrorCodes`, as in the source.
  unfoldable pub burn_token :
      String → Value → Value → Method (GlobalContext SavedTables Contract) Error Value
  unfolding on_tables burn_amount
  burn_token token_name (uint amount) (principal burner) =
      if amount == 0 then pure (err_uint 1) else (do
        burner_bal ← on_tables (get_ft_balance (token env token_name) burner none)
        if ltb burner_bal amount
            then pure (err_uint 1)
            else burn_amount token_name amount burner burner_bal)
  burn_token token_name _ _ = raise (unchecked bad_burn_ft_arguments)

  unfoldable pub stx_transfer_consolidated :
      PrincipalData → PrincipalData → ℕ → Method (GlobalContext SavedTables Contract) Error Value
  unfolding on_tables add_memory
  stx_transfer_consolidated from to amount =
      if amount == 0
      then pure (err_uint 3)
      else if principal_eq.beq from to
      then pure (err_uint 2)
      else if is_sender env from
      then (do
        add_memory principal_size
        add_memory principal_size
        add_memory stx_balance_size
        add_memory stx_balance_size
        snapshot ← gets (λ g. get_stx_balance_snapshot from g.database.current)
        able ← lift (can_transfer snapshot amount)
        if able
            then (do
              on_tables (transfer_to snapshot to amount)
              log_stx_transfer from amount
              modify (register_event (stx_transfer_event from to amount))
              pure okay_true)
            else pure (err_uint 1))
      else pure (err_uint 4)

  unfoldable pub stx_burn : Value → Value → Method (GlobalContext SavedTables Contract) Error Value
  unfolding on_tables add_memory
  stx_burn (uint amount) (principal from) =
      if amount == 0
      then pure (err_uint 3)
      else if is_sender env from
      then (do
        add_memory principal_size
        add_memory stx_balance_size
        snapshot ← gets (λ g. get_stx_balance_snapshot from g.database.current)
        able ← lift (can_transfer snapshot amount)
        if able
            then (do
              left ← lift (debit snapshot amount)
              on_tables (modify (save left))
              on_tables (decrement_ustx_liquid_supply amount)
              log_stx_burn from amount
              modify (register_event (stx_burn_event from amount))
              pure okay_true)
            else pure (err_uint 1))
      else pure (err_uint 4)
  stx_burn _ _ = raise (unchecked bad_transfer_stx_arguments)
