-- ===== src/Database/Tables/Stx.antt =====
-- `STXBalance` and `STXBalanceSnapshot` of src/clarity/database/structures.rs. A failed `expect` or
-- `assert!` is a panic.
use clarity_repl.Prelude.{ℕ, Bool, true, false, ◌&&◌, ltb, leb, if◌then◌else◌}
use clarity_repl.Prelude.Result.{
  Result, ok, err, panic, unwrap, ok_or, fail_if, assert, ◌>>=◌, ◌>>◌,
}
use clarity_repl.Prelude.Machine.{u128_mod, checked_add, checked_sub}
use clarity_repl.Prelude.Map.{lookup, insert}
use clarity_repl.Types.{PrincipalData}
use clarity_repl.Types.Keys.{principal_eq}
use clarity_repl.Errors.{Error, runtime, interpreter, arithmetic_overflow, insufficient_balance}
use clarity_repl.Database.Tables.{StxBalance, ClarityDatabase, Db, value_or}

abbrev pub zero : StxBalance
zero = record { amount_unlocked = 0; amount_locked = 0; unlock_height = 0 }

abbrev pub initial : ℕ → StxBalance
initial amount_unlocked = record {
  amount_unlocked = amount_unlocked;
  amount_locked = 0;
  unlock_height = 0;
}

module _ (b : StxBalance) (burn_block_height : ℕ) where
  abbrev pub has_locked_tokens_at_burn_block : Bool
  has_locked_tokens_at_burn_block = ltb 0 b.amount_locked && ltb burn_block_height b.unlock_height

  abbrev pub has_unlockable_tokens_at_burn_block : Bool
  has_unlockable_tokens_at_burn_block =
      ltb 0 b.amount_locked && leb b.unlock_height burn_block_height

unfoldable pub get_total_balance : StxBalance → Result Error ℕ
get_total_balance b = unwrap (checked_add u128_mod b.amount_unlocked b.amount_locked)

unfoldable pub get_available_balance_at_burn_block : StxBalance → ℕ → Result Error ℕ
unfolding get_total_balance
get_available_balance_at_burn_block b burn_block_height =
    if has_unlockable_tokens_at_burn_block b burn_block_height
    then get_total_balance b
    else ok b.amount_unlocked

unfoldable pub get_locked_balance_at_burn_block : StxBalance → ℕ → ℕ × ℕ
get_locked_balance_at_burn_block b burn_block_height =
    if has_unlockable_tokens_at_burn_block b burn_block_height
    then (0, 0)
    else (b.amount_locked, b.unlock_height)

-- The database that a snapshot refers to is passed beside it.
pub record StxBalanceSnapshot : Type 0 where
  pub principal : PrincipalData
  pub balance : StxBalance
  pub burn_block_height : ℕ

unfoldable pub get_account_stx_balance : PrincipalData → ClarityDatabase → StxBalance
get_account_stx_balance principal d = value_or zero (lookup principal d.accounts)

unfoldable pub get_stx_balance_snapshot : PrincipalData → ClarityDatabase → StxBalanceSnapshot
unfolding get_account_stx_balance
get_stx_balance_snapshot principal d = record {
  principal = principal;
  balance = get_account_stx_balance principal d;
  burn_block_height = d.burnchain_block_height;
}

module _ (s : StxBalanceSnapshot) where
  unfoldable pub can_transfer : ℕ → Result Error Bool
  unfolding get_available_balance_at_burn_block
  can_transfer amount = do
    available ← get_available_balance_at_burn_block s.balance s.burn_block_height
    ok (leb amount available)

  -- What is unlockable is moved to the unlocked amount.
  unfoldable pub unlock_available_tokens_if_any : Result Error StxBalanceSnapshot
  unlock_available_tokens_if_any =
      if has_unlockable_tokens_at_burn_block s.balance s.burn_block_height
      then (do
        amount ← unwrap (checked_add u128_mod s.balance.amount_unlocked s.balance.amount_locked)
        ok (record s {
          balance = record { amount_unlocked = amount; amount_locked = 0; unlock_height = 0 };
        }))
      else ok s

  unfoldable pub debit : ℕ → Result Error StxBalanceSnapshot
  unfolding unlock_available_tokens_if_any
  debit amount = do
    u ← unlock_available_tokens_if_any
    left ← unwrap (checked_sub u.balance.amount_unlocked amount)
    ok (record u { balance = record u.balance { amount_unlocked = left } })

  unfoldable pub credit : ℕ → Result Error StxBalanceSnapshot
  unfolding unlock_available_tokens_if_any
  credit amount = do
    u ← unlock_available_tokens_if_any
    sum ← unwrap (checked_add u128_mod u.balance.amount_unlocked amount)
    ok (record u { balance = record u.balance { amount_unlocked = sum } })

  unfoldable pub lock_tokens : ℕ → ℕ → Result Error StxBalanceSnapshot
  unfolding unlock_available_tokens_if_any
  lock_tokens amount_to_lock unlock_burn_height = do
    u ← unlock_available_tokens_if_any
    assert (ltb 0 amount_to_lock)
    assert (ltb u.burn_block_height unlock_burn_height)
    assert (if has_locked_tokens_at_burn_block u.balance u.burn_block_height then false else true)
    left ← unwrap (checked_sub u.balance.amount_unlocked amount_to_lock)
    ok (record u {
      balance = record {
        amount_unlocked = left;
        amount_locked = amount_to_lock;
        unlock_height = unlock_burn_height;
      };
    })

  abbrev pub save : ClarityDatabase → ClarityDatabase
  save d = record d { accounts = insert s.principal s.balance d.accounts }

-- The recipient's balance as the transfer leaves it: its locked part is not touched.
unfoldable pub credited : PrincipalData → ℕ → ClarityDatabase → Result Error StxBalance
credited recipient amount d =
    let b = value_or zero (lookup recipient d.accounts) in
    (do
      sum ← ok_or (checked_add u128_mod b.amount_unlocked amount) (runtime arithmetic_overflow)
      ok (record b { amount_unlocked = sum }))

unfoldable pub transfer_to : StxBalanceSnapshot → PrincipalData → ℕ → Db (Unit {0})
unfolding can_transfer credited debit
transfer_to s recipient amount d = elim outcome [
  | ok (recipient_balance, u) ↦
      (ok tt, save u (record d { accounts = insert recipient recipient_balance d.accounts }))
  | err e ↦ (err e, d)
  | panic ↦ (panic, d)
]
  where
    outcome : Result Error (StxBalance × StxBalanceSnapshot)
    outcome = do
      able ← can_transfer s amount
      fail_if (if able then false else true) (interpreter insufficient_balance)
      recipient_balance ← credited recipient amount d
      u ← debit s amount
      ok (recipient_balance, u)
