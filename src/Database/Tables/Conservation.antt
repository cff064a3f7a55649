-- ===== src/Database/Tables/Conservation.antt =====
-- STX balances (src/clarity/database/structures.rs) under transfers and locks, and their sum.
use clarity_repl.Prelude.{
  ltb, ℕ, ◌+◌, ◌-◌, ◌≤◌, ◌<◌, ◌≡◌, ◌≢◌, ◌↔◌, Option, none, some, arith, if◌then◌else◌, refl,
}
use clarity_repl.Prelude.Result.{Result, ok, err, panic}
use clarity_repl.Prelude.Machine.{u128_mod}
use clarity_repl.Prelude.Map.{lookup, insert, total, measure, total-insert, lookup-insert, beq_refl}
use clarity_repl.Types.{PrincipalData}
use clarity_repl.Types.Keys.{principal_eq, principal_beq_iff}
use clarity_repl.Errors.{Error, runtime, interpreter, arithmetic_overflow, insufficient_balance}
use clarity_repl.Database.Tables.{StxBalance, ClarityDatabase, value_or}
use clarity_repl.Database.Tables.Stx.{
  zero, StxBalanceSnapshot, get_account_stx_balance, get_stx_balance_snapshot, can_transfer,
  get_available_balance_at_burn_block, unlock_available_tokens_if_any, debit, lock_tokens, credited,
  transfer_to, get_total_balance,
}

abbrev pub holding : StxBalance → ℕ
holding b = b.amount_unlocked + b.amount_locked

-- all the STX that the accounts hold, locked or not
abbrev pub stx_total : ClarityDatabase → ℕ
stx_total d = total (λ p b. holding b) d.accounts

module _ (d : ClarityDatabase) (from recipient : PrincipalData) (amount : ℕ) where
  -- A debit takes the amount out of what the account holds, after any unlocking.
  pub debit-holding :
      (s u : StxBalanceSnapshot)
      → debit s amount ≡ ok u
      → (holding u.balance + amount ≡ holding s.balance) × (u.principal ≡ s.principal)
  unfolding debit unlock_available_tokens_if_any
  debit-holding s u h = ground arith

  credited-holding :
      (b : StxBalance)
      → credited recipient amount d ≡ ok b
      → holding b ≡ holding (get_account_stx_balance recipient d) + amount
  unfolding credited get_account_stx_balance
  credited-holding b h = ground arith

  -- The two accounts that a transfer writes.
  pub transfer_to_writes :
      (s : StxBalanceSnapshot) (d' : ClarityDatabase)
      → transfer_to s recipient amount d ≡ (ok tt, d')
      → (b : StxBalance) × (u : StxBalanceSnapshot) × (credited recipient amount d ≡ ok b)
        × (debit s amount ≡ ok u)
        × (d'.accounts ≡ insert u.principal u.balance (insert recipient b d.accounts))
  unfolding transfer_to
  transfer_to_writes s d' h = go (credited recipient amount d) (debit s amount) refl refl
    where
      go :
          (c : Result Error StxBalance) (r : Result Error StxBalanceSnapshot)
          → credited recipient amount d ≡ c
          → debit s amount ≡ r
          → (b : StxBalance) × (u : StxBalanceSnapshot) × (credited recipient amount d ≡ ok b)
            × (debit s amount ≡ ok u)
            × (d'.accounts ≡ insert u.principal u.balance (insert recipient b d.accounts))
      go (ok b) (ok u) hc hd = (b, u, hc, hd, ground arith)
      go (ok b) (err e) hc hd = ground arith
      go (ok b) panic hc hd = ground arith
      go (err e) r hc hd = ground arith
      go panic r hc hd = ground arith

  holding-measure :
      (p : PrincipalData) (o : Option StxBalance)
      → measure (λ p b. holding b) p o ≡ holding (value_or zero o)
  holding-measure p none = refl
  holding-measure p (some b) = refl

  -- A successful transfer of STX from the snapshot of one account to a different account keeps
  -- the sum of all balances, locked and unlocked, also when the transfer unlocks tokens.
  pub transfer_to_total :
      (d' : ClarityDatabase)
      → from ≢ recipient
      → transfer_to (get_stx_balance_snapshot from d) recipient amount d ≡ (ok tt, d')
      → stx_total d' ≡ stx_total d
  unfolding get_stx_balance_snapshot get_account_stx_balance
  transfer_to_total d' ne h =
      let s = get_stx_balance_snapshot from d in
      let (b, u, hc, hd, acc) = transfer_to_writes s d' h in
      ground (
        arith,
        acc,
        debit-holding s u hd,
        credited-holding b hc,
        total-insert (λ p b. holding b) u.principal u.balance (insert recipient b d.accounts),
        total-insert (λ p b. holding b) recipient b d.accounts,
        lookup-insert recipient from b d.accounts,
        holding-measure from (lookup from d.accounts),
        holding-measure recipient (lookup recipient d.accounts),
        principal_beq_iff recipient from,
      )

  -- A successful transfer of STX from the snapshot of an account to the same account, which the
  -- callers rule out, destroys exactly the amount.
  pub transfer_to_self_total :
      (d' : ClarityDatabase)
      → from ≡ recipient
      → transfer_to (get_stx_balance_snapshot from d) recipient amount d ≡ (ok tt, d')
      → stx_total d' + amount ≡ stx_total d
  unfolding get_stx_balance_snapshot get_account_stx_balance
  transfer_to_self_total d' same h =
      let s = get_stx_balance_snapshot from d in
      let (b, u, hc, hd, acc) = transfer_to_writes s d' h in
      ground (
        arith,
        acc,
        same,
        debit-holding s u hd,
        total-insert (λ p b. holding b) u.principal u.balance (insert recipient b d.accounts),
        total-insert (λ p b. holding b) recipient b d.accounts,
        lookup-insert recipient from b d.accounts,
        beq_refl recipient,
        holding-measure recipient (lookup recipient d.accounts),
      )

-- Given the available balance of a snapshot, a transfer succeeds exactly when the amount is at
-- most that balance and the recipient's unlocked balance has room for it in u128.
pub transfer_to_iff :
    (d : ClarityDatabase) (s : StxBalanceSnapshot) (recipient : PrincipalData)
    (amount available : ℕ)
    → get_available_balance_at_burn_block s.balance s.burn_block_height ≡ ok available
    → ((transfer_to s recipient amount d).0 ≡ ok tt) ↔ (
        (amount ≤ available)
        × ((get_account_stx_balance recipient d).amount_unlocked + amount < u128_mod))
unfolding transfer_to can_transfer credited debit unlock_available_tokens_if_any
    get_account_stx_balance get_available_balance_at_burn_block get_total_balance
transfer_to_iff d s recipient amount available h = ground arith

-- Given the available balance of a snapshot, a transfer fails with InsufficientBalance exactly
-- when the amount is more than that balance, and with ArithmeticOverflow exactly when the amount
-- is available and the recipient's unlocked balance has no room for it in u128, and either way it
-- leaves the database as it was.
pub transfer_to_error :
    (d : ClarityDatabase) (s : StxBalanceSnapshot) (recipient : PrincipalData)
    (amount available : ℕ)
    → get_available_balance_at_burn_block s.balance s.burn_block_height ≡ ok available
    → ((transfer_to s recipient amount d ≡ (err (interpreter insufficient_balance), d))
        ↔ (available < amount))
      × ((transfer_to s recipient amount d ≡ (err (runtime arithmetic_overflow), d)) ↔ (
          (amount ≤ available)
          × (u128_mod ≤ (get_account_stx_balance recipient d).amount_unlocked + amount)))
unfolding transfer_to can_transfer credited debit unlock_available_tokens_if_any
    get_account_stx_balance get_available_balance_at_burn_block get_total_balance
transfer_to_error d s recipient amount available h = ground arith

-- On an account whose whole holding fits in u128, a successful lock keeps the holding, makes all
-- but the locked amount available before the unlock height, and makes all of it available from
-- then on.
pub lock_tokens_available :
    (s u : StxBalanceSnapshot) (amount height now : ℕ)
    → holding s.balance < u128_mod
    → lock_tokens s amount height ≡ ok u
    → (holding u.balance ≡ holding s.balance)
      × (get_available_balance_at_burn_block u.balance now
          ≡ ok (if ltb now height then holding s.balance - amount else holding s.balance))
unfolding lock_tokens unlock_available_tokens_if_any get_available_balance_at_burn_block
    get_total_balance
lock_tokens_available s u amount height now r h = ground arith
