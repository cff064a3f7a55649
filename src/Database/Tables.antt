-- ===== src/Database/Tables.antt =====
-- The typed part of `ClarityDatabase` (src/clarity/database/clarity_db.rs) that holds accounts and
-- tokens. Each kind of key (`make_key_for_account_balance`, `make_key_for_trip`,
-- `make_key_for_quad`) is a table of its own, with the value that is serialized under it.
pub mod Stx
pub mod Conservation
use clarity_repl.Prelude.{
  ℕ, ◌+◌, ◌-◌, String, Bool, true, false, Option, none, some, List, [], ◌∷◌, ltb, if◌then◌else◌,
}
use clarity_repl.Prelude.Result.{Result, ok, err, panic, unwrap, ok_or, fail_if}
use clarity_repl.Prelude.Machine.{u128_mod, checked_add, checked_sub}
use clarity_repl.Prelude.Map.{Map, Eq, lookup, insert}
use clarity_repl.Prelude.Keys.{string_eq, pair_eq}
use clarity_repl.Prelude.Method.{Method, pure, raise, lift, try, gets, modify, ◌>>=◌, ◌>>◌}
use clarity_repl.Types.{QualifiedContractIdentifier, PrincipalData}
use clarity_repl.Types.Keys.{contract_eq, principal_eq}
use clarity_repl.Errors.{
  Error, runtime, unchecked, arithmetic_overflow, arithmetic_underflow, supply_overflow,
  supply_underflow, no_such_ft,
}

-- src/clarity/database/structures.rs
pub record StxBalance : Type 0 where
  pub amount_unlocked : ℕ
  pub amount_locked : ℕ
  pub unlock_height : ℕ

pub record FungibleTokenMetadata : Type 0 where
  pub total_supply : Option ℕ

-- A token of a contract.
abbrev pub Token : Type 0
Token = QualifiedContractIdentifier × String

pub record ClarityDatabase : Type 0 where
  pub accounts : Map PrincipalData StxBalance
  pub ustx_liquid_supply : ℕ
  pub ft_metadata : Map Token FungibleTokenMetadata
  pub circulating_supply : Map Token ℕ
  pub ft_balances : Map (Token × PrincipalData) ℕ
  pub burnchain_block_height : ℕ

abbrev pub Db : Type 0 → Type 0
Db A = Method ClarityDatabase Error A

abbrev pub value_or : {A : Type 0} → A → Option A → A
value_or a none = a
value_or a (some b) = b

unfoldable pub increment_ustx_liquid_supply : ℕ → Db (Unit {0})
increment_ustx_liquid_supply incr_by = do
  next ←
      try (λ d.
        ok_or (checked_add u128_mod d.ustx_liquid_supply incr_by) (runtime arithmetic_overflow))
  modify (λ d. record d { ustx_liquid_supply = next })

unfoldable pub decrement_ustx_liquid_supply : ℕ → Db (Unit {0})
decrement_ustx_liquid_supply decr_by = do
  next ← try (λ d. ok_or (checked_sub d.ustx_liquid_supply decr_by) (runtime arithmetic_underflow))
  modify (λ d. record d { ustx_liquid_supply = next })

unfoldable pub create_fungible_token : Token → Option ℕ → Db FungibleTokenMetadata
create_fungible_token token total_supply = do
  modify (λ d. record d {
    ft_metadata = insert token (record { total_supply = total_supply }) d.ft_metadata;
    circulating_supply = insert token 0 d.circulating_supply;
  })
  pure (record { total_supply = total_supply })

unfoldable pub load_ft : Token → Db FungibleTokenMetadata
load_ft token = try (λ d. ok_or (lookup token d.ft_metadata) (unchecked (no_such_ft token.1)))

-- `if let Some(total_supply) = descriptor.total_supply { if new_supply > total_supply { .. } }`
abbrev pub check_supply : ℕ → FungibleTokenMetadata → Result Error (Unit {0})
check_supply new_supply descriptor = elim descriptor.total_supply [
  | none ↦ ok tt
  | some total_supply ↦
      fail_if (ltb total_supply new_supply) (runtime (supply_overflow new_supply total_supply))
]

unfoldable pub checked_increase_token_supply : Token → ℕ → FungibleTokenMetadata → Db (Unit {0})
checked_increase_token_supply token amount descriptor = do
  current_supply ← try (λ d. unwrap (lookup token d.circulating_supply))
  new_supply ←
      lift (ok_or (checked_add u128_mod current_supply amount) (runtime arithmetic_overflow))
  lift (check_supply new_supply descriptor)
  modify (λ d. record d { circulating_supply = insert token new_supply d.circulating_supply })

unfoldable pub checked_decrease_token_supply : Token → ℕ → Db (Unit {0})
checked_decrease_token_supply token amount = do
  current_supply ← try (λ d. unwrap (lookup token d.circulating_supply))
  lift (fail_if (ltb current_supply amount) (runtime (supply_underflow current_supply amount)))
  modify (λ d. record d {
    circulating_supply = insert token (current_supply - amount) d.circulating_supply;
  })

-- without a descriptor, the token's metadata has to be there
unfoldable pub get_ft_balance : Token → PrincipalData → Option FungibleTokenMetadata → Db ℕ
unfolding load_ft
get_ft_balance token principal descriptor = do
  elim descriptor [ none ↦ (do load_ft token; pure tt) | some d ↦ pure tt ]
  gets (λ d. value_or 0 (lookup (token, principal) d.ft_balances))

unfoldable pub set_ft_balance : Token → PrincipalData → ℕ → Db (Unit {0})
set_ft_balance token principal balance =
    modify (λ d. record d { ft_balances = insert (token, principal) balance d.ft_balances })

unfoldable pub get_ft_supply : Token → Db ℕ
get_ft_supply token = try (λ d. unwrap (lookup token d.circulating_supply))
