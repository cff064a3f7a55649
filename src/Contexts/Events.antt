-- ===== src/Contexts/Events.antt =====
-- The events of a transaction: src/clarity/events.rs, and `EventBatch` of src/clarity/contexts.rs.
use clarity_repl.Prelude.{ℕ, String, List}
use clarity_repl.Types.{QualifiedContractIdentifier, PrincipalData}
use clarity_repl.Values.{Value}
use clarity_repl.Contexts.AssetMap.{AssetIdentifier}

-- The groups of events (smart contract, STX, NFT and FT events) are one type; the names of the
-- fields are the positions: sender, recipient, asset, amount or value.
pub data StacksTransactionEvent : Type 0 where
  smart_contract_event : QualifiedContractIdentifier → String → Value → StacksTransactionEvent
  stx_transfer_event : PrincipalData → PrincipalData → ℕ → StacksTransactionEvent
  stx_mint_event stx_burn_event : PrincipalData → ℕ → StacksTransactionEvent
  nft_transfer_event :
      PrincipalData → PrincipalData → AssetIdentifier → Value → StacksTransactionEvent
  nft_mint_event nft_burn_event : PrincipalData → AssetIdentifier → Value → StacksTransactionEvent
  ft_transfer_event : PrincipalData → PrincipalData → AssetIdentifier → ℕ → StacksTransactionEvent
  ft_mint_event ft_burn_event : PrincipalData → AssetIdentifier → ℕ → StacksTransactionEvent

abbrev pub EventBatch : Type 0
EventBatch = List StacksTransactionEvent
