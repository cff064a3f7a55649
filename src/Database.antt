-- ===== src/Database.antt =====
-- The storage under the interpreter, src/clarity/database: what every backing store offers (the
-- trait `ClarityBackingStore` of clarity_db.rs), and the modules that implement and use it.

pub mod Datastore
pub mod EditLog
pub mod Tables
pub mod Wrapper
use clarity_repl.Prelude.{ℕ, String, Bool, Option, List}
use clarity_repl.Prelude.Method.{Method}
use clarity_repl.Errors.{Error}
use clarity_repl.Types.{QualifiedContractIdentifier}

-- The 32 bytes of a block's identifier.
abbrev pub StacksBlockId : Type 0
StacksBlockId = List ℕ

pub record ClarityBackingStore (S : Type 0) : Type 0 where
  pub put_all : List (String × String) → Method S Error (Unit {0})
  pub get : String → Method S Error (Option String)
  pub has_entry : String → Method S Error Bool
  pub set_block_hash : StacksBlockId → Method S Error StacksBlockId
  pub get_block_at_height : ℕ → Method S Error (Option StacksBlockId)
  pub get_current_block_height : Method S Error ℕ
  pub insert_metadata : QualifiedContractIdentifier → String → String → Method S Error (Unit {0})
  pub get_metadata : QualifiedContractIdentifier → String → Method S Error (Option String)
