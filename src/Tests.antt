-- ===== src/Tests.antt =====
-- Concrete inputs on which the theorems are applied.
mod Blocks
mod Tokens
mod Storage
mod Format
mod Frames
mod Sequences
mod Numbers
mod Syntax
use clarity_repl.Prelude.{ℕ, String, List, [], ◌∷◌}
use clarity_repl.Types.{StandardPrincipalData, PrincipalData, standard, QualifiedContractIdentifier}

abbrev pub issuer : StandardPrincipalData
issuer = record { version = 26; hash = 7 ∷ [] }

abbrev pub alice : PrincipalData
alice = standard (record { version = 26; hash = 1 ∷ [] })

abbrev pub bob : PrincipalData
bob = standard (record { version = 26; hash = 2 ∷ [] })

abbrev pub demo : QualifiedContractIdentifier
demo = record { issuer = issuer; name = "demo" }
