-- ===== src/Types/Keys.antt =====
-- Equality of principals, contracts and traits (their derived `PartialEq`).
use clarity_repl.Prelude.{ℕ, ◌≡◌, ◌↔◌, Bool, true, false, ◌&&◌, arith, ◌==◌, ==_iff}
use clarity_repl.Prelude.Map.{Eq}
use clarity_repl.Prelude.Keys.{string_eq, nat_eq, list_eq}
use clarity_repl.Types.{
  StandardPrincipalData, QualifiedContractIdentifier, PrincipalData, standard, contract,
  TraitIdentifier,
}

abbrev pub standard_beq : StandardPrincipalData → StandardPrincipalData → Bool
standard_beq a b = a.version == b.version && (list_eq {A = ℕ}).beq a.hash b.hash

pub standard_beq_iff : (a b : StandardPrincipalData) → (standard_beq a b ≡ true) ↔ (a ≡ b)
standard_beq_iff a b =
    ground (arith, ==_iff a.version b.version, (list_eq {A = ℕ}).beq_iff a.hash b.hash)

instance abbrev pub standard_eq : Eq StandardPrincipalData
standard_eq = record { beq = standard_beq; beq_iff = standard_beq_iff }

abbrev pub contract_beq : QualifiedContractIdentifier → QualifiedContractIdentifier → Bool
contract_beq a b = standard_beq a.issuer b.issuer && string_eq.beq a.name b.name

pub contract_beq_iff : (a b : QualifiedContractIdentifier) → (contract_beq a b ≡ true) ↔ (a ≡ b)
contract_beq_iff a b =
    ground (arith, standard_beq_iff a.issuer b.issuer, string_eq.beq_iff a.name b.name)

instance abbrev pub contract_eq : Eq QualifiedContractIdentifier
contract_eq = record { beq = contract_beq; beq_iff = contract_beq_iff }

abbrev pub principal_beq : PrincipalData → PrincipalData → Bool
principal_beq (standard a) (standard b) = standard_beq a b
principal_beq (contract a) (contract b) = contract_beq a b
principal_beq _ _ = false

pub principal_beq_iff : (a b : PrincipalData) → (principal_beq a b ≡ true) ↔ (a ≡ b)
principal_beq_iff (standard a) (standard b) = ground (arith, standard_beq_iff a b)
principal_beq_iff (contract a) (contract b) = ground (arith, contract_beq_iff a b)
principal_beq_iff (standard a) (contract b) = ground arith
principal_beq_iff (contract a) (standard b) = ground arith

instance abbrev pub principal_eq : Eq PrincipalData
principal_eq = record { beq = principal_beq; beq_iff = principal_beq_iff }

abbrev pub trait_beq : TraitIdentifier → TraitIdentifier → Bool
trait_beq a b =
    string_eq.beq a.name b.name && contract_beq a.contract_identifier b.contract_identifier

pub trait_beq_iff : (a b : TraitIdentifier) → (trait_beq a b ≡ true) ↔ (a ≡ b)
trait_beq_iff a b = ground (
  arith,
  string_eq.beq_iff a.name b.name,
  contract_beq_iff a.contract_identifier b.contract_identifier,
)

instance abbrev pub trait_eq : Eq TraitIdentifier
trait_eq = record { beq = trait_beq; beq_iff = trait_beq_iff }
