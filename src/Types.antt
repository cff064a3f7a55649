-- ===== src/Types.antt =====
-- The types of Clarity values (src/clarity/types/signatures.rs): the data, sizes and depths.
pub mod Keys
pub mod Size
pub mod Build
pub mod Admits
pub mod Limits
pub mod Laws
use clarity_repl.Prelude.{ℕ, suc, ◌*◌, ◌+◌, String, Bool, true, false, List, Option, none, some}
use text.Mathlib.Text.{◌==◌}
use clarity_repl.Prelude.{if◌then◌else◌}

-- src/clarity/types/mod.rs; a principal's 20-byte hash and the names are opaque here
pub record StandardPrincipalData : Type 0 where
  pub version : ℕ
  pub hash : List ℕ

pub record QualifiedContractIdentifier : Type 0 where
  pub issuer : StandardPrincipalData
  pub name : String

pub data PrincipalData : Type 0 where
  standard : StandardPrincipalData → PrincipalData
  contract : QualifiedContractIdentifier → PrincipalData

pub record TraitIdentifier : Type 0 where
  pub name : String
  pub contract_identifier : QualifiedContractIdentifier

-- `SequenceType` is written out: a buffer, a list (`ListTypeData`) or one of two kinds of string.
-- A tuple's `BTreeMap<ClarityName, TypeSignature>` is a list of fields in the order of the names.
mutual
  pub data TypeSignature : Type 0 where
    no_type int_type uint_type bool_type principal_type : TypeSignature
    buffer_type string_ascii_type string_utf8_type : ℕ → TypeSignature
    list_type : TypeSignature → ℕ → TypeSignature
    tuple_type : TypeMap → TypeSignature
    optional_type : TypeSignature → TypeSignature
    response_type : TypeSignature → TypeSignature → TypeSignature
    trait_reference_type : TraitIdentifier → TypeSignature

  pub data TypeMap : Type 0 where
    no_fields : TypeMap
    field : String → TypeSignature → TypeMap → TypeMap

abbrev pub max_value_size : ℕ
max_value_size = 1024 * 1024

abbrev pub max_type_depth : ℕ
max_type_depth = 32

abbrev pub wrapper_value_size : ℕ
wrapper_value_size = 1

unfoldable pub is_no_type : TypeSignature → Bool
is_no_type no_type = true
is_no_type _ = false

-- `type_map.len()` and `type_map.get(name)`
unfoldable pub len : TypeMap → ℕ
len no_fields = 0
len (field name t rest) = suc (len rest)

unfoldable pub field_type : TypeMap → String → Option TypeSignature
field_type no_fields k = none
field_type (field name t rest) k = if name == k then some t else field_type rest k
