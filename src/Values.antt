-- ===== src/Values.antt =====
-- The values of Clarity (src/clarity/types/mod.rs).
pub mod Equality
pub mod Make
pub mod Sequence
pub mod TypeOf
pub mod Utf8
use clarity_repl.Prelude.{ℕ, String, Bool, List}
use clarity_repl.Prelude.Int.{ℤ}
use clarity_repl.Types.{TypeSignature, TypeMap, PrincipalData}

-- `SequenceData` is written out. A list and a tuple carry their type (`ListTypeData`: entry type and
-- maximal length; `TupleTypeSignature`), as in the source. Bytes are numbers below 256; a UTF-8
-- string is a list of encoded characters. A tuple's `BTreeMap` is in the order of the names.
mutual
  pub data Value : Type 0 where
    int : ℤ → Value
    uint : ℕ → Value
    bool : Bool → Value
    buffer string_ascii : List ℕ → Value
    string_utf8 : List (List ℕ) → Value
    list : Values → TypeSignature → ℕ → Value
    principal : PrincipalData → Value
    tuple : Fields → TypeMap → Value
    none_value : Value
    some_value : Value → Value
    response : Bool → Value → Value

  pub data Values : Type 0 where
    nil : Values
    cons : Value → Values → Values

  pub data Fields : Type 0 where
    no_entries : Fields
    entry : String → Value → Fields → Fields
