-- ===== src/Lib.antt =====
-- Clarity, the smart-contract language of this repository, as its interpreter runs it.
--
-- The program and its parts. A Clarity program is evaluated in a stack of contexts
-- (src/clarity/contexts.rs): a GlobalContext keeps, for each open context, an asset map of what was
-- moved, a batch of events and a read-only flag, and begins, commits and rolls back its database
-- with them. The database (src/clarity/database) is a typed view of a RollbackWrapper, which keeps
-- the pending edits of each open context over a backing store. Every step is charged to a
-- LimitedCostTracker (src/clarity/costs). Values have types with bounded sizes and depths
-- (src/clarity/types). Native functions (src/clarity/functions) work on values and, for tokens, on
-- the database and the contexts.
--
-- Which file models which part:
--   Cost, Cost/Laws            ExecutionCost of src/clarity/costs/mod.rs
--   CostFunctions              ClarityCostFunction of src/clarity/costs/cost_functions.rs
--   Tracker, Tracker/Laws      LimitedCostTracker of src/clarity/costs/mod.rs
--   Types and its children     src/clarity/types/signatures.rs: sizes (Size), guarded constructors
--                              (Build, Limits), admits_type and least_supertype (Admits, Laws)
--   Values and its children    src/clarity/types/mod.rs: type_of and sizes (TypeOf), the checked
--                              constructors and tuples (Make), equality (Equality), SequenceData
--                              (Sequence) and the cutting of UTF-8 into characters (Utf8)
--   Serialization and its children
--                              src/clarity/types/serialization.rs: writing (Write), reading (Reader,
--                              Expected, Read), and reading what was written (RoundTrip)
--   Errors                     src/clarity/errors.rs, src/clarity/analysis/errors.rs
--   Database                   the trait ClarityBackingStore of src/clarity/database/marf.rs
--   Database/EditLog           the edit histories of src/clarity/database/key_value_wrapper.rs
--   Database/Wrapper           RollbackWrapper of the same file; Models is its specification, a
--                              stack of writes, and Transactions runs nested transactions
--   Database/Datastore         Datastore of src/clarity/database/datastore.rs; History is its
--                              specification, what every key holds at every height
--   Database/Tables            accounts and tokens of src/clarity/database/clarity_db.rs and the
--                              STX balances of src/clarity/database/structures.rs (Stx)
--   Contexts and its children  src/clarity/contexts.rs and src/clarity/events.rs
--   Functions/Arithmetic       src/clarity/functions/arithmetic.rs, over the interface Integer that
--                              u128 and i128 fill
--   Functions/Assets           src/clarity/functions/assets.rs
--   Functions/Options          src/clarity/functions/options.rs, and not of functions/boolean.rs
--   Functions/Sequences        src/clarity/functions/sequences.rs, the rows of map in Rows
--   Functions/Tuples           src/clarity/functions/tuples.rs
--   Ast and its children       src/clarity/representations.rs and passes of src/clarity/ast over
--                              expressions: the depth check (Depth), the ids (Identifiers),
--                              the expansion of sugar (Sugar) and the search for circular
--                              definitions in the definition sorter (Cycles)
--   Prelude                    shared helpers: maps, results with panics, methods on a state
--   Tests                      concrete inputs
--
-- How state and operations correspond. A struct is a record with the struct's field names, and a
-- function keeps its name. A method on a mutable receiver takes the state and returns an outcome and
-- the state that it leaves, also beside an error. A failed expect, unwrap or assert is the outcome
-- `panic`. A u64 or u128 is a native number and its checked operations test against 2^64 or 2^128.
-- A HashMap is an association list. A Vec that serves as a stack has its last element first.
-- ClarityDatabase is modelled twice, at two levels: its RollbackWrapper exactly, with string keys and
-- values, and above it the tables of accounts and tokens, with a list of saved tables for the
-- nested contexts, in place of the text keys and the JSON values.
--
-- A reader of bytes is the list of the bytes that are left.
--
-- Bounds and fuel. Bit lengths and exclusive ors of 128-bit numbers run over 128 bits, which is all
-- that such a number has. Reading a value recurses on the levels that are left of the 16 that the
-- source allows. The loop of filter takes as many rounds as the sequence has elements, since each
-- round removes an element or moves on to the next, and one more to see that it is at the end; a
-- run that is out of rounds answers none, apart from every answer of the source. The heights of
-- blocks and the apply depth of the call stack, which the source counts unchecked, wrap as in a
-- release build on 64 bits. The depth of a type is a u8 in the source and a natural number here,
-- which differ only for types deeper than any that a constructor builds.
--
-- Parameters stand for code of other crates: the hash that identifies a block by its height (the
-- results on the datastore assume that it tells the heights of u32 apart), the regular expressions
-- of names, and the integer square root.
--
-- Not modelled: parsing, the rest of the definition sorter and the traits resolver, the static
-- analysis, the evaluation of expressions (native functions start from evaluated arguments, and the
-- evaluation of a cost contract is a parameter), non-fungible tokens, data maps, addresses and
-- hashes, and the interactive session. Errors go without their stack traces, and error texts are
-- shortened.
pub mod Prelude
pub mod Cost
pub mod CostFunctions
pub mod Types
pub mod Tracker
pub mod Values
pub mod Errors
pub mod Database
pub mod Ast
pub mod Contexts
pub mod Functions
pub mod Serialization
mod Tests
