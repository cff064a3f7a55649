-- ===== src/Serialization.antt =====
-- The binary format of values: src/clarity/types/serialization.rs.
pub mod Bytes
pub mod Compound
pub mod Expected
pub mod Prefix
pub mod Write
pub mod Read
pub mod Reader
pub mod Rebuilt
pub mod RoundTrip
pub mod Scalars
pub mod Steps
use clarity_repl.Prelude.{ℕ, ◌*◌, String}
use clarity_repl.Errors.{CheckErrors}
use clarity_repl.Types.{TypeSignature}

-- The only error of the bytes that are read is an end that comes too soon.
pub data SerializationError : Type 0 where
  io_error : SerializationError
  bad_type_error : CheckErrors → SerializationError
  deserialization_error : String → SerializationError
  deserialize_expected : TypeSignature → SerializationError

abbrev pub bound_value_serialization_bytes : ℕ
bound_value_serialization_bytes = 1024 * 1024 * 2

abbrev pub max_string_len : ℕ
max_string_len = 128
