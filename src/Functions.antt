-- ===== src/Functions.antt =====
-- Native functions of Clarity, src/clarity/functions.
pub mod Integer
pub mod Arithmetic
pub mod Assets
pub mod Options
pub mod Sequences
pub mod Tuples
