-- ===== src/Contexts.antt =====
-- The contexts of an execution, src/clarity/contexts.rs.
pub mod AssetMap
pub mod Events
pub mod Global
pub mod Local
pub mod CallStack
