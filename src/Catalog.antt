-- ===== src/Catalog.antt =====
-- crates/dsql-core/src/catalog: the effective catalog of a database.
pub mod Enums
pub mod Types
pub mod Capabilities
pub mod Builtin
pub mod Lookup
pub mod Shapes
pub mod Tests
