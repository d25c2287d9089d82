-- ===== src/Source.antt =====
-- crates/dsql-core/src/source.rs: the scopes of a project.
pub mod Scopes
pub mod Cycles
