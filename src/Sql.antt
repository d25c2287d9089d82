-- ===== src/Sql.antt =====
-- crates/dsql-core/src/sql/postgres.rs: from plans to SQL.
pub mod Builder
pub mod Error
pub mod Sites
pub mod Template
pub mod Alias
pub mod View
pub mod Dynamic
pub mod Atoms
pub mod Related
pub mod Lower
pub mod Paging
pub mod Meaning
pub mod Finish
