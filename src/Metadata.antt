-- ===== src/Metadata.antt =====
-- crates/dsql-metadata/src/lib.rs: the compiled operation that the executor is given. The parts of
-- the document that no execution step reads (results, policies, handoffs, source maps) are left out.
pub mod Wire
pub mod Input
pub mod Operation
