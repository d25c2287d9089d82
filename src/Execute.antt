-- ===== src/Execute.antt =====
-- crates/dsql-execute/src/lib.rs: from an operation and its bindings to SQL text and typed binds.
pub mod Error
pub mod Runtime
pub mod Scalars
pub mod Defaults
pub mod Inputs
pub mod Emit
pub mod Checks
pub mod Dynamic
pub mod Order
pub mod Materialize
pub mod Bind
pub mod Sample
pub mod Samples
