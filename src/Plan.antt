-- ===== src/Plan.antt =====
-- crates/dsql-core/src/plan: the plan of a query, its filters and the policies on its sources.
pub mod Filter
pub mod Truth
pub mod Context
pub mod Access
pub mod Guards
pub mod Policies
