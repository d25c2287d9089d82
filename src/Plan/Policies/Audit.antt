-- ===== src/Plan/Policies/Audit.antt =====
-- crates/dsql-core/src/plan/types.rs: what is recorded of each filter on a source.
use dsql.Prelude.{String, Bool, List}
use dsql.Catalog.Types.{TableId}
use dsql.Plan.Filter.{PolicyAccess, PolicyFieldTarget, PolicyContextRequirement}
use dsql.Plan.Policies.{Entity}

pub data PolicyAssignmentState : Type 0 where
  default enabled disabled conditional : PolicyAssignmentState

pub data PolicyEnforcement : Type 0 where
  none always conditional : PolicyEnforcement

pub record PolicyIdentity : Type 0 where
  pub scope : String
  pub name : String

pub record PolicyApplicationField : Type 0 where
  pub target : PolicyFieldTarget
  pub access : PolicyAccess

pub record PolicyApplicationPlan : Type 0 where
  pub filter : Entity
  pub identity : PolicyIdentity
  pub conditions : List PolicyIdentity
  pub path : String
  pub target : TableId
  pub default_active : Bool
  pub enforcement : PolicyEnforcement
  pub assignment : PolicyAssignmentState
  pub rows_filtered : Bool
  pub fields : List PolicyApplicationField
  pub context : List PolicyContextRequirement
