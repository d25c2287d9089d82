-- ===== src/Plan/Policies/Readable.antt =====
-- crates/dsql-core/src/plan/build.rs, `plan_source_policies`: the fields that its policies let a query
-- read.
use dsql.Prelude.{String, List, ◌++◌, ◌≡◌, ◌↔◌, refl}
use dsql.Catalog.Types.{TableId}
use dsql.Plan.Filter.{FilterExpr, PolicyFieldTarget}
use dsql.Plan.Truth.{Truth}
use dsql.Plan.Policies.{Entity, PolicyIndex, CompiledPolicyIndex}
use dsql.Plan.Policies.Rules.{PlannedPolicyAssignment, Requirements}
use dsql.Plan.Policies.Source.{source_identities, empty_plan, plan_source_policies}
use dsql.Plan.Policies.Fields.{field_truth, FieldPermittedFor, apply_policies-field_truth}
use dsql.Plan.Policies.Visible.{IsOnSource, source_identities-IsOnSource, IsOnSource-In}

-- The guard on a field of a source holds for a row exactly when every filter permits the field that
-- applies in a visible scope or that an assignment names: for each such filter that is active for the
-- row, every rule that names the field holds.
pub plan_source_policies-readable :
    (atom : FilterExpr → Truth) (u : PolicyFieldTarget) (index : PolicyIndex)
    (compiled : CompiledPolicyIndex) (scopes : List String) (table : TableId)
    (selection_path : List String) (operation source explicit : List PlannedPolicyAssignment)
    (context : Requirements)
    → (field_truth atom u
          (plan_source_policies index compiled scopes table selection_path operation source explicit
            context).0.field_filters
        ≡ Truth.holds)
      ↔ ((identity : Entity)
          → IsOnSource index scopes table (operation ++ (source ++ explicit)) identity
          → FieldPermittedFor atom u compiled table (operation ++ (source ++ explicit)) identity)
unfolding plan_source_policies
plan_source_policies-readable atom u index compiled scopes table path operation source explicit
      context =
    let assignments = operation ++ (source ++ explicit) in
    let fields =
      apply_policies-field_truth atom u compiled table path assignments
        (source_identities index table scopes assignments) empty_plan context in
    (
      λ h identity on.
          (fields.0 h).1 identity (IsOnSource-In index table scopes assignments identity on),
      λ all. fields.1 (
        refl,
        λ identity i.
            all identity (source_identities-IsOnSource index table scopes assignments identity i),
      ),
    )
