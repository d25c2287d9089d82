-- ===== src/Plan/Policies/Rules.antt =====
-- crates/dsql-core/src/plan/build.rs, `plan_source_policies`: the rules of one filter on one source.
use dsql.Prelude.{
  Bool, true, false, Option, none, some, List, [], ◌∷◌, ◌++◌, keep, contains, if◌then◌else◌, ◌==◌,
  nat_eq, string_eq,
}
use dsql.Plan.Filter.{
  PolicyAccess, PolicyFieldTarget, PolicyContextRequirement, FilterExpr, FieldFilters, field_filter,
  no_fields, field, target_eq,
}
use dsql.Plan.Context.{filter_parameter_paths, extend_unique_context}
use dsql.Plan.Access.{for_guard, combine}
use dsql.Plan.Guards.{boolean_filter, filter_boolean, or_filter, and_filter, active_policy_guard}
use dsql.Plan.Policies.Audit.{
  PolicyAssignmentState, PolicyEnforcement, PolicyApplicationField, PolicyApplicationPlan,
}
use dsql.Plan.Policies.{
  Entity, CompiledPolicyField, CompiledPolicyFieldRule, CompiledPolicyTarget, CompiledPolicyEntry,
}

pub record PlannedPolicyAssignment : Type 0 where
  pub filter : Entity
  pub desired : FilterExpr
  pub context : List PolicyContextRequirement

pub record SourcePolicyPlan : Type 0 where
  pub row_filter : Option FilterExpr
  pub field_filters : FieldFilters
  pub applications : List PolicyApplicationPlan

abbrev pub Requirements : Type 0
Requirements = List PolicyContextRequirement

-- `collect_policy_context`
abbrev pub assigned_context : Option PlannedPolicyAssignment → Requirements
assigned_context none = []
assigned_context (some assignment) = assignment.context

unfoldable pub collect_policy_context :
    CompiledPolicyTarget → Option PlannedPolicyAssignment → FilterExpr → Requirements → Requirements
unfolding filter_parameter_paths
collect_policy_context target assignment filter context =
    let reached = λ (requirement : PolicyContextRequirement).
      contains (filter_parameter_paths filter) requirement.path in
    (context ++ keep target.context reached) ++ keep (assigned_context assignment) reached

abbrev pub desired_filter : Option PlannedPolicyAssignment → CompiledPolicyEntry → FilterExpr
desired_filter none compiled = boolean_filter compiled.default_active
desired_filter (some assignment) compiled = assignment.desired

abbrev pub state_of_boolean : Option Bool → PolicyAssignmentState
state_of_boolean (some true) = PolicyAssignmentState.enabled
state_of_boolean (some false) = PolicyAssignmentState.disabled
state_of_boolean none = PolicyAssignmentState.conditional

abbrev pub assignment_state : Option PlannedPolicyAssignment → FilterExpr → PolicyAssignmentState
assignment_state none desired = PolicyAssignmentState.default
assignment_state (some _) desired = state_of_boolean (filter_boolean desired)

abbrev pub enforcement_of_boolean : Option Bool → PolicyEnforcement
enforcement_of_boolean (some true) = PolicyEnforcement.always
enforcement_of_boolean (some false) = PolicyEnforcement.none
enforcement_of_boolean none = PolicyEnforcement.conditional

abbrev pub enforcement_state : Option FilterExpr → PolicyEnforcement
enforcement_state none = PolicyEnforcement.none
enforcement_state (some enforcement) = enforcement_of_boolean (filter_boolean enforcement)

abbrev pub active_filter : Option FilterExpr → FilterExpr → FilterExpr
active_filter none desired = desired
active_filter (some enforcement) desired = or_filter enforcement desired

abbrev pub field_target : CompiledPolicyField → PolicyFieldTarget
field_target (CompiledPolicyField.column column) = PolicyFieldTarget.column column
field_target (CompiledPolicyField.relation relation) = PolicyFieldTarget.relation relation

-- The access of an audited field grows with each guard on it.
unfoldable pub record_access :
    List PolicyApplicationField → PolicyFieldTarget → PolicyAccess → List PolicyApplicationField
unfolding combine
record_access [] target access = (record { target = target; access = access }) ∷ []
record_access (existing ∷ fields) target access =
    if existing.target == target
    then (record existing { access = combine existing.access access }) ∷ fields
    else existing ∷ record_access fields target access

abbrev pub record_guarded :
    PolicyAccess → List PolicyApplicationField → PolicyFieldTarget → List PolicyApplicationField
record_guarded PolicyAccess.unconditional fields target = fields
record_guarded access fields target = record_access fields target access

-- The guards on one field are taken together.
unfoldable pub add_field_filter :
    FieldFilters → PolicyFieldTarget → FilterExpr → Requirements → FieldFilters
unfolding and_filter extend_unique_context
add_field_filter no_fields target guard context =
    field (field_filter target guard context) no_fields
add_field_filter (field (field_filter existing filter known) filters) target guard context =
    if existing == target
    then field
        (field_filter existing (and_filter filter guard) (extend_unique_context known context))
        filters
    else field (field_filter existing filter known) (add_field_filter filters target guard context)

abbrev pub conjoin_row_filter : Option FilterExpr → FilterExpr → FilterExpr
conjoin_row_filter none guard = guard
conjoin_row_filter (some current) guard = and_filter current guard

abbrev pub is_conditional : PolicyAccess → Bool
is_conditional PolicyAccess.unconditional = false
is_conditional _ = true

-- One row rule, with the context that its guard reaches.
abbrev pub apply_row_rule :
    CompiledPolicyTarget
    → Option PlannedPolicyAssignment
    → FilterExpr
    → Option FilterExpr
    → SourcePolicyPlan × Requirements
    → PolicyApplicationPlan
    → (SourcePolicyPlan × Requirements) × PolicyApplicationPlan
apply_row_rule target assignment active none state application = (state, application)
apply_row_rule target assignment active (some rule) (policies, context) application =
    let guard = active_policy_guard active rule in
    let reached = collect_policy_context target assignment guard [] in
    (
      (
        record policies { row_filter = some (conjoin_row_filter policies.row_filter guard) },
        extend_unique_context context reached,
      ),
      record application {
        context = extend_unique_context application.context reached;
        rows_filtered = is_conditional (for_guard guard);
      },
    )

unfoldable pub apply_fields :
    FilterExpr
    → Requirements
    → List CompiledPolicyField
    → SourcePolicyPlan
    → PolicyApplicationPlan
    → SourcePolicyPlan × PolicyApplicationPlan
unfolding add_field_filter record_access for_guard
apply_fields guard reached [] policies application = (policies, application)
apply_fields guard reached (written ∷ fields) policies application =
    let target = field_target written in
    apply_fields guard reached fields
      (record policies {
        field_filters = add_field_filter policies.field_filters target guard reached;
      })
      (record application { fields = record_guarded (for_guard guard) application.fields target })

unfoldable pub apply_field_rules :
    CompiledPolicyTarget
    → Option PlannedPolicyAssignment
    → FilterExpr
    → List CompiledPolicyFieldRule
    → SourcePolicyPlan
    → PolicyApplicationPlan
    → SourcePolicyPlan × PolicyApplicationPlan
unfolding apply_fields active_policy_guard collect_policy_context extend_unique_context
apply_field_rules target assignment active [] policies application = (policies, application)
apply_field_rules target assignment active (rule ∷ rules) policies application =
    let guard = active_policy_guard active rule.condition in
    let reached = collect_policy_context target assignment guard [] in
    let (policies', application') =
      apply_fields guard reached rule.fields policies
        (record application { context = extend_unique_context application.context reached }) in
    apply_field_rules target assignment active rules policies' application'
