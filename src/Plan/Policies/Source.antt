-- ===== src/Plan/Policies/Source.antt =====
-- crates/dsql-core/src/plan/build.rs, `plan_source_policies`: the policies on one source of rows. The
-- assignments that the operation, the source and the expression make are planned before and given.
use dsql.Prelude.{
  ℕ, String, Bool, false, ◌&&◌, Option, none, some, List, [], ◌∷◌, ◌++◌, map, keep, contains,
  if◌then◌else◌, ◌==◌, nat_eq, string_eq, ltb, leb, text_le, join, sort_by,
}
use dsql.Catalog.Types.{TableId}
use dsql.Plan.Filter.{PolicyFieldTarget, FilterExpr, no_fields, target_eq}
use dsql.Plan.Guards.{filter_boolean}
use dsql.Plan.Policies.Rules.{
  PlannedPolicyAssignment, SourcePolicyPlan, Requirements, desired_filter, assignment_state,
  enforcement_state, active_filter, apply_row_rule, apply_field_rules,
}
use dsql.Plan.Policies.Audit.{PolicyApplicationPlan}
use dsql.Plan.Policies.{
  Entity, PolicyKind, same_kind, PolicyIndex, PolicyEntry, CompiledPolicyReference,
  CompiledPolicyTarget, CompiledPolicyEntry, CompiledPolicyIndex, compiled_entry, compiled_target,
}

abbrev pub target_key : PolicyFieldTarget → ℕ × ℕ
target_key (PolicyFieldTarget.column column) = (0, column)
target_key (PolicyFieldTarget.relation relation) = (1, relation)

abbrev pub key_le : ℕ × ℕ → ℕ × ℕ → Bool
key_le (a, b) (c, d) = if a == c then leb b d else leb a c

abbrev pub finish_application : PolicyApplicationPlan → PolicyApplicationPlan
finish_application application = record application {
  fields = sort_by (λ a b. key_le (target_key a.target) (target_key b.target)) application.fields;
  context = sort_by (λ a b. text_le a.path b.path) application.context;
}

abbrev pub push_application : PolicyApplicationPlan → SourcePolicyPlan → SourcePolicyPlan
push_application application policies = record policies {
  applications = policies.applications ++ application ∷ [];
}

-- The rules of a filter that may be active; one that is statically inactive is only audited.
abbrev pub apply_active :
    CompiledPolicyTarget
    → Option PlannedPolicyAssignment
    → FilterExpr
    → Option Bool
    → SourcePolicyPlan × Requirements
    → PolicyApplicationPlan
    → SourcePolicyPlan × Requirements
apply_active target assignment active (some false) (policies, context) application =
    (push_application application policies, context)
apply_active target assignment active value state application =
    let ((policies, context), row_application) =
      apply_row_rule target assignment active target.row_rule state application in
    let (policies', field_application) =
      apply_field_rules target assignment active target.field_rules policies row_application in
    (push_application (finish_application field_application) policies', context)

abbrev pub new_application :
    TableId
    → List String
    → Entity
    → CompiledPolicyEntry
    → CompiledPolicyTarget
    → Option PlannedPolicyAssignment
    → FilterExpr
    → PolicyApplicationPlan
new_application table selection_path identity compiled target assignment desired = record {
  filter = identity;
  identity = record { scope = compiled.scope; name = compiled.name };
  conditions =
      map
        (λ (condition : CompiledPolicyReference). record {
          scope = condition.scope;
          name = condition.name;
        })
        compiled.conditions;
  path = join selection_path ".";
  target = table;
  default_active = compiled.default_active;
  enforcement = enforcement_state target.enforcement;
  assignment = assignment_state assignment desired;
  rows_filtered = false;
  fields = [];
  context = [];
}

abbrev pub apply_compiled :
    TableId
    → List String
    → Entity
    → Option PlannedPolicyAssignment
    → Option CompiledPolicyEntry
    → Option CompiledPolicyTarget
    → SourcePolicyPlan × Requirements
    → SourcePolicyPlan × Requirements
apply_compiled table selection_path identity assignment none target state = state
apply_compiled table selection_path identity assignment (some compiled) none state = state
apply_compiled table selection_path identity assignment (some compiled) (some target) state =
    let desired = desired_filter assignment compiled in
    let active = active_filter target.enforcement desired in
    apply_active target assignment active (filter_boolean active) state
      (new_application table selection_path identity compiled target assignment desired)

-- A later assignment of a filter hides an earlier one.
abbrev pub assignment_for : List PlannedPolicyAssignment → Entity → Option PlannedPolicyAssignment
assignment_for [] identity = none
assignment_for (assignment ∷ assignments) identity = elim (assignment_for assignments identity) [
  | some later ↦ some later
  | none ↦ if assignment.filter == identity then some assignment else none
]

unfoldable pub apply_policies :
    CompiledPolicyIndex
    → TableId
    → List String
    → List PlannedPolicyAssignment
    → List Entity
    → SourcePolicyPlan × Requirements
    → SourcePolicyPlan × Requirements
unfolding compiled_entry compiled_target
apply_policies compiled table selection_path assignments [] state = state
apply_policies compiled table selection_path assignments (identity ∷ identities) state =
    apply_policies compiled table selection_path assignments identities (
      apply_compiled table selection_path identity (assignment_for assignments identity)
        (compiled_entry compiled identity) (compiled_target compiled identity table) state)

-- An insertion into an ordered set.
abbrev pub insert_entity : Entity → List Entity → List Entity
insert_entity a [] = a ∷ []
insert_entity a (x ∷ xs) =
    if a == x then x ∷ xs else if ltb a x then a ∷ x ∷ xs else x ∷ insert_entity a xs

abbrev pub entity_set : List Entity → List Entity
entity_set [] = []
entity_set (x ∷ xs) = insert_entity x (entity_set xs)

abbrev pub applies_to : TableId → List String → PolicyEntry → Bool
applies_to table scopes entry =
    same_kind entry.kind PolicyKind.filter
    && (contains entry.matches table && contains scopes entry.scope)

abbrev pub entry_entity : PolicyEntry → Entity
entry_entity entry = entry.entity

abbrev pub assigned_entity : PlannedPolicyAssignment → Entity
assigned_entity assignment = assignment.filter

-- The filters that match the table in a visible scope, and those that an assignment names.
unfoldable pub source_identities :
    PolicyIndex → TableId → List String → List PlannedPolicyAssignment → List Entity
source_identities index table scopes assignments = entity_set (
    map entry_entity (keep index.entries (applies_to table scopes))
    ++ map assigned_entity assignments)

abbrev pub application_le : PolicyApplicationPlan → PolicyApplicationPlan → Bool
application_le a b =
    if a.path == b.path
    then if a.identity.scope == b.identity.scope
      then if a.identity.name == b.identity.name
        then leb a.target b.target
        else text_le a.identity.name b.identity.name
      else text_le a.identity.scope b.identity.scope
    else text_le a.path b.path

abbrev pub finish_plan : SourcePolicyPlan × Requirements → SourcePolicyPlan × Requirements
finish_plan (policies, context) =
    (record policies { applications = sort_by application_le policies.applications }, context)

abbrev pub empty_plan : SourcePolicyPlan
empty_plan = record { row_filter = none; field_filters = no_fields; applications = [] }

unfoldable pub plan_source_policies :
    PolicyIndex
    → CompiledPolicyIndex
    → List String
    → TableId
    → List String
    → List PlannedPolicyAssignment
    → List PlannedPolicyAssignment
    → List PlannedPolicyAssignment
    → Requirements
    → SourcePolicyPlan × Requirements
unfolding apply_policies source_identities
plan_source_policies index compiled scopes table selection_path operation source explicit context =
    let assignments = operation ++ (source ++ explicit) in
    finish_plan (
      apply_policies compiled table selection_path assignments
        (source_identities index table scopes assignments) (empty_plan, context))
