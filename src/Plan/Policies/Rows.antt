-- ===== src/Plan/Policies/Rows.antt =====
-- crates/dsql-core/src/plan/build.rs, `plan_source_policies`: which rows of a source can be seen.
use dsql.Prelude.{
  String, Bool, true, false, Option, none, some, List, [], ◌∷◌, In, inl, inr, ◌≡◌, ◌↔◌, refl, sym,
  ap, ◌∙◌,
}
use dsql.Catalog.Types.{TableId}
use dsql.Plan.Filter.{FilterExpr}
use dsql.Plan.Truth.{Truth, negate, both, either, both-holds, both-eq-holds}
use dsql.Plan.Guards.{filter_boolean, active_policy_guard}
use dsql.Plan.Guards.Meaning.{
  truth, truth-filter_boolean, truth-or_filter, truth-and_filter, truth-active_policy_guard,
}
use dsql.Plan.Policies.{
  Entity, CompiledPolicyField, CompiledPolicyFieldRule, CompiledPolicyTarget, CompiledPolicyEntry,
  CompiledPolicyIndex, compiled_entry, compiled_target,
}
use dsql.Plan.Policies.Audit.{PolicyApplicationPlan}
use dsql.Plan.Policies.Rules.{
  PlannedPolicyAssignment, SourcePolicyPlan, Requirements, desired_filter, active_filter,
  conjoin_row_filter, apply_row_rule, apply_fields, apply_field_rules,
}
use dsql.Plan.Policies.Source.{
  apply_active, apply_compiled, new_application, assignment_for, apply_policies,
}

module _ (atom : FilterExpr → Truth) where
  -- The truth of the row filter for a row; without one every row is seen.
  abbrev pub row_truth : Option FilterExpr → Truth
  row_truth none = Truth.holds
  row_truth (some filter) = truth atom filter

  abbrev pub active_truth : Option FilterExpr → Truth → Truth
  active_truth none desired = desired
  active_truth (some enforcement) desired = either (truth atom enforcement) desired

  abbrev pub rule_truth : Truth → Option FilterExpr → Truth
  rule_truth active none = Truth.holds
  rule_truth active (some rule) = either (negate active) (truth atom rule)

  -- What one filter says of a row: if it is enforced or wanted, its row rule.
  abbrev pub permits :
      Option PlannedPolicyAssignment
      → Option CompiledPolicyEntry
      → Option CompiledPolicyTarget
      → Truth
  permits assignment none target = Truth.holds
  permits assignment (some compiled) none = Truth.holds
  permits assignment (some compiled) (some target) =
      rule_truth (active_truth target.enforcement (truth atom (desired_filter assignment compiled)))
        target.row_rule

  row_truth-conjoin :
      (current : Option FilterExpr) (guard : FilterExpr)
      → truth atom (conjoin_row_filter current guard) ≡ both (row_truth current) (truth atom guard)
  row_truth-conjoin none guard = refl
  row_truth-conjoin (some current) guard = truth-and_filter atom current guard

  pub truth-active_filter :
      (enforcement : Option FilterExpr) (desired : FilterExpr)
      → truth atom (active_filter enforcement desired)
        ≡ active_truth enforcement (truth atom desired)
  truth-active_filter none desired = refl
  truth-active_filter (some enforcement) desired = truth-or_filter atom enforcement desired

  apply_row_rule-row_truth :
      (target : CompiledPolicyTarget) (assignment : Option PlannedPolicyAssignment)
      (active : FilterExpr) (rule : Option FilterExpr) (policies : SourcePolicyPlan)
      (context : Requirements) (application : PolicyApplicationPlan)
      → row_truth
          (apply_row_rule target assignment active rule
            (policies, context)
            application).0.0.row_filter
        ≡ both (row_truth policies.row_filter) (rule_truth (truth atom active) rule)
  apply_row_rule-row_truth target assignment active none policies context application =
      sym (both-holds (row_truth policies.row_filter))
  apply_row_rule-row_truth target assignment active (some rule) policies context application =
      row_truth-conjoin policies.row_filter (active_policy_guard active rule)
      ∙ ap (both (row_truth policies.row_filter)) (truth-active_policy_guard atom active rule)

  apply_fields-row_filter :
      (guard : FilterExpr) (reached : Requirements) (fields : List CompiledPolicyField)
      (policies : SourcePolicyPlan) (application : PolicyApplicationPlan)
      → (apply_fields guard reached fields policies application).0.row_filter ≡ policies.row_filter
  unfolding apply_fields
  apply_fields-row_filter guard reached [] policies application = refl
  apply_fields-row_filter guard reached (f ∷ fields) policies application =
      apply_fields-row_filter guard reached fields _ _

  apply_field_rules-row_filter :
      (target : CompiledPolicyTarget) (assignment : Option PlannedPolicyAssignment)
      (active : FilterExpr) (rules : List CompiledPolicyFieldRule) (policies : SourcePolicyPlan)
      (application : PolicyApplicationPlan)
      → (apply_field_rules target assignment active rules policies application).0.row_filter
        ≡ policies.row_filter
  unfolding apply_field_rules
  apply_field_rules-row_filter target assignment active [] policies application = refl
  apply_field_rules-row_filter target assignment active (r ∷ rules) policies application =
      apply_field_rules-row_filter target assignment active rules _ _
      ∙ apply_fields-row_filter _ _ r.fields policies _

  inactive-row_truth :
      (row active : Truth) (rule : Option FilterExpr)
      → active ≡ Truth.fails
      → row ≡ both row (rule_truth active rule)
  inactive-row_truth row active none e = sym (both-holds row)
  inactive-row_truth row active (some rule) e = rw e (sym (both-holds row))

  active-row_truth :
      (target : CompiledPolicyTarget) (assignment : Option PlannedPolicyAssignment)
      (active : FilterExpr) (policies : SourcePolicyPlan) (context : Requirements)
      (application : PolicyApplicationPlan)
      → row_truth
          (apply_field_rules target assignment active target.field_rules
            (apply_row_rule target assignment active target.row_rule
              (policies, context)
              application).0.0
            (apply_row_rule target assignment active target.row_rule
              (policies, context)
              application).1).0.row_filter
        ≡ both (row_truth policies.row_filter) (rule_truth (truth atom active) target.row_rule)
  active-row_truth target assignment active policies context application =
      ap row_truth (apply_field_rules-row_filter target assignment active target.field_rules _ _)
      ∙ apply_row_rule-row_truth target assignment active target.row_rule policies context
          application

  apply_active-row_truth :
      (target : CompiledPolicyTarget) (assignment : Option PlannedPolicyAssignment)
      (active : FilterExpr) (value : Option Bool) (policies : SourcePolicyPlan)
      (context : Requirements) (application : PolicyApplicationPlan)
      → filter_boolean active ≡ value
      → row_truth
          (apply_active target assignment active value (policies, context) application).0.row_filter
        ≡ both (row_truth policies.row_filter) (rule_truth (truth atom active) target.row_rule)
  apply_active-row_truth target assignment active (some false) policies context application e =
      inactive-row_truth (row_truth policies.row_filter) (truth atom active) target.row_rule
        (truth-filter_boolean atom active false e)
  apply_active-row_truth target assignment active (some true) policies context application e =
      active-row_truth target assignment active policies context application
  apply_active-row_truth target assignment active none policies context application e =
      active-row_truth target assignment active policies context application

  apply_compiled-row_truth :
      (table : TableId) (selection_path : List String) (identity : Entity)
      (assignment : Option PlannedPolicyAssignment) (compiled : Option CompiledPolicyEntry)
      (target : Option CompiledPolicyTarget) (policies : SourcePolicyPlan) (context : Requirements)
      → row_truth
          (apply_compiled table selection_path identity assignment compiled target
            (policies, context)).0.row_filter
        ≡ both (row_truth policies.row_filter) (permits assignment compiled target)
  apply_compiled-row_truth table path identity assignment none target policies context =
      sym (both-holds (row_truth policies.row_filter))
  apply_compiled-row_truth table path identity assignment (some compiled) none policies context =
      sym (both-holds (row_truth policies.row_filter))
  apply_compiled-row_truth table path identity assignment (some compiled) (some target) policies
        context =
      let desired = desired_filter assignment compiled in
      let active = active_filter target.enforcement desired in
      apply_active-row_truth target assignment active (filter_boolean active) policies context
        (new_application table path identity compiled target assignment desired) refl
      ∙ ap (λ t. both (row_truth policies.row_filter) (rule_truth t target.row_rule))
          (truth-active_filter target.enforcement desired)

  -- What the filter with an identity says of a row of the table.
  abbrev pub permits_for :
      CompiledPolicyIndex → TableId → List PlannedPolicyAssignment → Entity → Truth
  permits_for compiled table assignments identity =
      permits (assignment_for assignments identity) (compiled_entry compiled identity)
        (compiled_target compiled identity table)

  pub apply_policies-row_truth :
      (compiled : CompiledPolicyIndex) (table : TableId) (selection_path : List String)
      (assignments : List PlannedPolicyAssignment) (identities : List Entity)
      (policies : SourcePolicyPlan) (context : Requirements)
      → (row_truth
            (apply_policies compiled table selection_path assignments identities
              (policies, context)).0.row_filter
          ≡ Truth.holds)
        ↔ ((row_truth policies.row_filter ≡ Truth.holds)
            × ((identity : Entity)
                → In identity identities
                → permits_for compiled table assignments identity ≡ Truth.holds))
  unfolding apply_policies
  apply_policies-row_truth compiled table path assignments [] policies context =
      (λ h. (h, λ identity i. absurd i), λ h. h.0)
  apply_policies-row_truth compiled table path assignments (x ∷ xs) policies context =
      let state =
        apply_compiled table path x (assignment_for assignments x) (compiled_entry compiled x)
          (compiled_target compiled x table) (policies, context) in
      let step =
        apply_compiled-row_truth table path x (assignment_for assignments x)
          (compiled_entry compiled x) (compiled_target compiled x table) policies context in
      let split =
        both-eq-holds (row_truth policies.row_filter) (permits_for compiled table assignments x) in
      let later = apply_policies-row_truth compiled table path assignments xs state.0 state.1 in
      (
        λ h.
            let (first, rest) = later.0 h in
            let (before, here) = split.0 (sym step ∙ first) in
            (before, λ identity i. elim i [ inl same ↦ rw same here | inr j ↦ rest identity j ]),
        λ h. later.1 (step ∙ split.1 (h.0, h.1 x (inl refl)), λ identity i. h.1 identity (inr i)),
      )
