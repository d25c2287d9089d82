-- ===== src/Plan/Policies/Fields.antt =====
-- crates/dsql-core/src/plan/build.rs, `plan_source_policies`: which fields of a row can be read.
use dsql.Prelude.{
  String, Bool, true, false, Option, none, some, List, [], ◌∷◌, In, inl, inr, ◌≡◌, ◌↔◌, refl, sym,
  ap, ◌∙◌, Bool-cases, if◌then◌else◌, ◌==◌,
}
use dsql.Catalog.Types.{TableId}
use dsql.Plan.Filter.{
  FilterExpr, PolicyFieldTarget, FieldFilters, field_filter, no_fields, field, target_eq,
}
use dsql.Plan.Truth.{Truth, negate, both, either, both-eq-holds}
use dsql.Plan.Context.{extend_unique_context}
use dsql.Plan.Access.{for_guard}
use dsql.Plan.Guards.{filter_boolean, active_policy_guard}
use dsql.Plan.Guards.Meaning.{
  truth, truth-filter_boolean, truth-and_filter, truth-active_policy_guard,
}
use dsql.Plan.Policies.{
  Entity, CompiledPolicyField, CompiledPolicyFieldRule, CompiledPolicyTarget, CompiledPolicyEntry,
  CompiledPolicyIndex, compiled_entry, compiled_target,
}
use dsql.Plan.Policies.Audit.{PolicyApplicationPlan}
use dsql.Plan.Policies.Rules.{
  PlannedPolicyAssignment, SourcePolicyPlan, Requirements, collect_policy_context, desired_filter,
  active_filter, apply_row_rule, field_target, add_field_filter, apply_fields, apply_field_rules,
  record_guarded,
}
use dsql.Plan.Policies.Source.{
  apply_active, apply_compiled, new_application, assignment_for, apply_policies,
}
use dsql.Plan.Policies.Rows.{active_truth, truth-active_filter}

module _ (atom : FilterExpr → Truth) (u : PolicyFieldTarget) where
  -- The truth of the first guard on the field; without one the field is read as it is.
  abbrev pub field_truth : FieldFilters → Truth
  field_truth no_fields = Truth.holds
  field_truth (field (field_filter target filter _) filters) =
      if target == u then truth atom filter else field_truth filters

  add_field_filter-same :
      (filters : FieldFilters) (guard : FilterExpr) (context : Requirements)
      → field_truth (add_field_filter filters u guard context)
        ≡ both (field_truth filters) (truth atom guard)
  unfolding add_field_filter
  add_field_filter-same no_fields guard context = rw ((target_eq.beq_iff u u).1 refl) refl
  add_field_filter-same (field (field_filter target filter known) filters) guard context =
      elim (Bool-cases (target == u)) [
        | inl e ↦ rw e (rw e (truth-and_filter atom filter guard))
        | inr e ↦ rw e (rw e (add_field_filter-same filters guard context))
      ]

  add_field_filter-other :
      (filters : FieldFilters) (t : PolicyFieldTarget) (guard : FilterExpr) (context : Requirements)
      → (t == u) ≡ false
      → field_truth (add_field_filter filters t guard context) ≡ field_truth filters
  unfolding add_field_filter
  add_field_filter-other no_fields t guard context e = rw e
  add_field_filter-other (field (field_filter target filter known) filters) t guard context e =
      elim (Bool-cases (target == t)) [
        | inl f ↦
            let same : target ≡ t = (target_eq.beq_iff target t).0 f in rw f (rw same (rw e refl))
        | inr f ↦ rw f (
            ap (λ r. if target == u then truth atom filter else r)
              (add_field_filter-other filters t guard context e))
      ]

  -- Each guard of a rule is taken together with those that its fields have.
  Guarded : FilterExpr → List CompiledPolicyField → Type 0
  Guarded guard fields =
      (written : CompiledPolicyField)
      → In written fields
      → field_target written ≡ u
      → truth atom guard ≡ Truth.holds

  apply_fields-field_truth :
      (guard : FilterExpr) (reached : Requirements) (fields : List CompiledPolicyField)
      (policies : SourcePolicyPlan) (application : PolicyApplicationPlan)
      → (field_truth (apply_fields guard reached fields policies application).0.field_filters
          ≡ Truth.holds)
        ↔ ((field_truth policies.field_filters ≡ Truth.holds) × Guarded guard fields)
  unfolding apply_fields Guarded
  apply_fields-field_truth guard reached [] policies application =
      (λ h. (h, λ written i e. absurd i), λ h. h.0)
  apply_fields-field_truth guard reached (f ∷ fields) policies application =
      let added = add_field_filter policies.field_filters (field_target f) guard reached in
      let later =
        apply_fields-field_truth guard reached fields (record policies { field_filters = added })
          (record application {
            fields = record_guarded (for_guard guard) application.fields (field_target f);
          }) in
      elim (Bool-cases (field_target f == u)) [
        | inl e ↦
            let same : field_target f ≡ u = (target_eq.beq_iff _ _).0 e in
            let step : field_truth added
                ≡ both (field_truth policies.field_filters) (truth atom guard) =
              rw same (add_field_filter-same policies.field_filters guard reached) in
            let split = both-eq-holds (field_truth policies.field_filters) (truth atom guard) in
            (
              λ h.
                  let (first, rest) = later.0 h in
                  let (before, here) = split.0 (sym step ∙ first) in (before, λ written i k. here),
              λ h. later.1 (
                step ∙ split.1 (h.0, h.1 f (inl refl) same),
                λ written i k. h.1 written (inr i) k,
              ),
            )
        | inr e ↦
            let step : field_truth added ≡ field_truth policies.field_filters =
              add_field_filter-other policies.field_filters (field_target f) guard reached e in
            (
              λ h.
                  let (first, rest) = later.0 h in
                  (
                    sym step ∙ first,
                    λ written i k. elim i [
                      | inl same ↦
                          let hit : (field_target f == u) ≡ true =
                            (target_eq.beq_iff (field_target f) u).1
                              (ap field_target (sym same) ∙ k) in
                          absurd (cc (hit, e))
                      | inr j ↦ rest written j k
                    ],
                  ),
              λ h. later.1 (step ∙ h.0, λ written i k. h.1 written (inr i) k),
            )
      ]

  -- Every rule that names the field is one that holds, or its filter is not active.
  pub RulesGuard : Truth → List CompiledPolicyFieldRule → Type 0
  RulesGuard active rules =
      (rule : CompiledPolicyFieldRule)
      → In rule rules
      → (written : CompiledPolicyField) → In written rule.fields
      → field_target written ≡ u
      → either (negate active) (truth atom rule.condition) ≡ Truth.holds

  apply_field_rules-field_truth :
      (target : CompiledPolicyTarget) (assignment : Option PlannedPolicyAssignment)
      (active : FilterExpr) (rules : List CompiledPolicyFieldRule) (policies : SourcePolicyPlan)
      (application : PolicyApplicationPlan)
      → (field_truth
            (apply_field_rules target assignment active rules policies application).0.field_filters
          ≡ Truth.holds)
        ↔ ((field_truth policies.field_filters ≡ Truth.holds)
            × RulesGuard (truth atom active) rules)
  unfolding apply_field_rules RulesGuard Guarded
  apply_field_rules-field_truth target assignment active [] policies application =
      (λ h. (h, λ rule i. absurd i), λ h. h.0)
  apply_field_rules-field_truth target assignment active (r ∷ rules) policies application =
      let guard = active_policy_guard active r.condition in
      let reached = collect_policy_context target assignment guard [] in
      let widened = record application {
        context = extend_unique_context application.context reached;
      } in
      let state = apply_fields guard reached r.fields policies widened in
      let here = apply_fields-field_truth guard reached r.fields policies widened in
      let later = apply_field_rules-field_truth target assignment active rules state.0 state.1 in
      let meaning = truth-active_policy_guard atom active r.condition in
      (
        λ h.
            let (first, rest) = later.0 h in
            let (before, guards) = here.0 first in
            (
              before,
              λ rule i written j k. elim i [
                | inl same ↦
                    let in_rule : In written r.fields = rw same at j in
                    rw same (sym meaning ∙ guards written in_rule k)
                | inr l ↦ rest rule l written j k
              ],
            ),
        λ h. later.1 (
          here.1 (h.0, λ written j k. meaning ∙ h.1 r (inl refl) written j k),
          λ rule i written j k. h.1 rule (inr i) written j k,
        ),
      )

  -- What one filter says of the field of a row.
  abbrev pub FieldPermitted :
      Option PlannedPolicyAssignment
      → Option CompiledPolicyEntry
      → Option CompiledPolicyTarget
      → Type 0
  FieldPermitted assignment none target = Unit
  FieldPermitted assignment (some compiled) none = Unit
  FieldPermitted assignment (some compiled) (some target) =
      RulesGuard
        (active_truth atom target.enforcement (truth atom (desired_filter assignment compiled)))
        target.field_rules

  apply_row_rule-field_filters :
      (target : CompiledPolicyTarget) (assignment : Option PlannedPolicyAssignment)
      (active : FilterExpr) (rule : Option FilterExpr) (policies : SourcePolicyPlan)
      (context : Requirements) (application : PolicyApplicationPlan)
      → (apply_row_rule target assignment active rule
          (policies, context)
          application).0.0.field_filters
        ≡ policies.field_filters
  apply_row_rule-field_filters target assignment active none policies context application = refl
  apply_row_rule-field_filters target assignment active (some rule) policies context application =
      refl

  inactive_rules :
      (active : Truth) (rules : List CompiledPolicyFieldRule)
      → active ≡ Truth.fails
      → RulesGuard active rules
  unfolding RulesGuard
  inactive_rules active rules e = λ rule i written j k. rw e

  same_rules :
      {a b : Truth}
      → a ≡ b
      → (rules : List CompiledPolicyFieldRule) → RulesGuard a rules
      → RulesGuard b rules
  same_rules e rules h = rw e at h

  active-field_truth :
      (target : CompiledPolicyTarget) (assignment : Option PlannedPolicyAssignment)
      (active : FilterExpr) (policies : SourcePolicyPlan) (context : Requirements)
      (application : PolicyApplicationPlan)
      → (field_truth
            (apply_field_rules target assignment active target.field_rules
              (apply_row_rule target assignment active target.row_rule
                (policies, context)
                application).0.0
              (apply_row_rule target assignment active target.row_rule
                (policies, context)
                application).1).0.field_filters
          ≡ Truth.holds)
        ↔ ((field_truth policies.field_filters ≡ Truth.holds)
            × RulesGuard (truth atom active) target.field_rules)
  active-field_truth target assignment active policies context application =
      let state =
        apply_row_rule target assignment active target.row_rule (policies, context) application in
      let same : field_truth state.0.0.field_filters ≡ field_truth policies.field_filters =
        ap field_truth (
          apply_row_rule-field_filters target assignment active target.row_rule policies context
            application) in
      let rules =
        apply_field_rules-field_truth target assignment active target.field_rules state.0.0
          state.1 in
      (
        λ h. let (before, guards) = rules.0 h in (sym same ∙ before, guards),
        λ h. rules.1 (same ∙ h.0, h.1),
      )

  apply_active-field_truth :
      (target : CompiledPolicyTarget) (assignment : Option PlannedPolicyAssignment)
      (active : FilterExpr) (value : Option Bool) (policies : SourcePolicyPlan)
      (context : Requirements) (application : PolicyApplicationPlan)
      → filter_boolean active ≡ value
      → (field_truth
            (apply_active target assignment active value
              (policies, context)
              application).0.field_filters
          ≡ Truth.holds)
        ↔ ((field_truth policies.field_filters ≡ Truth.holds)
            × RulesGuard (truth atom active) target.field_rules)
  apply_active-field_truth target assignment active (some false) policies context application e = (
    λ h. (
      h,
      inactive_rules (truth atom active) target.field_rules
          (truth-filter_boolean atom active false e),
    ),
    λ h. h.0,
  )
  apply_active-field_truth target assignment active (some true) policies context application e =
      active-field_truth target assignment active policies context application
  apply_active-field_truth target assignment active none policies context application e =
      active-field_truth target assignment active policies context application

  apply_compiled-field_truth :
      (table : TableId) (selection_path : List String) (identity : Entity)
      (assignment : Option PlannedPolicyAssignment) (compiled : Option CompiledPolicyEntry)
      (target : Option CompiledPolicyTarget) (policies : SourcePolicyPlan) (context : Requirements)
      → (field_truth
            (apply_compiled table selection_path identity assignment compiled target
              (policies, context)).0.field_filters
          ≡ Truth.holds)
        ↔ ((field_truth policies.field_filters ≡ Truth.holds)
            × FieldPermitted assignment compiled target)
  apply_compiled-field_truth table path identity assignment none target policies context =
      (λ h. (h, tt), λ h. h.0)
  apply_compiled-field_truth table path identity assignment (some compiled) none policies context =
      (λ h. (h, tt), λ h. h.0)
  apply_compiled-field_truth table path identity assignment (some compiled) (some target) policies
        context =
      let desired = desired_filter assignment compiled in
      let active = active_filter target.enforcement desired in
      let step =
        apply_active-field_truth target assignment active (filter_boolean active) policies context
          (new_application table path identity compiled target assignment desired) refl in
      let meaning = truth-active_filter atom target.enforcement desired in
      (
        λ h.
            let (before, rules) = step.0 h in (before, same_rules meaning target.field_rules rules),
        λ h. step.1 (h.0, same_rules (sym meaning) target.field_rules h.1),
      )

  abbrev pub FieldPermittedFor :
      CompiledPolicyIndex → TableId → List PlannedPolicyAssignment → Entity → Type 0
  FieldPermittedFor compiled table assignments identity =
      FieldPermitted (assignment_for assignments identity) (compiled_entry compiled identity)
        (compiled_target compiled identity table)

  moved :
      (compiled : CompiledPolicyIndex) (table : TableId)
      (assignments : List PlannedPolicyAssignment) (identity x : Entity)
      → identity ≡ x
      → FieldPermittedFor compiled table assignments x
      → FieldPermittedFor compiled table assignments identity
  moved compiled table assignments identity x same h = rw same h

  pub apply_policies-field_truth :
      (compiled : CompiledPolicyIndex) (table : TableId) (selection_path : List String)
      (assignments : List PlannedPolicyAssignment) (identities : List Entity)
      (policies : SourcePolicyPlan) (context : Requirements)
      → (field_truth
            (apply_policies compiled table selection_path assignments identities
              (policies, context)).0.field_filters
          ≡ Truth.holds)
        ↔ ((field_truth policies.field_filters ≡ Truth.holds)
            × ((identity : Entity)
                → In identity identities
                → FieldPermittedFor compiled table assignments identity))
  unfolding apply_policies
  apply_policies-field_truth compiled table path assignments [] policies context =
      (λ h. (h, λ identity i. absurd i), λ h. h.0)
  apply_policies-field_truth compiled table path assignments (x ∷ xs) policies context =
      let state =
        apply_compiled table path x (assignment_for assignments x) (compiled_entry compiled x)
          (compiled_target compiled x table) (policies, context) in
      let step =
        apply_compiled-field_truth table path x (assignment_for assignments x)
          (compiled_entry compiled x) (compiled_target compiled x table) policies context in
      let later = apply_policies-field_truth compiled table path assignments xs state.0 state.1 in
      (
        λ h.
            let (first, rest) = later.0 h in
            let (before, here) = step.0 first in
            (
              before,
              λ identity i. elim i [
                | inl same ↦ moved compiled table assignments identity x same here
                | inr j ↦ rest identity j
              ],
            ),
        λ h. later.1 (step.1 (h.0, h.1 x (inl refl)), λ identity i. h.1 identity (inr i)),
      )
