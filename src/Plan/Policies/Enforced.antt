-- ===== src/Plan/Policies/Enforced.antt =====
-- crates/dsql-core/src/plan/build.rs, `plan_source_policies`: filters that no query can switch off.
use dsql.Prelude.{ℕ, String, Option, none, some, List, ◌++◌, In, ◌≡◌, refl, nat_eq, string_eq}
use dsql.Catalog.Types.{TableId}
use dsql.Source.Scopes.{ScopeImports, visible_from}
use dsql.Source.Scopes.Reach.{Reach}
use dsql.Source.Scopes.Complete.{visible_from_complete}
use dsql.Plan.Filter.{FilterExpr}
use dsql.Plan.Truth.{Truth, negate, either}
use dsql.Plan.Guards.Meaning.{truth}
use dsql.Plan.Policies.{
  Entity, PolicyKind, PolicyEntry, PolicyIndex, CompiledPolicyTarget, CompiledPolicyEntry,
  CompiledPolicyIndex, compiled_entry, compiled_target, target_of,
}
use dsql.Plan.Policies.Rules.{PlannedPolicyAssignment, Requirements, desired_filter}
use dsql.Plan.Policies.Source.{assignment_for, plan_source_policies}
use dsql.Plan.Policies.Rows.{row_truth, active_truth, rule_truth, permits}
use dsql.Plan.Policies.Visible.{Applies, applied, plan_source_policies-permits}

enforced_rule :
    (active rule : Truth)
    → active ≡ Truth.holds
    → either (negate active) rule ≡ Truth.holds
    → rule ≡ Truth.holds
enforced_rule active rule e h = rw e at h

active_enforced :
    (atom : FilterExpr → Truth) (enforcement : FilterExpr) (desired : Truth)
    → truth atom enforcement ≡ Truth.holds
    → active_truth atom (some enforcement) desired ≡ Truth.holds
active_enforced atom enforcement desired e = rw e

enforced_rule_truth :
    (atom : FilterExpr → Truth) (enforcement rule : Option FilterExpr) (desired : Truth)
    (always row : FilterExpr)
    → enforcement ≡ some always
    → rule ≡ some row
    → truth atom always ≡ Truth.holds
    → rule_truth atom (active_truth atom enforcement desired) rule ≡ Truth.holds
    → truth atom row ≡ Truth.holds
enforced_rule_truth atom enforcement rule desired always row e f h k =
    let at_values : rule_truth atom (active_truth atom (some always) desired) (some row)
        ≡ Truth.holds =
      rw (e, f) at k in
    enforced_rule (active_truth atom (some always) desired) (truth atom row)
      (active_enforced atom always desired h) at_values

permits_enforced :
    (atom : FilterExpr → Truth) (assignment : Option PlannedPolicyAssignment)
    (compiled : Option CompiledPolicyEntry) (target : Option CompiledPolicyTarget)
    (entry : CompiledPolicyEntry) (rules : CompiledPolicyTarget) (always row : FilterExpr)
    → compiled ≡ some entry
    → target ≡ some rules
    → rules.enforcement ≡ some always
    → rules.row_rule ≡ some row
    → truth atom always ≡ Truth.holds
    → permits atom assignment compiled target ≡ Truth.holds
    → truth atom row ≡ Truth.holds
permits_enforced atom assignment compiled target entry rules always row c t e f h k =
    let at_values : permits atom assignment (some entry) (some rules) ≡ Truth.holds =
      rw (c, t) at k in
    enforced_rule_truth atom rules.enforcement rules.row_rule
      (truth atom (desired_filter assignment entry)) always row e f h at_values

target_of-eq-some :
    (compiled : Option CompiledPolicyEntry) (table : TableId) (rules : CompiledPolicyTarget)
    → target_of compiled table ≡ some rules
    → (entry : CompiledPolicyEntry) × (compiled ≡ some entry)
target_of-eq-some none table rules h = cc
target_of-eq-some (some entry) table rules h = (entry, refl)

compiled_target-entry :
    (compiled : CompiledPolicyIndex) (identity : Entity) (table : TableId)
    (rules : CompiledPolicyTarget)
    → compiled_target compiled identity table ≡ some rules
    → (entry : CompiledPolicyEntry) × (compiled_entry compiled identity ≡ some entry)
unfolding compiled_target
compiled_target-entry compiled identity table rules h =
    target_of-eq-some (compiled_entry compiled identity) table rules h

-- An enforced filter cannot be switched off: where imports lead from the scope of the query to the
-- scope of a filter that matches the table, every row that the plan lets through, and for which the
-- filter's enforcement condition holds, satisfies its row rule, whatever the operation, the source
-- and the expression assign.
pub plan_source_policies-enforced :
    (atom : FilterExpr → Truth) (index : PolicyIndex) (compiled : CompiledPolicyIndex) (fuel : ℕ)
    (imports : ScopeImports) (scope : String) (scopes : List String) (table : TableId)
    (selection_path : List String) (operation source explicit : List PlannedPolicyAssignment)
    (context : Requirements) (entry : PolicyEntry) (rules : CompiledPolicyTarget)
    (always row : FilterExpr)
    → visible_from fuel imports scope ≡ some scopes
    → Reach imports scope entry.scope
    → In entry index.entries
    → entry.kind ≡ PolicyKind.filter
    → In table entry.matches
    → compiled_target compiled entry.entity table ≡ some rules
    → rules.enforcement ≡ some always
    → rules.row_rule ≡ some row
    → truth atom always ≡ Truth.holds
    → row_truth atom
        (plan_source_policies index compiled scopes table selection_path operation source explicit
          context).0.row_filter
      ≡ Truth.holds
    → truth atom row ≡ Truth.holds
plan_source_policies-enforced atom index compiled fuel imports scope scopes table path operation
      source explicit context entry rules always row seen reached declared kind matching t e f h
      passes =
    let in_scope = visible_from_complete imports fuel scope entry.scope scopes seen reached in
    let applies : Applies index scopes table entry = record {
      declared = declared;
      is_filter = kind;
      matching = matching;
      in_scope = in_scope;
    } in
    let permitted =
      (plan_source_policies-permits atom index compiled scopes table path operation source explicit
          context).0
        passes entry.entity (applied entry applies refl) in
    let (found, c) = compiled_target-entry compiled entry.entity table rules t in
    permits_enforced atom (assignment_for (operation ++ (source ++ explicit)) entry.entity)
      (compiled_entry compiled entry.entity) (compiled_target compiled entry.entity table) found
      rules always row c t e f h permitted
