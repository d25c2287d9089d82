-- ===== src/Plan/Policies/Tests.antt =====
-- Tests on one table of posts with three filters: an enforced one of tenants, one that hides drafts by
-- default, and a disabled one; and on a query that tries to switch them off.
use dsql.Prelude.{
  ℕ, String, true, false, none, some, List, [], ◌∷◌, In, inl, ◌≡◌, ◌↔◌, refl, string_eq, nat_eq,
  ◌==◌,
}
use dsql.Source.Scopes.{ScopeImports, imports, collect, visible_from}
use dsql.Source.Scopes.Reach.{Reach, here, via}
use dsql.Plan.Filter.{
  PolicyFieldTarget, FilterOp, FilterLiteral, FilterColumnScope, FilterExpr, literal, binary,
}
use dsql.Plan.Truth.{Truth, of_bool}
use dsql.Plan.Guards.{boolean_filter, filter_boolean, or_filter, and_filter, active_policy_guard}
use dsql.Plan.Guards.Meaning.{truth}
use dsql.Plan.Policies.{
  PolicyKind, PolicyEntry, PolicyIndex, CompiledPolicyField, CompiledPolicyTarget,
  CompiledPolicyEntry, CompiledPolicyIndex, compiled_entry, compiled_target,
}
use dsql.Plan.Policies.Rules.{PlannedPolicyAssignment, apply_fields, apply_field_rules}
use dsql.Plan.Policies.Source.{source_identities, apply_policies, plan_source_policies}
use dsql.Plan.Policies.Rows.{row_truth, permits_for}
use dsql.Plan.Policies.Fields.{field_truth, FieldPermittedFor}
use dsql.Plan.Policies.Visible.{IsOnSource, plan_source_policies-permits}
use dsql.Plan.Policies.Enforced.{plan_source_policies-enforced}
use dsql.Plan.Policies.Readable.{plan_source_policies-readable}

abbrev flag : ℕ → FilterExpr
flag n = FilterExpr.column FilterColumnScope.current n

abbrev yes_filter : FilterExpr
yes_filter = literal (FilterLiteral.bool true)

abbrev tenant_rules : CompiledPolicyTarget
tenant_rules = record {
  table = 4;
  enforcement = some yes_filter;
  row_rule = some (flag 0);
  field_rules = [];
  context = [];
}

abbrev draft_rules : CompiledPolicyTarget
draft_rules = record {
  table = 4;
  enforcement = none;
  row_rule = some (flag 1);
  field_rules = (record { fields = CompiledPolicyField.column 7 ∷ []; condition = flag 2 }) ∷ [];
  context = [];
}

abbrev entry_of : ℕ → String → String → PolicyEntry
entry_of n scope name = record {
  entity = n;
  scope = scope;
  kind = PolicyKind.filter;
  name = name;
  matches = 4 ∷ [];
  default_active = true;
  always_enforced = false;
}

abbrev index : PolicyIndex
index = record { entries = entry_of 1 "base" "tenant" ∷ entry_of 2 "app" "drafts" ∷ [] }

abbrev compiled_of : ℕ → String → String → CompiledPolicyTarget → CompiledPolicyEntry
compiled_of n scope name target = record {
  entity = n;
  scope = scope;
  name = name;
  default_active = true;
  has_field_rules = true;
  conditions = [];
  targets = target ∷ [];
}

abbrev compiled : CompiledPolicyIndex
compiled = record {
  entries =
      compiled_of 1 "base" "tenant" tenant_rules ∷ compiled_of 2 "app" "drafts" draft_rules ∷ [];
}

abbrev switch_off : ℕ → PlannedPolicyAssignment
switch_off n = record { filter = n; desired = literal (FilterLiteral.bool false); context = [] }

abbrev project : ScopeImports
project = ("app", "base" ∷ []) ∷ ("base", []) ∷ []

-- The query switches both off; only the one that is not enforced goes.
abbrev off : List PlannedPolicyAssignment
off = switch_off 1 ∷ switch_off 2 ∷ []

off_row_filter :
    (plan_source_policies index compiled
      ("app" ∷ "base" ∷ [])
      4
      ("posts" ∷ [])
      off
      []
      []
      []).0.row_filter
    ≡ some (flag 0)
unfolding plan_source_policies source_identities apply_policies compiled_entry compiled_target
    apply_field_rules filter_boolean or_filter active_policy_guard
off_row_filter = refl

default_row_filter :
    (plan_source_policies index compiled
      ("app" ∷ "base" ∷ [])
      4
      ("posts" ∷ [])
      []
      []
      []
      []).0.row_filter
    ≡ some (binary (flag 0) FilterOp.and (flag 1))
unfolding plan_source_policies source_identities apply_policies compiled_entry compiled_target
    apply_field_rules apply_fields filter_boolean or_filter and_filter active_policy_guard
    boolean_filter
default_row_filter = refl

-- A row of which the tenant is right, and nothing else is known.
abbrev own_row : FilterExpr → Truth
own_row (FilterExpr.column scope column) = of_bool (column == 0)
own_row _ = Truth.unknown

visible_scopes : visible_from 4 project "app" ≡ some ("app" ∷ "base" ∷ [])
unfolding visible_from collect
visible_scopes = refl

tenant_compiled : compiled_target compiled 1 4 ≡ some tenant_rules
unfolding compiled_target compiled_entry
tenant_compiled = refl

tenant_enforced : truth own_row yes_filter ≡ Truth.holds
unfolding truth
tenant_enforced = refl

off_passes :
    row_truth own_row
      (plan_source_policies index compiled
        ("app" ∷ "base" ∷ [])
        4
        ("posts" ∷ [])
        off
        []
        []
        []).0.row_filter
    ≡ Truth.holds
unfolding plan_source_policies source_identities apply_policies compiled_entry compiled_target
    apply_field_rules filter_boolean or_filter active_policy_guard truth
off_passes = refl

base_reached : Reach project "app" "base"
base_reached = let edge : In {A = String} "base" (imports project "app") = inl refl in via here edge

plan_source_policies-enforced_example : truth own_row (flag 0) ≡ Truth.holds
plan_source_policies-enforced_example =
    plan_source_policies-enforced own_row index compiled 4 project "app" ("app" ∷ "base" ∷ []) 4
      ("posts" ∷ []) off [] [] [] (entry_of 1 "base" "tenant") tenant_rules yes_filter (flag 0)
      visible_scopes base_reached (inl refl) refl (inl refl) tenant_compiled refl refl
      tenant_enforced off_passes

plan_source_policies-permits_example :
    (row_truth own_row
        (plan_source_policies index compiled
          ("app" ∷ "base" ∷ [])
          4
          ("posts" ∷ [])
          off
          []
          []
          []).0.row_filter
      ≡ Truth.holds)
    ↔ ((identity : ℕ)
        → IsOnSource index ("app" ∷ "base" ∷ []) 4 off identity
        → permits_for own_row compiled 4 off identity ≡ Truth.holds)
plan_source_policies-permits_example =
    plan_source_policies-permits own_row index compiled ("app" ∷ "base" ∷ []) 4 ("posts" ∷ []) off
      [] [] []

plan_source_policies-readable_example :
    (field_truth own_row
        (PolicyFieldTarget.column 7)
        (plan_source_policies index compiled
          ("app" ∷ "base" ∷ [])
          4
          ("posts" ∷ [])
          []
          []
          []
          []).0.field_filters
      ≡ Truth.holds)
    ↔ ((identity : ℕ)
        → IsOnSource index ("app" ∷ "base" ∷ []) 4 [] identity
        → FieldPermittedFor own_row (PolicyFieldTarget.column 7) compiled 4 [] identity)
plan_source_policies-readable_example =
    plan_source_policies-readable own_row (PolicyFieldTarget.column 7) index compiled
      ("app" ∷ "base" ∷ []) 4 ("posts" ∷ []) [] [] [] []
