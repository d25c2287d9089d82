-- ===== src/Plan/Policies/Visible.antt =====
-- crates/dsql-core/src/plan/build.rs, `plan_source_policies`: the rows of a source that its policies
-- let through, whatever the query assigns.
use dsql.Prelude.{
  String, true, List, [], ◌∷◌, ◌++◌, map, keep, In, inl, inr, ◌⊎◌, ◌≡◌, ◌↔◌, refl, ◌∙◌, Bool-cases,
  keep-In, In-keep, map-In, In-map, append-In, In-append_left, In-append_right, contains-In,
  In-contains, and_iff, nat_eq, string_eq, ◌==◌, ltb,
}
use dsql.Catalog.Types.{TableId}
use dsql.Plan.Filter.{FilterExpr}
use dsql.Plan.Truth.{Truth}
use dsql.Plan.Policies.{
  Entity, PolicyKind, same_kind, PolicyEntry, PolicyIndex, CompiledPolicyIndex,
}
use dsql.Plan.Policies.Rules.{PlannedPolicyAssignment, Requirements}
use dsql.Plan.Policies.Source.{
  applies_to, entry_entity, assigned_entity, insert_entity, entity_set, source_identities,
  empty_plan, plan_source_policies,
}
use dsql.Plan.Policies.Rows.{row_truth, permits_for, apply_policies-row_truth}

In-insert_entity :
    (a : Entity) (xs : List Entity) (b : Entity) → (b ≡ a) ⊎ In b xs → In b (insert_entity a xs)
In-insert_entity a [] b (inl same) = inl same
In-insert_entity a [] b (inr i) = inr i
In-insert_entity a (x ∷ xs) b h = elim (Bool-cases (a == x)) [
  | inl e ↦ rw e (elim h [ inl same ↦ inl (same ∙ (nat_eq.beq_iff a x).0 e) | inr i ↦ i ])
  | inr e ↦ elim (Bool-cases (ltb a x)) [
    | inl f ↦ rw (e, f) h
    | inr f ↦
        rw (e, f)
          (elim h [
            | inl same ↦ inr (In-insert_entity a xs b (inl same))
            | inr i ↦ elim i [ inl same ↦ inl same | inr j ↦ inr (In-insert_entity a xs b (inr j)) ]
          ])
  ]
]

insert_entity-In :
    (a : Entity) (xs : List Entity) (b : Entity) → In b (insert_entity a xs) → (b ≡ a) ⊎ In b xs
insert_entity-In a [] b h = h
insert_entity-In a (x ∷ xs) b h = elim (Bool-cases (a == x)) [
  | inl e ↦ inr (rw e at h)
  | inr e ↦ elim (Bool-cases (ltb a x)) [
    | inl f ↦ let i : In b (a ∷ x ∷ xs) = rw (e, f) at h in i
    | inr f ↦
        let i : In b (x ∷ insert_entity a xs) = rw (e, f) at h in
        elim i [
          | inl same ↦ inr (inl same)
          | inr j ↦ elim (insert_entity-In a xs b j) [ inl same ↦ inl same | inr k ↦ inr (inr k) ]
        ]
  ]
]

entity_set-In : (xs : List Entity) (b : Entity) → In b (entity_set xs) ↔ In b xs
entity_set-In [] b = (λ i. i, λ i. i)
entity_set-In (x ∷ xs) b = (
  λ i. elim (insert_entity-In x (entity_set xs) b i) [
    | inl same ↦ inl same
    | inr j ↦ inr ((entity_set-In xs b).0 j)
  ],
  λ i.
      In-insert_entity x (entity_set xs) b
        (elim i [ inl same ↦ inl same | inr j ↦ inr ((entity_set-In xs b).1 j) ]),
)

same_kind_filter :
    (kind : PolicyKind) → (same_kind kind PolicyKind.filter ≡ true) ↔ (kind ≡ PolicyKind.filter)
same_kind_filter PolicyKind.filter = (λ h. refl, λ h. refl)
same_kind_filter PolicyKind.condition = (λ h. cc, λ h. cc)

-- A filter of a visible scope that matches the table.
pub record Applies (index : PolicyIndex) (scopes : List String) (table : TableId)
    (entry : PolicyEntry) : Type 0 where
  pub declared : In entry index.entries
  pub is_filter : entry.kind ≡ PolicyKind.filter
  pub matching : In table entry.matches
  pub in_scope : In entry.scope scopes

-- A filter that applies to the source, or that an assignment names.
pub data IsOnSource (index : PolicyIndex) (scopes : List String) (table : TableId)
    (assignments : List PlannedPolicyAssignment) (identity : Entity) : Type 0 where
  applied :
      (entry : PolicyEntry)
      → Applies index scopes table entry
      → identity ≡ entry.entity
      → IsOnSource index scopes table assignments identity
  assigned :
      (assignment : PlannedPolicyAssignment)
      → In assignment assignments
      → identity ≡ assignment.filter
      → IsOnSource index scopes table assignments identity

pub source_identities-IsOnSource :
    (index : PolicyIndex) (table : TableId) (scopes : List String)
    (assignments : List PlannedPolicyAssignment) (identity : Entity)
    → In identity (source_identities index table scopes assignments)
    → IsOnSource index scopes table assignments identity
unfolding source_identities
source_identities-IsOnSource index table scopes assignments identity i =
    let entities = map entry_entity (keep index.entries (applies_to table scopes)) in
    let named = map assigned_entity assignments in
    elim (append-In entities named identity ((entity_set-In (entities ++ named) identity).0 i)) [
      | inr j ↦
          let (assignment, k, e) = map-In assigned_entity assignments identity j in
          assigned assignment k e
      | inl j ↦
          let (entry, k, e) =
            map-In entry_entity (keep index.entries (applies_to table scopes)) identity j in
          let (declared, test) = keep-In index.entries (applies_to table scopes) entry k in
          let (kind, rest) = (and_iff _ _).0 test in
          let (matching, in_scope) = (and_iff _ _).0 rest in
          applied entry
            (record {
              declared = declared;
              is_filter = (same_kind_filter entry.kind).0 kind;
              matching = contains-In entry.matches table matching;
              in_scope = contains-In scopes entry.scope in_scope;
            })
            e
    ]

pub IsOnSource-In :
    (index : PolicyIndex) (table : TableId) (scopes : List String)
    (assignments : List PlannedPolicyAssignment) (identity : Entity)
    → IsOnSource index scopes table assignments identity
    → In identity (source_identities index table scopes assignments)
unfolding source_identities
IsOnSource-In index table scopes assignments identity (assigned assignment i e) =
    let entities = map entry_entity (keep index.entries (applies_to table scopes)) in
    let named = map assigned_entity assignments in
    (entity_set-In (entities ++ named) identity).1 (
      In-append_right entities named identity
        (rw e (In-map assigned_entity assignments assignment i)))
IsOnSource-In index table scopes assignments identity (applied entry a e) =
    let entities = map entry_entity (keep index.entries (applies_to table scopes)) in
    let named = map assigned_entity assignments in
    let test : applies_to table scopes entry ≡ true = (and_iff _ _).1 (
      (same_kind_filter entry.kind).1 a.is_filter,
      (and_iff _ _).1
          (In-contains entry.matches table a.matching, In-contains scopes entry.scope a.in_scope),
    ) in
    (entity_set-In (entities ++ named) identity).1 (
      In-append_left entities named identity (
        rw e (
          In-map entry_entity (keep index.entries (applies_to table scopes)) entry
            (In-keep index.entries (applies_to table scopes) entry a.declared test))))

module _ (atom : FilterExpr → Truth) (index : PolicyIndex) (compiled : CompiledPolicyIndex)
    (scopes : List String) (table : TableId) (selection_path : List String)
    (operation source explicit : List PlannedPolicyAssignment) (context : Requirements) where
  -- A row of a source passes the row filter exactly when every filter permits it that applies in a
  -- visible scope or that an assignment names: each filter that is enforced or wanted by its last
  -- assignment, or by its default, has a row rule that holds.
  pub plan_source_policies-permits :
      (row_truth atom
          (plan_source_policies index compiled scopes table selection_path operation source explicit
            context).0.row_filter
        ≡ Truth.holds)
      ↔ ((identity : Entity)
          → IsOnSource index scopes table (operation ++ (source ++ explicit)) identity
          → permits_for atom compiled table (operation ++ (source ++ explicit)) identity
            ≡ Truth.holds)
  unfolding plan_source_policies
  plan_source_policies-permits =
      let assignments = operation ++ (source ++ explicit) in
      let rows =
        apply_policies-row_truth atom compiled table selection_path assignments
          (source_identities index table scopes assignments) empty_plan context in
      (
        λ h identity on.
            (rows.0 h).1 identity (IsOnSource-In index table scopes assignments identity on),
        λ all. rows.1 (
          refl,
          λ identity i.
              all identity (source_identities-IsOnSource index table scopes assignments identity i),
        ),
      )
