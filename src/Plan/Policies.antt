-- ===== src/Plan/Policies.antt =====
-- crates/dsql-core/src/entities/policy.rs: what the policies of a project compile to, and their lookup.
-- An entity is a number. Spans and the parts that only diagnostics read are left out.
pub mod Audit
pub mod Rules
pub mod Source
pub mod Rows
pub mod Visible
pub mod Enforced
pub mod Fields
pub mod Readable
pub mod Tests
use dsql.Prelude.{
  ℕ, String, Bool, true, false, ◌&&◌, Option, none, some, List, [], ◌∷◌, find, keep, contains, ◌==◌,
  nat_eq, string_eq,
}
use dsql.Catalog.Types.{TableId, ColumnId, RelationId}
use dsql.Plan.Filter.{PolicyContextRequirement, FilterExpr}

abbrev pub Entity : Type 0
Entity = ℕ

pub data PolicyKind : Type 0 where
  filter condition : PolicyKind

abbrev pub same_kind : PolicyKind → PolicyKind → Bool
same_kind PolicyKind.filter PolicyKind.filter = true
same_kind PolicyKind.condition PolicyKind.condition = true
same_kind _ _ = false

pub record PolicyEntry : Type 0 where
  pub entity : Entity
  pub scope : String
  pub kind : PolicyKind
  pub name : String
  pub matches : List TableId
  pub default_active : Bool
  pub always_enforced : Bool

pub record PolicyIndex : Type 0 where
  pub entries : List PolicyEntry

pub data CompiledPolicyField : Type 0 where
  column : ColumnId → CompiledPolicyField
  relation : RelationId → CompiledPolicyField

pub record CompiledPolicyFieldRule : Type 0 where
  pub fields : List CompiledPolicyField
  pub condition : FilterExpr

pub record CompiledPolicyTarget : Type 0 where
  pub table : TableId
  pub enforcement : Option FilterExpr
  pub row_rule : Option FilterExpr
  pub field_rules : List CompiledPolicyFieldRule
  pub context : List PolicyContextRequirement

pub record CompiledPolicyReference : Type 0 where
  pub scope : String
  pub name : String

pub record CompiledPolicyEntry : Type 0 where
  pub entity : Entity
  pub scope : String
  pub name : String
  pub default_active : Bool
  pub has_field_rules : Bool
  pub conditions : List CompiledPolicyReference
  pub targets : List CompiledPolicyTarget

pub record CompiledPolicyIndex : Type 0 where
  pub entries : List CompiledPolicyEntry

unfoldable pub compiled_entry : CompiledPolicyIndex → Entity → Option CompiledPolicyEntry
compiled_entry self entity = find self.entries (λ entry. entry.entity == entity)

abbrev pub target_of : Option CompiledPolicyEntry → TableId → Option CompiledPolicyTarget
target_of none table = none
target_of (some entry) table = find entry.targets (λ target. target.table == table)

unfoldable pub compiled_target :
    CompiledPolicyIndex → Entity → TableId → Option CompiledPolicyTarget
unfolding compiled_entry
compiled_target self entity table = target_of (compiled_entry self entity) table

unfoldable pub policy_entry : PolicyIndex → Entity → Option PolicyEntry
policy_entry self entity = find self.entries (λ entry. entry.entity == entity)

-- `visible` is what `visible_from` gives for the scope.
unfoldable pub visible_policies : PolicyIndex → List String → PolicyKind → String → List PolicyEntry
visible_policies self scopes kind name =
    keep self.entries
      (λ entry. same_kind entry.kind kind && (entry.name == name && contains scopes entry.scope))
