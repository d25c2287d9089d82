-- ===== src/Plan/Filter.antt =====
-- crates/dsql-core/src/plan/types.rs: filter expressions, and what they are made of. A filter holds
-- lists of filters, so its lists stand in one block with it.
use dsql.Prelude.{
  ℕ, String, Bool, Option, none, some, List, ◌≡◌, ap, ◌↔◌, true, false, Eq, ◌==◌, nat_eq, string_eq,
}
use dsql.Catalog.Enums.{DataType, ComparisonOp, AggregateFunction, data_type_eq}
use dsql.Catalog.Types.{TableId, ColumnId, RelationId, TypeKey}
use dsql.Metadata.Wire.{WireEncoding, wire_eq}

pub data FilterOp : Type 0 where
  eq ne gt ge lt le like and or : FilterOp

unfoldable pub from_comparison : ComparisonOp → FilterOp
from_comparison ComparisonOp.eq = FilterOp.eq
from_comparison ComparisonOp.ne = FilterOp.ne
from_comparison ComparisonOp.gt = FilterOp.gt
from_comparison ComparisonOp.ge = FilterOp.ge
from_comparison ComparisonOp.lt = FilterOp.lt
from_comparison ComparisonOp.le = FilterOp.le
from_comparison ComparisonOp.like = FilterOp.like

-- `None` for the connectives, which operator variables cannot choose.
unfoldable pub dsql_label : FilterOp → Option String
dsql_label FilterOp.eq = some "=="
dsql_label FilterOp.ne = some "!="
dsql_label FilterOp.gt = some ">"
dsql_label FilterOp.ge = some ">="
dsql_label FilterOp.lt = some "<"
dsql_label FilterOp.le = some "<="
dsql_label FilterOp.like = some "like"
dsql_label FilterOp.and = none
dsql_label FilterOp.or = none

unfoldable pub postgres_text : FilterOp → Option String
postgres_text FilterOp.eq = some "="
postgres_text FilterOp.ne = some "!="
postgres_text FilterOp.gt = some ">"
postgres_text FilterOp.ge = some ">="
postgres_text FilterOp.lt = some "<"
postgres_text FilterOp.le = some "<="
postgres_text FilterOp.like = some "like"
postgres_text FilterOp.and = none
postgres_text FilterOp.or = none

-- entities/expression.rs
pub data DynamicInputSurface : Type 0 where
  selected indexed selected_indexed searchable : DynamicInputSurface

pub data DynamicPredicateOperator : Type 0 where
  eq neq gt gte lt lte like in_list not_in is_null : DynamicPredicateOperator

pub data DynamicOrderDirection : Type 0 where
  asc desc asc_nulls_first asc_nulls_last desc_nulls_first desc_nulls_last : DynamicOrderDirection

pub data PolicyAccess : Type 0 where
  unconditional context_only row_dependent : PolicyAccess

pub data PolicyFieldTarget : Type 0 where
  column : ColumnId → PolicyFieldTarget
  relation : RelationId → PolicyFieldTarget

pub record PolicyContextRequirement : Type 0 where
  pub path : String
  pub data_type : DataType
  pub wire : WireEncoding
  pub provider_type : Option TypeKey
  pub collection : Bool

pub record DynamicInputFieldPlan : Type 0 where
  pub key : String
  pub column : ColumnId
  pub data_type : DataType
  pub nullable : Bool
  pub access : PolicyAccess
  pub operators : List DynamicPredicateOperator
  pub directions : List DynamicOrderDirection

pub record SqlParameter : Type 0 where
  pub path : String
  pub text_cast : Option TypeKey
  pub collection : Bool

pub record SqlVariantCase : Type 0 where
  pub value : String
  pub text : String

pub data SqlValue : Type 0 where
  literal : ℕ → SqlValue
  parameter : SqlParameter → SqlValue

pub data FilterLiteral : Type 0 where
  string : String → FilterLiteral
  number : String → FilterLiteral
  bool : Bool → FilterLiteral
  null : FilterLiteral

pub data FilterColumnScope : Type 0 where
  current root predicate_source parent : FilterColumnScope

pub data ExistsKind : Type 0 where
  explicit relationship_predicate : ExistsKind

mutual
  pub data FilterExpr : Type 0 where
    absent : FilterExpr
    optional : (parameter : SqlParameter) → (operand : FilterExpr) → FilterExpr
    column : (scope : FilterColumnScope) → (column : ColumnId) → FilterExpr
    literal : FilterLiteral → FilterExpr
    parameter : SqlParameter → FilterExpr
    dynamic_predicate :
        (path : String)
        → (surface : DynamicInputSurface) → (fields : List DynamicInputFieldPlan) → FilterExpr
    binary : (left : FilterExpr) → (op : FilterOp) → (right : FilterExpr) → FilterExpr
    negation : FilterExpr → FilterExpr
    null_test : (operand : FilterExpr) → (negated : Bool) → FilterExpr
    membership :
        (operand : FilterExpr) → (collection : FilterCollection) → (negated : Bool) → FilterExpr
    variant_binary :
        (left : FilterExpr)
        → (path : String) → (variants : List SqlVariantCase) → (right : FilterExpr) → FilterExpr
    exists :
        (relation : Option RelationId)
        → (table : TableId) → (kind : ExistsKind) → (source_scope : FilterColumnScope)
        → (policy_filter : OptionalFilter) → (field_filters : FieldFilters)
        → (filter : OptionalFilter) → FilterExpr
    relation_aggregate :
        (relation : RelationId)
        → (table : TableId) → (function : AggregateFunction) → (operand : Option ColumnId)
        → (policy_filter : OptionalFilter) → (field_filters : FieldFilters) → FilterExpr

  -- `FilterCollection`
  pub data FilterCollection : Type 0 where
    items : Filters → FilterCollection
    bound : SqlParameter → FilterCollection

  -- `Vec<FilterExpr>`
  pub data Filters : Type 0 where
    none_left : Filters
    next : FilterExpr → Filters → Filters

  -- `Option<Box<FilterExpr>>`
  pub data OptionalFilter : Type 0 where
    no_filter : OptionalFilter
    only : FilterExpr → OptionalFilter

  -- `PolicyFieldFilter`
  pub data PolicyFieldFilter : Type 0 where
    field_filter :
        (target : PolicyFieldTarget)
        → (filter : FilterExpr) → (context : List PolicyContextRequirement) → PolicyFieldFilter

  -- `Vec<PolicyFieldFilter>`
  pub data FieldFilters : Type 0 where
    no_fields : FieldFilters
    field : PolicyFieldFilter → FieldFilters → FieldFilters

-- Derived equality.
abbrev pub target_same : PolicyFieldTarget → PolicyFieldTarget → Bool
target_same (PolicyFieldTarget.column a) (PolicyFieldTarget.column b) = a == b
target_same (PolicyFieldTarget.relation a) (PolicyFieldTarget.relation b) = a == b
target_same _ _ = false

pub target_same_iff : (a b : PolicyFieldTarget) → (target_same a b ≡ true) ↔ (a ≡ b)
target_same_iff (PolicyFieldTarget.column a) (PolicyFieldTarget.column b) = (
  λ h. ap PolicyFieldTarget.column ((nat_eq.beq_iff a b).0 h),
  λ h. (nat_eq.beq_iff a b).1 (cc h),
)
target_same_iff (PolicyFieldTarget.relation a) (PolicyFieldTarget.relation b) = (
  λ h. ap PolicyFieldTarget.relation ((nat_eq.beq_iff a b).0 h),
  λ h. (nat_eq.beq_iff a b).1 (cc h),
)
target_same_iff (PolicyFieldTarget.column a) (PolicyFieldTarget.relation b) = (λ h. cc, λ h. cc)
target_same_iff (PolicyFieldTarget.relation a) (PolicyFieldTarget.column b) = (λ h. cc, λ h. cc)

instance abbrev pub target_eq : Eq PolicyFieldTarget
target_eq = record { beq = target_same; beq_iff = target_same_iff }
