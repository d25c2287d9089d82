-- ===== src/Sql/View.antt =====
-- crates/dsql-core/src/sql/postgres.rs: the views of rows that a filter sees, and conditions that may
-- be absent. A guard on a field is kept as the rendering of its filter in the raw view of its source,
-- so that lowering recurs on the filter alone.
use dsql.Prelude.{
  String, Bool, true, false, Option, none, some, List, [], ◌∷◌, find, ◌==◌, strip_prefix,
}
use dsql.Catalog.Types.{TableId, ColumnId, RelationId, Table, Column, Relation, Catalog}
use dsql.Catalog.Lookup.{table_by_id, column_by_id, relation_by_id}
use dsql.Plan.Filter.{PolicyFieldTarget, PolicyContextRequirement, FilterColumnScope, target_eq}
use dsql.Sql.Builder.{Builder}
use dsql.Sql.Error.{SqlGenerationError}
use dsql.Sql.Template.{M, give, fail, ◌>>=◌, ◌>>◌, present_or, require_policy_context}
use dsql.Sql.Alias.{SelectionContext}

pub record FieldGuard (Expr : Type 0) : Type 0 where
  pub target : PolicyFieldTarget
  pub context : List PolicyContextRequirement
  pub render : M Expr

pub record SqlRowView (Expr : Type 0) : Type 0 where
  pub context : SelectionContext
  pub field_filters : List (FieldGuard Expr)

pub record FilterSqlScope (Expr : Type 0) : Type 0 where
  pub current : SqlRowView Expr
  pub root : SqlRowView Expr
  pub predicate_source : SqlRowView Expr
  pub parent : Option (SqlRowView Expr)

pub record ConditionalFilter (Expr : Type 0) : Type 0 where
  pub present : Option Expr
  pub value : Expr

module _ {Expr : Type 0} where
  abbrev pub readable_view : SelectionContext → List (FieldGuard Expr) → SqlRowView Expr
  readable_view context field_filters = record { context = context; field_filters = field_filters }

  abbrev pub raw_view : SelectionContext → SqlRowView Expr
  raw_view context = record { context = context; field_filters = [] }

  abbrev pub raw_scope : SelectionContext → FilterSqlScope Expr
  raw_scope context = record {
    current = raw_view context;
    root = raw_view context;
    predicate_source = raw_view context;
    parent = none;
  }

  abbrev pub or_view : Option (SqlRowView Expr) → SqlRowView Expr → SqlRowView Expr
  or_view none view = view
  or_view (some view) _ = view

  unfoldable pub filter_column_source : FilterSqlScope Expr → FilterColumnScope → SqlRowView Expr
  filter_column_source scope FilterColumnScope.current = scope.current
  filter_column_source scope FilterColumnScope.root = scope.root
  filter_column_source scope FilterColumnScope.predicate_source = scope.predicate_source
  filter_column_source scope FilterColumnScope.parent = or_view scope.parent scope.current

  unfoldable pub policy_field_filter :
      List (FieldGuard Expr) → PolicyFieldTarget → Option (FieldGuard Expr)
  policy_field_filter filters target =
      find filters (λ (guard : FieldGuard Expr). guard.target == target)

  -- The context that a guard needs is required where the guard is rendered.
  unfoldable pub render_policy_field_filter : FieldGuard Expr → M Expr
  render_policy_field_filter guard = require_policy_context guard.context >> guard.render

unfoldable pub found_table : Catalog → TableId → M Table
unfolding table_by_id
found_table catalog id = present_or (table_by_id catalog id) (SqlGenerationError.missing_table id)

unfoldable pub found_column : Catalog → ColumnId → M Column
unfolding column_by_id
found_column catalog id =
    present_or (column_by_id catalog id) (SqlGenerationError.missing_column id)

unfoldable pub found_relation : Catalog → RelationId → M Relation
unfolding relation_by_id
found_relation catalog id =
    present_or (relation_by_id catalog id) (SqlGenerationError.missing_relation id)

module _ (b : Builder) where
  open b use {
    Expr, Condition, and_expr, or_expr, col, cust, cust_with_exprs, case_or_null, all_conditions,
    add_equals, select, select_expr, to_text,
  }

  unfoldable pub not_expr : Expr → Expr
  not_expr expression = cust_with_exprs "NOT ($1)" (expression ∷ [])

  -- The value that constrains the type of a parameter stands before its presence guard.
  unfoldable pub value_or_absent : Expr → Expr → Expr
  unfolding not_expr
  value_or_absent value present = or_expr value (not_expr present)

  unfoldable pub value_if_present : Expr → Expr → Expr
  value_if_present value present = and_expr value present

  abbrev conditional : Option Expr → Expr → ConditionalFilter Expr
  conditional present value = record { present = present; value = value }

  abbrev pub combine_and : Expr → Option Expr → Expr → Option Expr → ConditionalFilter Expr
  combine_and left none right none = conditional none (and_expr left right)
  combine_and left none right (some right_present) =
      conditional none (and_expr left (value_or_absent right right_present))
  combine_and left (some left_present) right none =
      conditional none (and_expr (value_or_absent left left_present) right)
  combine_and left (some left_present) right (some right_present) =
      conditional (some (or_expr left_present right_present))
        (and_expr (value_or_absent left left_present) (value_or_absent right right_present))

  abbrev pub combine_or : Expr → Option Expr → Expr → Option Expr → ConditionalFilter Expr
  combine_or left none right none = conditional none (or_expr left right)
  combine_or left none right (some right_present) =
      conditional none (or_expr left (value_if_present right right_present))
  combine_or left (some left_present) right none =
      conditional none (or_expr (value_if_present left left_present) right)
  combine_or left (some left_present) right (some right_present) =
      conditional (some (or_expr left_present right_present))
        (or_expr (value_if_present left left_present) (value_if_present right right_present))

  unfoldable pub combine_conditional :
      ConditionalFilter Expr → Bool → ConditionalFilter Expr → ConditionalFilter Expr
  unfolding value_or_absent value_if_present
  combine_conditional left true right =
      combine_and left.value left.present right.value right.present
  combine_conditional left false right =
      combine_or left.value left.present right.value right.present

  abbrev pub masked : Expr → Option (FieldGuard Expr) → M Expr
  masked raw none = give raw
  masked raw (some filter) = do
    guard ← render_policy_field_filter filter
    give (case_or_null guard raw)

  unfoldable pub masked_column_expression : Catalog → SqlRowView Expr → ColumnId → M Expr
  unfolding found_column policy_field_filter render_policy_field_filter
  masked_column_expression catalog source column_id = do
    column ← found_column catalog column_id
    masked (col source.context.table_alias column.name)
        (policy_field_filter source.field_filters (PolicyFieldTarget.column column_id))

  abbrev pub dynamic_rendered : Option String → M String
  dynamic_rendered none = fail SqlGenerationError.dynamic_expression_render
  dynamic_rendered (some text) = give text

  unfoldable pub dynamic_field_expression : Catalog → SqlRowView Expr → ColumnId → M String
  unfolding masked_column_expression strip_prefix
  dynamic_field_expression catalog source column = do
    expression ← masked_column_expression catalog source column
    dynamic_rendered (strip_prefix "SELECT " (to_text (select_expr expression select)))

  -- The pairs of columns that join a child to its parent.
  unfoldable pub relation_condition_from :
      Catalog
      → SelectionContext
      → SelectionContext
      → List ColumnId
      → List ColumnId
      → Condition
      → M Condition
  unfolding found_column
  relation_condition_from catalog parent child (p ∷ ps) (c ∷ cs) condition = do
    child_column ← found_column catalog c
    parent_column ← found_column catalog p
    relation_condition_from catalog parent child ps cs (
        add_equals condition (child.table_alias, child_column.name)
          (parent.table_alias, parent_column.name))
  relation_condition_from catalog parent child _ _ condition = give condition

  unfoldable pub relation_condition :
      Catalog → SelectionContext → SelectionContext → Relation → M Condition
  unfolding relation_condition_from
  relation_condition catalog parent child relation =
      relation_condition_from catalog parent child relation.local_columns relation.target_columns
        all_conditions
