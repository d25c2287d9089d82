-- ===== src/Sql/Related.antt =====
-- crates/dsql-core/src/sql/postgres.rs: the related rows of `filter_value_expr`, and aggregates over them.
use dsql.Prelude.{Option, none, some}
use dsql.Catalog.Enums.{AggregateFunction}
use dsql.Catalog.Types.{ColumnId, RelationId, Table, Catalog}
use dsql.Plan.Filter.{ExistsKind, PolicyFieldTarget}
use dsql.Sql.Builder.{Builder}
use dsql.Sql.Error.{SqlGenerationError}
use dsql.Sql.Template.{M, give, ◌>>=◌, present_or}
use dsql.Sql.Alias.{SelectionContext}
use dsql.Sql.View.{
  FieldGuard, SqlRowView, FilterSqlScope, policy_field_filter, render_policy_field_filter,
  found_relation, masked_column_expression, relation_condition,
}
use dsql.Sql.Atoms.{always, Lowered}

module _ (b : Builder) (catalog : Catalog) where
  open b use {
    Expr, Select, and_expr, or_expr, eq_expr, ne_expr, gt_expr, gte_expr, lt_expr, lte_expr, col,
    cust, cust_with_exprs, value_text, value_i64, value_u64, value_bool, exists_query, sub_query,
    asterisk, count_of, min_of, max_of, sum_of, avg_of, select, select_expr, from_as, cond_where,
    and_where,
  }

  abbrev pub where_optional : Option (M Expr) → Select → M Select
  where_optional none query = give query
  where_optional (some lowered) query = do filter ← lowered; give (and_where filter query)

  abbrev pub rendered_guard : Option (FieldGuard Expr) → Option (M Expr)
  rendered_guard none = none
  rendered_guard (some guard) = some (render_policy_field_filter guard)

  abbrev pub relation_guard : SqlRowView Expr → RelationId → Option (M Expr)
  relation_guard source relation_id =
      rendered_guard
        (policy_field_filter source.field_filters (PolicyFieldTarget.relation relation_id))

  -- The join of a related table to its source, if the source may read the relation.
  abbrev pub join_relation : SqlRowView Expr → SelectionContext → RelationId → Select → M Select
  join_relation source child relation_id query = do
    relation ← found_relation catalog relation_id
    condition ← relation_condition b catalog source.context child relation
    where_optional (relation_guard source relation.id) (cond_where condition query)

  abbrev pub join_optional :
      SqlRowView Expr → SelectionContext → Option RelationId → Select → M Select
  join_optional source child none query = give query
  join_optional source child (some relation_id) query = join_relation source child relation_id query

  abbrev pub related_rows : Table → SelectionContext → Select → Select
  related_rows table context query = from_as (table.schema, table.name) context.table_alias query

  abbrev pub masked_operand : SqlRowView Expr → Option ColumnId → M (Option Expr)
  masked_operand view none = give none
  masked_operand view (some column_id) = do
    expression ← masked_column_expression b catalog view column_id
    give (some expression)

  abbrev pub required_operand : Option Expr → M Expr
  required_operand operand = present_or operand SqlGenerationError.missing_aggregate_operand

  abbrev pub or_asterisk : Option Expr → Expr
  or_asterisk none = asterisk
  or_asterisk (some operand) = operand

  abbrev pub aggregate_of : AggregateFunction → Option Expr → M Expr
  aggregate_of AggregateFunction.count operand = give (count_of (or_asterisk operand))
  aggregate_of AggregateFunction.exists operand = give (gt_expr (count_of asterisk) (value_u64 0))
  aggregate_of AggregateFunction.min operand = do
    value ← required_operand operand
    give (min_of value)
  aggregate_of AggregateFunction.max operand = do
    value ← required_operand operand
    give (max_of value)
  aggregate_of AggregateFunction.sum operand = do
    value ← required_operand operand
    give (sum_of value)
  aggregate_of AggregateFunction.avg operand = do
    value ← required_operand operand
    give (avg_of value)

  unfoldable pub aggregate_value_expression :
      AggregateFunction → Option ColumnId → SqlRowView Expr → M Expr
  unfolding masked_column_expression
  aggregate_value_expression function operand view = do
    value ← masked_operand view operand
    aggregate_of function value

  abbrev pub finish_aggregate :
      AggregateFunction → Option ColumnId → SqlRowView Expr → Select → Lowered b catalog
  finish_aggregate AggregateFunction.exists operand view query =
      give (always b catalog (exists_query (select_expr (value_u64 1) query)))
  finish_aggregate function operand view query = do
    value ← aggregate_value_expression function operand view
    give (always b catalog (sub_query (select_expr value query)))

  -- The rows that an inner filter sees as its source and its parent.
  abbrev pub inner_scope :
      ExistsKind → FilterSqlScope Expr → SqlRowView Expr → SqlRowView Expr → FilterSqlScope Expr
  inner_scope ExistsKind.explicit scope view source = record {
    current = view;
    root = scope.root;
    predicate_source = view;
    parent = some source;
  }
  inner_scope ExistsKind.relationship_predicate scope view source = record {
    current = view;
    root = scope.root;
    predicate_source = scope.predicate_source;
    parent = scope.parent;
  }
