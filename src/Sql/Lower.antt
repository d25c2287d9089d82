-- ===== src/Sql/Lower.antt =====
-- crates/dsql-core/src/sql/postgres.rs, `conditional_filter_expr` and `filter_value_expr`: filters as
-- SQL. The value of a filter is only asked for where the filter is no connective, no negation and no
-- optional or absent atom, so that one function lowers both.
pub mod Grows
pub mod Atoms
pub mod Whole
pub mod Never
use dsql.Prelude.{Bool, Option, none, some, List, [], ◌∷◌, format}
use dsql.Catalog.Types.{Catalog}
use dsql.Plan.Filter.{
  FilterExpr, FilterCollection, Filters, OptionalFilter, FieldFilters, absent, optional, literal,
  dynamic_predicate, binary, negation, null_test, membership, variant_binary, exists,
  relation_aggregate, items, bound, none_left, next, no_filter, only, field_filter, no_fields,
  field,
}
use dsql.Sql.Builder.{Builder}
use dsql.Sql.Sites.{DynamicInputKind, DynamicMarkerKind}
use dsql.Sql.Template.{M, give, ◌>>=◌, parameter_text, variant_text, dynamic_site}
use dsql.Sql.Alias.{SelectionContext, context_for, table_label}
use dsql.Sql.View.{
  FieldGuard, FilterSqlScope, readable_view, raw_scope, filter_column_source, found_table, not_expr,
  masked_column_expression,
}
use dsql.Sql.Dynamic.{generated_dynamic_predicate_fields}
use dsql.Sql.Atoms.{
  null_comparison_operand, aggregate_label, Lowered, always, settle, literal_value, null_test_expr,
  binary_filter, variant_filter, member_of_list, member_of_parameter,
}
use dsql.Sql.Related.{
  where_optional, join_relation, join_optional, related_rows, finish_aggregate, inner_scope,
}

module _ (b : Builder) (catalog : Catalog) where
  open b use {Expr, and_expr, cust, value_u64, exists_query, select, select_expr}

  unfoldable mutual
    pub conditional_filter_expr : FilterSqlScope Expr → FilterExpr → Lowered b catalog
    conditional_filter_expr scope absent =
        give (record { present = some (cust "FALSE"); value = cust "TRUE" })
    conditional_filter_expr scope (optional parameter operand) =
        let lowered = conditional_filter_expr scope operand in
        do
          inner ← lowered
          placeholder ← parameter_text parameter
          give (record {
            present = some (elim inner.present [
              | none ↦ cust (format (placeholder ∷ " IS NOT NULL" ∷ []))
              | some present ↦ and_expr (cust (format (placeholder ∷ " IS NOT NULL" ∷ []))) present
            ]);
            value = inner.value;
          })
    conditional_filter_expr scope (FilterExpr.column column_scope column_id) = do
      value ← masked_column_expression b catalog (filter_column_source scope column_scope) column_id
      give (always b catalog value)
    conditional_filter_expr scope (literal value) = do
      expression ← literal_value b catalog value
      give (always b catalog expression)
    conditional_filter_expr scope (FilterExpr.parameter parameter) = do
      placeholder ← parameter_text parameter
      give (always b catalog (cust placeholder))
    conditional_filter_expr scope (dynamic_predicate path surface fields) = do
      generated ← generated_dynamic_predicate_fields b catalog scope.current fields
      marker ← dynamic_site path DynamicInputKind.predicate "TRUE" generated DynamicMarkerKind.exact
      give (always b catalog (cust marker))
    conditional_filter_expr scope (binary left op right) =
        let lowered_left = conditional_filter_expr scope left in
        let lowered_right = conditional_filter_expr scope right in
        binary_filter b catalog scope op left lowered_left right lowered_right
    conditional_filter_expr scope (negation operand) =
        let lowered = conditional_filter_expr scope operand in
        do
          inner ← lowered
          give (record { present = inner.present; value = not_expr b inner.value })
    conditional_filter_expr scope (null_test operand negated) =
        let lowered = conditional_filter_expr scope operand in
        do
          test ← null_test_expr b catalog scope operand lowered negated
          give (always b catalog test)
    conditional_filter_expr scope (membership operand collection negated) =
        let lowered = conditional_filter_expr scope operand in
        do value ← settle b catalog lowered; lower_collection scope negated value collection
    conditional_filter_expr scope (variant_binary left path variants right) =
        let lowered_left = conditional_filter_expr scope left in
        let lowered_right = conditional_filter_expr scope right in
        do
          operator ← variant_text path variants
          variant_filter b catalog (null_comparison_operand left right) operator lowered_left
              lowered_right
    conditional_filter_expr scope
          (exists relation table_id kind source_scope policy_filter field_filters filter) =
        do
          related ← found_table catalog table_id
          let context = context_for related related.name (table_label related ∷ [])
          let view = readable_view context (lower_fields context field_filters)
          let source = filter_column_source scope source_scope
          joined ←
              join_optional b catalog source context relation
                (related_rows b catalog related context (select_expr (value_u64 1) select))
          policed ←
              where_optional b catalog (lower_optional (raw_scope context) policy_filter) joined
          query ←
              where_optional b catalog
                (lower_optional (inner_scope b catalog kind scope view source) filter) policed
          give (always b catalog (exists_query query))
    conditional_filter_expr scope
          (relation_aggregate relation table_id function operand policy_filter field_filters) =
        do
          related ← found_table catalog table_id
          let context =
              context_for related related.name (table_label related ∷ aggregate_label function ∷ [])
          let view = readable_view context (lower_fields context field_filters)
          joined ←
              join_relation b catalog scope.current context relation
                (related_rows b catalog related context select)
          policed ←
              where_optional b catalog (lower_optional (raw_scope context) policy_filter) joined
          finish_aggregate b catalog function operand view policed

    pub lower_collection : FilterSqlScope Expr → Bool → Expr → FilterCollection → Lowered b catalog
    lower_collection scope negated operand (items filters) = do
      expressions ← lower_items scope filters
      give (always b catalog (member_of_list b catalog operand negated expressions))
    lower_collection scope negated operand (bound parameter) =
        member_of_parameter b catalog parameter negated operand

    pub lower_items : FilterSqlScope Expr → Filters → M (List Expr)
    lower_items scope none_left = give []
    lower_items scope (next filter filters) =
        let lowered = conditional_filter_expr scope filter in
        do
          expression ← settle b catalog lowered
          expressions ← lower_items scope filters
          give (expression ∷ expressions)

    pub lower_optional : FilterSqlScope Expr → OptionalFilter → Option (M Expr)
    lower_optional scope no_filter = none
    lower_optional scope (only filter) =
        some (settle b catalog (conditional_filter_expr scope filter))

    pub lower_fields : SelectionContext → FieldFilters → List (FieldGuard Expr)
    lower_fields context no_fields = []
    lower_fields context (field (field_filter target filter requirements) filters) =
        (record {
          target = target;
          context = requirements;
          render = settle b catalog (conditional_filter_expr (raw_scope context) filter);
        })
        ∷ lower_fields context filters

  unfoldable pub filter_expr : FilterSqlScope Expr → FilterExpr → M Expr
  unfolding conditional_filter_expr
  filter_expr scope filter = settle b catalog (conditional_filter_expr scope filter)
