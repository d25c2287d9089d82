-- ===== src/Sql/Lower/Whole.antt =====
-- crates/dsql-core/src/sql/postgres.rs: lowering a filter, whatever it
-- holds, only adds parameters: a number that was given to a parameter stays.
use dsql.Prelude.{Extends, Bool, Option, none, some, ◌≡◌}
use dsql.Catalog.Enums.{AggregateFunction}
use dsql.Catalog.Types.{Catalog, ColumnId}
use dsql.Plan.Filter.{
  ExistsKind, FilterExpr, FilterCollection, Filters, OptionalFilter, FieldFilters, absent, optional,
  literal, dynamic_predicate, binary, negation, null_test, membership, variant_binary, exists,
  relation_aggregate, items, bound, none_left, next, no_filter, only, field_filter, no_fields,
  field, target_eq,
}
use dsql.Sql.Builder.{Builder}
use dsql.Sql.Error.{done}
use dsql.Sql.Template.{SqlTemplateContext}
use dsql.Sql.Template.Grows.{
  Grows, give-Grows, >>=-Grows, present_or-Grows, variant_text-Grows, dynamic_site-Grows,
  parameter_text-Grows,
}
use dsql.Sql.Alias.{SelectionContext}
use dsql.Sql.View.{ConditionalFilter, raw_scope, SqlRowView, FilterSqlScope}
use dsql.Sql.Related.{
  masked_operand, aggregate_of, aggregate_value_expression, finish_aggregate, inner_scope,
}
use dsql.Sql.Lower.{
  conditional_filter_expr, lower_collection, lower_items, lower_optional, lower_fields,
}
use dsql.Sql.Lower.Grows.{GuardsGrow, ScopeGrows, source_grows}
use dsql.Sql.Lower.Atoms.{
  settle-Grows, found_table-Grows, masked_column_expression-Grows, literal_value-Grows,
  generated_dynamic_predicate_fields-Grows, null_test_expr-Grows, binary_filter-Grows,
  variant_filter-Grows, member_of_parameter-Grows, OptionGrows, where_optional-Grows,
  join_relation-Grows, join_optional-Grows,
}

module _ (b : Builder) (catalog : Catalog) where
  open b use {Expr, Select}

  pub raw_grows : (context : SelectionContext) → ScopeGrows (raw_scope {Expr = Expr} context)
  raw_grows context = record { current = tt; root = tt; predicate_source = tt; parent = tt }

  masked_operand-Grows :
      (view : SqlRowView Expr) (operand : Option ColumnId)
      → GuardsGrow view.field_filters
      → Grows (masked_operand b catalog view operand)
  masked_operand-Grows view none g = give-Grows none
  masked_operand-Grows view (some id) g =
      >>=-Grows _ _ (masked_column_expression-Grows b catalog view id g) (λ e. give-Grows _)

  aggregate_of-Grows :
      (function : AggregateFunction) (operand : Option Expr)
      → Grows (aggregate_of b catalog function operand)
  aggregate_of-Grows AggregateFunction.count operand = give-Grows _
  aggregate_of-Grows AggregateFunction.exists operand = give-Grows _
  aggregate_of-Grows AggregateFunction.min operand =
      >>=-Grows _ _ (present_or-Grows _ _) (λ e. give-Grows _)
  aggregate_of-Grows AggregateFunction.max operand =
      >>=-Grows _ _ (present_or-Grows _ _) (λ e. give-Grows _)
  aggregate_of-Grows AggregateFunction.sum operand =
      >>=-Grows _ _ (present_or-Grows _ _) (λ e. give-Grows _)
  aggregate_of-Grows AggregateFunction.avg operand =
      >>=-Grows _ _ (present_or-Grows _ _) (λ e. give-Grows _)

  pub aggregate_value_expression-Grows :
      (function : AggregateFunction) (operand : Option ColumnId) (view : SqlRowView Expr)
      → GuardsGrow view.field_filters
      → Grows (aggregate_value_expression b catalog function operand view)
  unfolding aggregate_value_expression
  aggregate_value_expression-Grows function operand view g =
      >>=-Grows _ _ (masked_operand-Grows view operand g) (λ e. aggregate_of-Grows function e)

  finish_aggregate-Grows :
      (function : AggregateFunction) (operand : Option ColumnId) (view : SqlRowView Expr)
      (query : Select)
      → GuardsGrow view.field_filters
      → Grows (finish_aggregate b catalog function operand view query)
  finish_aggregate-Grows AggregateFunction.count operand view query g =
      >>=-Grows _ _ (aggregate_value_expression-Grows AggregateFunction.count operand view g)
        (λ e. give-Grows _)
  finish_aggregate-Grows AggregateFunction.min operand view query g =
      >>=-Grows _ _ (aggregate_value_expression-Grows AggregateFunction.min operand view g)
        (λ e. give-Grows _)
  finish_aggregate-Grows AggregateFunction.max operand view query g =
      >>=-Grows _ _ (aggregate_value_expression-Grows AggregateFunction.max operand view g)
        (λ e. give-Grows _)
  finish_aggregate-Grows AggregateFunction.sum operand view query g =
      >>=-Grows _ _ (aggregate_value_expression-Grows AggregateFunction.sum operand view g)
        (λ e. give-Grows _)
  finish_aggregate-Grows AggregateFunction.avg operand view query g =
      >>=-Grows _ _ (aggregate_value_expression-Grows AggregateFunction.avg operand view g)
        (λ e. give-Grows _)
  finish_aggregate-Grows AggregateFunction.exists operand view query g = give-Grows _

  pub inner_grows :
      (kind : ExistsKind) (scope : FilterSqlScope Expr) (view source : SqlRowView Expr)
      → ScopeGrows scope
      → GuardsGrow view.field_filters
      → GuardsGrow source.field_filters
      → ScopeGrows (inner_scope b catalog kind scope view source)
  inner_grows ExistsKind.explicit scope view source g v s = record {
    current = v;
    root = g.root;
    predicate_source = v;
    parent = s;
  }
  inner_grows ExistsKind.relationship_predicate scope view source g v s = record {
    current = v;
    root = g.root;
    predicate_source = g.predicate_source;
    parent = g.parent;
  }

  mutual
    unfolding conditional_filter_expr lower_collection lower_items lower_optional lower_fields

    pub conditional_filter_expr-Grows :
        (scope : FilterSqlScope Expr) (filter : FilterExpr)
        → ScopeGrows scope
        → Grows (conditional_filter_expr b catalog scope filter)
    conditional_filter_expr-Grows scope absent g = give-Grows _
    conditional_filter_expr-Grows scope (optional parameter operand) g =
        >>=-Grows _ _ (conditional_filter_expr-Grows scope operand g)
          (λ inner. >>=-Grows _ _ (parameter_text-Grows parameter) (λ text. give-Grows _))
    conditional_filter_expr-Grows scope (FilterExpr.column s id) g =
        >>=-Grows _ _ (masked_column_expression-Grows b catalog _ id (source_grows scope s g))
          (λ e. give-Grows _)
    conditional_filter_expr-Grows scope (literal value) g =
        >>=-Grows _ _ (literal_value-Grows b catalog value) (λ e. give-Grows _)
    conditional_filter_expr-Grows scope (FilterExpr.parameter parameter) g =
        >>=-Grows _ _ (parameter_text-Grows parameter) (λ text. give-Grows _)
    conditional_filter_expr-Grows scope (dynamic_predicate path surface fields) g =
        >>=-Grows _ _
          (generated_dynamic_predicate_fields-Grows b catalog scope.current fields g.current)
          (λ generated.
            >>=-Grows _ _ (dynamic_site-Grows path _ "TRUE" generated _) (λ marker. give-Grows _))
    conditional_filter_expr-Grows scope (binary left op right) g =
        binary_filter-Grows b catalog scope g left _ right _
          (conditional_filter_expr-Grows scope left g) (conditional_filter_expr-Grows scope right g)
          op
    conditional_filter_expr-Grows scope (negation operand) g =
        >>=-Grows _ _ (conditional_filter_expr-Grows scope operand g) (λ inner. give-Grows _)
    conditional_filter_expr-Grows scope (null_test operand negated) g =
        >>=-Grows _ _
          (null_test_expr-Grows b catalog scope operand _ negated g
            (conditional_filter_expr-Grows scope operand g))
          (λ test. give-Grows _)
    conditional_filter_expr-Grows scope (membership operand collection negated) g =
        >>=-Grows _ _ (settle-Grows b catalog _ (conditional_filter_expr-Grows scope operand g))
          (λ value. lower_collection-Grows scope negated value collection g)
    conditional_filter_expr-Grows scope (variant_binary left path variants right) g =
        >>=-Grows _ _ (variant_text-Grows path variants) (λ operator.
          variant_filter-Grows b catalog _ operator _ _ (conditional_filter_expr-Grows scope left g)
            (conditional_filter_expr-Grows scope right g))
    conditional_filter_expr-Grows scope (exists relation table kind s policy guards inner) g =
        >>=-Grows _ _ (found_table-Grows b catalog table) (λ related.
          >>=-Grows _ _ (join_optional-Grows b catalog _ _ relation _ (source_grows scope s g))
            (λ joined.
              >>=-Grows _ _
                (where_optional-Grows b catalog _ joined
                  (lower_optional-Grows _ policy (raw_grows _)))
                (λ policed.
                  >>=-Grows _ _
                    (where_optional-Grows b catalog _ policed (
                      lower_optional-Grows _ inner (
                        inner_grows kind scope _ _ g (lower_fields-Grows _ guards)
                          (source_grows scope s g))))
                    (λ query. give-Grows _))))
    conditional_filter_expr-Grows scope
          (relation_aggregate relation table function operand policy guards) g =
        >>=-Grows _ _ (found_table-Grows b catalog table) (λ related.
          >>=-Grows _ _ (join_relation-Grows b catalog scope.current _ relation _ g.current)
            (λ joined.
              >>=-Grows _ _
                (where_optional-Grows b catalog _ joined
                  (lower_optional-Grows _ policy (raw_grows _)))
                (λ policed.
                  finish_aggregate-Grows function operand _ policed (lower_fields-Grows _ guards))))

    pub lower_collection-Grows :
        (scope : FilterSqlScope Expr) (negated : Bool) (operand : Expr)
        (collection : FilterCollection)
        → ScopeGrows scope
        → Grows (lower_collection b catalog scope negated operand collection)
    lower_collection-Grows scope negated operand (items filters) g =
        >>=-Grows _ _ (lower_items-Grows scope filters g) (λ es. give-Grows _)
    lower_collection-Grows scope negated operand (bound parameter) g =
        member_of_parameter-Grows b catalog parameter negated operand

    pub lower_items-Grows :
        (scope : FilterSqlScope Expr) (filters : Filters)
        → ScopeGrows scope
        → Grows (lower_items b catalog scope filters)
    lower_items-Grows scope none_left g = give-Grows _
    lower_items-Grows scope (next filter filters) g =
        >>=-Grows _ _ (settle-Grows b catalog _ (conditional_filter_expr-Grows scope filter g))
          (λ e. >>=-Grows _ _ (lower_items-Grows scope filters g) (λ es. give-Grows _))

    pub lower_optional-Grows :
        (scope : FilterSqlScope Expr) (filter : OptionalFilter)
        → ScopeGrows scope
        → OptionGrows b catalog (lower_optional b catalog scope filter)
    lower_optional-Grows scope no_filter g = tt
    lower_optional-Grows scope (only filter) g =
        settle-Grows b catalog _ (conditional_filter_expr-Grows scope filter g)

    pub lower_fields-Grows :
        (context : SelectionContext) (guards : FieldFilters)
        → GuardsGrow (lower_fields b catalog context guards)
    lower_fields-Grows context no_fields = tt
    lower_fields-Grows context (field (field_filter target filter requirements) guards) = (
      settle-Grows b catalog _
          (conditional_filter_expr-Grows (raw_scope context) filter (raw_grows context)),
      lower_fields-Grows context guards,
    )

  -- If the guards of fields in the scope of a filter only add parameters, so does lowering the filter,
  -- with everything nested in it: a number that SQL written before uses still means its parameter.
  pub conditional_filter_expr-Extends :
      (scope : FilterSqlScope Expr) (filter : FilterExpr)
      → ScopeGrows scope
      → (before after : SqlTemplateContext) (c : ConditionalFilter Expr)
      → conditional_filter_expr b catalog scope filter before ≡ done (c, after)
      → Extends before.parameters after.parameters
  conditional_filter_expr-Extends scope filter g before after c h =
      ((conditional_filter_expr-Grows scope filter g).extends before c after h).parameters
