-- ===== src/Sql/Lower/Never.antt =====
-- crates/dsql-core/src/sql/postgres.rs, `conditional_filter_expr`: a filter that is no connective, no
-- negation and neither optional nor absent has no guard.
use dsql.Prelude.{String, Bool, true, false, Option, none, ◌≡◌, sym, ap}
use dsql.Catalog.Enums.{AggregateFunction}
use dsql.Catalog.Types.{Catalog, ColumnId}
use dsql.Plan.Filter.{
  FilterOp, FilterExpr, FilterCollection, absent, optional, literal, dynamic_predicate, binary,
  negation, null_test, membership, variant_binary, exists, relation_aggregate, items, bound,
  target_eq,
}
use dsql.Sql.Builder.{Builder}
use dsql.Sql.Error.{done}
use dsql.Sql.Template.{SqlTemplateContext, M, give, ◌>>=◌}
use dsql.Sql.Template.Grows.{
  continue-eq-done, done-injective, Grows, variant_text-Grows, dynamic_site-Grows,
  parameter_text-Grows,
}
use dsql.Sql.View.{ConditionalFilter, SqlRowView, FilterSqlScope}
use dsql.Sql.Atoms.{
  always, NullComparison, Lowered, compare_values, compare_null, variant_filter,
  null_comparison_operand,
}
use dsql.Sql.Related.{finish_aggregate}
use dsql.Sql.Lower.{conditional_filter_expr, lower_collection}
use dsql.Sql.Lower.Grows.{GuardsGrow, ScopeGrows, source_grows}
use dsql.Sql.Lower.Atoms.{
  settle-Grows, found_table-Grows, masked_column_expression-Grows, literal_value-Grows,
  generated_dynamic_predicate_fields-Grows, null_test_expr-Grows, where_optional-Grows,
  join_relation-Grows, join_optional-Grows,
}
use dsql.Sql.Lower.Whole.{
  raw_grows, inner_grows, aggregate_value_expression-Grows, conditional_filter_expr-Grows,
  lower_items-Grows, lower_optional-Grows, lower_fields-Grows,
}

abbrev pub is_atom : FilterExpr → Bool
is_atom absent = false
is_atom (optional parameter operand) = false
is_atom (binary left FilterOp.and right) = false
is_atom (binary left FilterOp.or right) = false
is_atom (negation operand) = false
is_atom _ = true

module _ (b : Builder) (catalog : Catalog) where
  open b use {Expr, Select}

  pub record Never (lowered : Lowered b catalog) : Type 0 where
    pub never :
        (before after : SqlTemplateContext) (c : ConditionalFilter Expr)
        → lowered before ≡ done (c, after)
        → c.present ≡ none

  always-Never : (value : Expr) → Never (give (always b catalog value))
  always-Never value = record {
    never = λ before after c h. sym (ap (λ p. p.0.present) (done-injective h));
  }

  >>=-Never :
      {A : Type 0} (step : M A) (later : A → Lowered b catalog)
      → Grows step
      → ((a : A) → Never (later a))
      → Never (step >>= later)
  >>=-Never step later g k = record {
    never = λ before after c h.
        let (a, middle, first, second) = continue-eq-done later (step before) h in
        (k a).never middle after c second;
  }

  compare_values-Never :
      (op : FilterOp) (left right : Lowered b catalog)
      → Grows left
      → Grows right
      → Never (compare_values b catalog op left right)
  compare_values-Never op left right g h =
      >>=-Never _ _ (settle-Grows b catalog left g)
        (λ x. >>=-Never _ _ (settle-Grows b catalog right h) (λ y. always-Never _))

  module _ (scope : FilterSqlScope Expr) (s : ScopeGrows scope) where
    lower_collection-Never :
        (negated : Bool) (operand : Expr) (collection : FilterCollection)
        → Never (lower_collection b catalog scope negated operand collection)
    unfolding lower_collection
    lower_collection-Never negated operand (items filters) =
        >>=-Never _ _ (lower_items-Grows b catalog scope filters s) (λ es. always-Never _)
    lower_collection-Never negated operand (bound parameter) =
        >>=-Never _ _ (parameter_text-Grows parameter) (λ text. always-Never _)

    module _ (left : FilterExpr) (right : FilterExpr) where
      compare_null-Never :
          (side : NullComparison) (op : FilterOp) (negated : Bool)
          → Never (
              compare_null b catalog scope side left
                (conditional_filter_expr b catalog scope left)
                right
                (conditional_filter_expr b catalog scope right)
                op
                negated)
      compare_null-Never NullComparison.right_operand op negated =
          >>=-Never _ _
            (null_test_expr-Grows b catalog scope right _ negated s
              (conditional_filter_expr-Grows b catalog scope right s))
            (λ test. always-Never _)
      compare_null-Never NullComparison.left_operand op negated =
          >>=-Never _ _
            (null_test_expr-Grows b catalog scope left _ negated s
              (conditional_filter_expr-Grows b catalog scope left s))
            (λ test. always-Never _)
      compare_null-Never NullComparison.neither op negated =
          compare_values-Never op _ _ (conditional_filter_expr-Grows b catalog scope left s)
            (conditional_filter_expr-Grows b catalog scope right s)

      variant_filter-Never :
          (side : NullComparison) (operator : String)
          → Never (
              variant_filter b catalog side operator
                (conditional_filter_expr b catalog scope left)
                (conditional_filter_expr b catalog scope right))
      variant_filter-Never NullComparison.right_operand operator =
          >>=-Never _ _
            (settle-Grows b catalog _ (conditional_filter_expr-Grows b catalog scope right s))
            (λ x. always-Never _)
      variant_filter-Never NullComparison.left_operand operator =
          >>=-Never _ _
            (settle-Grows b catalog _ (conditional_filter_expr-Grows b catalog scope left s))
            (λ x. always-Never _)
      variant_filter-Never NullComparison.neither operator =
          >>=-Never _ _
            (settle-Grows b catalog _ (conditional_filter_expr-Grows b catalog scope left s))
            (λ x.
              >>=-Never _ _
                (settle-Grows b catalog _ (conditional_filter_expr-Grows b catalog scope right s))
                (λ y. always-Never _))

      values-Never :
          (op : FilterOp)
          → Never (
              compare_values b catalog op
                (conditional_filter_expr b catalog scope left)
                (conditional_filter_expr b catalog scope right))
      values-Never op =
          compare_values-Never op _ _ (conditional_filter_expr-Grows b catalog scope left s)
            (conditional_filter_expr-Grows b catalog scope right s)

    finish_aggregate-Never :
        (function : AggregateFunction) (operand : Option ColumnId) (view : SqlRowView Expr)
        (query : Select)
        → GuardsGrow view.field_filters
        → Never (finish_aggregate b catalog function operand view query)
    finish_aggregate-Never AggregateFunction.count operand view query g =
        >>=-Never _ _
          (aggregate_value_expression-Grows b catalog AggregateFunction.count operand view g)
          (λ e. always-Never _)
    finish_aggregate-Never AggregateFunction.min operand view query g =
        >>=-Never _ _
          (aggregate_value_expression-Grows b catalog AggregateFunction.min operand view g)
          (λ e. always-Never _)
    finish_aggregate-Never AggregateFunction.max operand view query g =
        >>=-Never _ _
          (aggregate_value_expression-Grows b catalog AggregateFunction.max operand view g)
          (λ e. always-Never _)
    finish_aggregate-Never AggregateFunction.sum operand view query g =
        >>=-Never _ _
          (aggregate_value_expression-Grows b catalog AggregateFunction.sum operand view g)
          (λ e. always-Never _)
    finish_aggregate-Never AggregateFunction.avg operand view query g =
        >>=-Never _ _
          (aggregate_value_expression-Grows b catalog AggregateFunction.avg operand view g)
          (λ e. always-Never _)
    finish_aggregate-Never AggregateFunction.exists operand view query g = always-Never _

    pub atom-Never :
        (filter : FilterExpr)
        → is_atom filter ≡ true
        → Never (conditional_filter_expr b catalog scope filter)
    unfolding conditional_filter_expr
    atom-Never absent h = cc
    atom-Never (optional parameter operand) h = cc
    atom-Never (FilterExpr.column c id) h =
        >>=-Never _ _ (masked_column_expression-Grows b catalog _ id (source_grows scope c s))
          (λ e. always-Never _)
    atom-Never (literal value) h =
        >>=-Never _ _ (literal_value-Grows b catalog value) (λ e. always-Never _)
    atom-Never (FilterExpr.parameter parameter) h =
        >>=-Never _ _ (parameter_text-Grows parameter) (λ text. always-Never _)
    atom-Never (dynamic_predicate path surface fields) h =
        >>=-Never _ _
          (generated_dynamic_predicate_fields-Grows b catalog scope.current fields s.current)
          (λ generated.
            >>=-Never _ _ (dynamic_site-Grows path _ "TRUE" generated _) (λ marker. always-Never _))
    atom-Never (binary left FilterOp.and right) h = cc
    atom-Never (binary left FilterOp.or right) h = cc
    atom-Never (binary left FilterOp.eq right) h =
        compare_null-Never left right (null_comparison_operand left right) FilterOp.eq false
    atom-Never (binary left FilterOp.ne right) h =
        compare_null-Never left right (null_comparison_operand left right) FilterOp.ne true
    atom-Never (binary left FilterOp.gt right) h = values-Never left right FilterOp.gt
    atom-Never (binary left FilterOp.ge right) h = values-Never left right FilterOp.ge
    atom-Never (binary left FilterOp.lt right) h = values-Never left right FilterOp.lt
    atom-Never (binary left FilterOp.le right) h = values-Never left right FilterOp.le
    atom-Never (binary left FilterOp.like right) h = values-Never left right FilterOp.like
    atom-Never (negation operand) h = cc
    atom-Never (null_test operand negated) h =
        >>=-Never _ _
          (null_test_expr-Grows b catalog scope operand _ negated s
            (conditional_filter_expr-Grows b catalog scope operand s))
          (λ test. always-Never _)
    atom-Never (membership operand collection negated) h =
        >>=-Never _ _
          (settle-Grows b catalog _ (conditional_filter_expr-Grows b catalog scope operand s))
          (λ value. lower_collection-Never negated value collection)
    atom-Never (variant_binary left path variants right) h =
        >>=-Never _ _ (variant_text-Grows path variants) (λ operator.
          variant_filter-Never left right (null_comparison_operand left right) operator)
    atom-Never (exists relation table kind c policy guards inner) h =
        >>=-Never _ _ (found_table-Grows b catalog table) (λ related.
          >>=-Never _ _ (join_optional-Grows b catalog _ _ relation _ (source_grows scope c s))
            (λ joined.
              >>=-Never _ _
                (where_optional-Grows b catalog _ joined
                  (lower_optional-Grows b catalog _ policy (raw_grows b catalog _)))
                (λ policed.
                  >>=-Never _ _
                    (where_optional-Grows b catalog _ policed (
                      lower_optional-Grows b catalog _ inner (
                        inner_grows b catalog kind scope _ _ s
                          (lower_fields-Grows b catalog _ guards) (source_grows scope c s))))
                    (λ query. always-Never _))))
    atom-Never (relation_aggregate relation table function operand policy guards) h =
        >>=-Never _ _ (found_table-Grows b catalog table) (λ related.
          >>=-Never _ _ (join_relation-Grows b catalog scope.current _ relation _ s.current)
            (λ joined.
              >>=-Never _ _
                (where_optional-Grows b catalog _ joined
                  (lower_optional-Grows b catalog _ policy (raw_grows b catalog _)))
                (λ policed.
                  finish_aggregate-Never function operand _ policed
                    (lower_fields-Grows b catalog _ guards))))
