-- ===== src/Sql/Atoms.antt =====
-- crates/dsql-core/src/sql/postgres.rs: the parts of `filter_value_expr`, each given what its operands
-- are lowered by.
use dsql.Prelude.{
  ℕ, suc, String, Bool, true, false, Option, none, some, List, [], ◌∷◌, format, if◌then◌else◌,
  replace, decimal, join,
}
use dsql.Prelude.Int.{ℤ, parse_i64}
use dsql.Catalog.Enums.{AggregateFunction}
use dsql.Catalog.Types.{Catalog}
use dsql.Plan.Filter.{FilterOp, FilterLiteral, SqlParameter, PolicyFieldTarget, FilterExpr, literal}
use dsql.Sql.Builder.{Builder}
use dsql.Sql.Template.{M, give, ◌>>=◌, parameter_text, numeric_sentinel}
use dsql.Sql.View.{
  FieldGuard, FilterSqlScope, ConditionalFilter, filter_column_source, policy_field_filter,
  render_policy_field_filter, found_column, value_or_absent, combine_conditional,
}

-- Which side of a comparison is compared with null.
pub data NullComparison : Type 0 where
  right_operand left_operand neither : NullComparison

abbrev pub is_null_literal : FilterExpr → Bool
is_null_literal (literal FilterLiteral.null) = true
is_null_literal _ = false

unfoldable pub null_comparison_operand : FilterExpr → FilterExpr → NullComparison
null_comparison_operand left right =
    if is_null_literal left
    then NullComparison.right_operand
    else if is_null_literal right
    then NullComparison.left_operand
    else NullComparison.neither

abbrev pub aggregate_label : AggregateFunction → String
aggregate_label AggregateFunction.count = "count"
aggregate_label AggregateFunction.exists = "exists"
aggregate_label AggregateFunction.min = "min"
aggregate_label AggregateFunction.max = "max"
aggregate_label AggregateFunction.sum = "sum"
aggregate_label AggregateFunction.avg = "avg"

module _ (b : Builder) (catalog : Catalog) where
  open b use {
    Expr, Select, and_expr, or_expr, eq_expr, ne_expr, gt_expr, gte_expr, lt_expr, lte_expr, col,
    cust, cust_with_exprs, value_text, value_i64, value_u64, value_bool, exists_query, sub_query,
    asterisk, count_of, min_of, max_of, sum_of, avg_of, select, select_expr, from_as, cond_where,
    and_where,
  }

  abbrev pub Lowered : Type 0
  Lowered = M (ConditionalFilter Expr)

  abbrev pub always : Expr → ConditionalFilter Expr
  always value = record { present = none; value = value }

  abbrev pub or_absent : ConditionalFilter Expr → Option Expr → Expr
  or_absent rendered none = rendered.value
  or_absent rendered (some present) = value_or_absent b rendered.value present

  -- `filter_expr`: a filter that is absent holds.
  abbrev pub settle : Lowered → M Expr
  settle lowered = do rendered ← lowered; give (or_absent rendered rendered.present)

  -- A number out of the range of `i64` keeps its source text, by a sentinel.
  abbrev pub number_value : String → Option ℤ → M Expr
  number_value text (some n) = give (value_i64 n)
  number_value text none = do sentinel ← numeric_sentinel text; give (value_u64 sentinel)

  abbrev pub literal_value : FilterLiteral → M Expr
  literal_value (FilterLiteral.string value) = give (value_text value)
  literal_value (FilterLiteral.number value) = number_value value (parse_i64 value)
  literal_value (FilterLiteral.bool value) = give (value_bool value)
  literal_value FilterLiteral.null = give (cust "null")

  abbrev pub null_test_text : Bool → String
  null_test_text negated = if negated then "$1 IS NOT NULL" else "$1 IS NULL"

  abbrev pub guarded_test : Option (FieldGuard Expr) → Expr → M Expr
  guarded_test none test = give test
  guarded_test (some filter) test = do
    guard ← render_policy_field_filter filter
    give (and_expr guard test)

  -- `null_test_expr`: a column is tested as it is stored, and only where it can be read.
  abbrev pub null_test_expr : FilterSqlScope Expr → FilterExpr → Lowered → Bool → M Expr
  null_test_expr scope (FilterExpr.column column_scope column_id) lowered negated =
      let source = filter_column_source scope column_scope in
      do
        column ← found_column catalog column_id
        guarded_test (policy_field_filter source.field_filters (PolicyFieldTarget.column column_id))
            (cust_with_exprs (null_test_text negated)
              (col source.context.table_alias column.name ∷ []))
  null_test_expr scope operand lowered negated = do
    value ← settle lowered
    give (cust_with_exprs (null_test_text negated) (value ∷ []))

  abbrev pub apply_operator : FilterOp → Expr → Expr → Expr
  apply_operator FilterOp.eq left right = eq_expr left right
  apply_operator FilterOp.ne left right = ne_expr left right
  apply_operator FilterOp.gt left right = gt_expr left right
  apply_operator FilterOp.ge left right = gte_expr left right
  apply_operator FilterOp.lt left right = lt_expr left right
  apply_operator FilterOp.le left right = lte_expr left right
  apply_operator FilterOp.like left right = cust_with_exprs "$1 like $2" (left ∷ right ∷ [])
  apply_operator FilterOp.and left right = and_expr left right
  apply_operator FilterOp.or left right = or_expr left right

  abbrev pub compare_values : FilterOp → Lowered → Lowered → Lowered
  compare_values op lowered_left lowered_right = do
    left ← settle lowered_left
    right ← settle lowered_right
    give (always (apply_operator op left right))

  abbrev pub compare_null :
      FilterSqlScope Expr
      → NullComparison
      → FilterExpr
      → Lowered
      → FilterExpr
      → Lowered
      → FilterOp
      → Bool
      → Lowered
  compare_null scope NullComparison.right_operand left lowered_left right lowered_right op negated =
      do test ← null_test_expr scope right lowered_right negated; give (always test)
  compare_null scope NullComparison.left_operand left lowered_left right lowered_right op negated =
      do test ← null_test_expr scope left lowered_left negated; give (always test)
  compare_null scope NullComparison.neither left lowered_left right lowered_right op negated =
      compare_values op lowered_left lowered_right

  abbrev pub connect_filters : Bool → Lowered → Lowered → Lowered
  connect_filters conjunction lowered_left lowered_right = do
    left ← lowered_left
    right ← lowered_right
    give (combine_conditional b left conjunction right)

  abbrev pub binary_filter :
      FilterSqlScope Expr → FilterOp → FilterExpr → Lowered → FilterExpr → Lowered → Lowered
  binary_filter scope FilterOp.and left lowered_left right lowered_right =
      connect_filters true lowered_left lowered_right
  binary_filter scope FilterOp.or left lowered_left right lowered_right =
      connect_filters false lowered_left lowered_right
  binary_filter scope FilterOp.eq left lowered_left right lowered_right =
      compare_null scope (null_comparison_operand left right) left lowered_left right lowered_right
        FilterOp.eq false
  binary_filter scope FilterOp.ne left lowered_left right lowered_right =
      compare_null scope (null_comparison_operand left right) left lowered_left right lowered_right
        FilterOp.ne true
  binary_filter scope op left lowered_left right lowered_right =
      compare_values op lowered_left lowered_right

  abbrev pub variant_filter : NullComparison → String → Lowered → Lowered → Lowered
  variant_filter NullComparison.right_operand operator lowered_left lowered_right = do
    operand ← settle lowered_right
    give (always (cust_with_exprs (format ("$1 " ∷ operator ∷ " null" ∷ [])) (operand ∷ [])))
  variant_filter NullComparison.left_operand operator lowered_left lowered_right = do
    operand ← settle lowered_left
    give (always (cust_with_exprs (format ("$1 " ∷ operator ∷ " null" ∷ [])) (operand ∷ [])))
  variant_filter NullComparison.neither operator lowered_left lowered_right = do
    left ← settle lowered_left
    right ← settle lowered_right
    give (always (cust_with_exprs (format ("$1 " ∷ operator ∷ " $2" ∷ [])) (left ∷ right ∷ [])))

  abbrev pub item_placeholders : ℕ → List Expr → List String
  item_placeholders n [] = []
  item_placeholders n (_ ∷ expressions) =
      format ("$" ∷ decimal n ∷ []) ∷ item_placeholders (suc n) expressions

  abbrev pub member_of_list : Expr → Bool → List Expr → Expr
  member_of_list operand negated [] = cust (if negated then "TRUE" else "FALSE")
  member_of_list operand negated (x ∷ xs) =
      cust_with_exprs
        (format (
          "$1 "
          ∷ (if negated then "NOT IN" else "IN")
          ∷ " ("
          ∷ join (item_placeholders 2 (x ∷ xs)) ", "
          ∷ ")"
          ∷ []))
        (operand ∷ x ∷ xs)

  abbrev pub member_of_parameter : SqlParameter → Bool → Expr → Lowered
  member_of_parameter parameter negated operand = do
    placeholder ← parameter_text parameter
    give (
        always (
          cust_with_exprs
            (format (
              "$1 "
              ∷ (if negated then "<> ALL" else "= ANY")
              ∷ "("
              ∷ replace placeholder "$" "$$"
              ∷ ")"
              ∷ []))
            (operand ∷ [])))
