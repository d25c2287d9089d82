-- ===== src/Sql/Lower/Atoms.antt =====
-- crates/dsql-core/src/sql/postgres.rs: the parts of `filter_value_expr` only add parameters.
use dsql.Prelude.{String, Bool, true, false, Option, none, some, List, [], ◌∷◌}
use dsql.Prelude.Int.{ℤ, parse_i64}
use dsql.Catalog.Types.{Catalog, ColumnId, RelationId, TableId, Relation}
use dsql.Plan.Filter.{
  FilterOp, FilterLiteral, SqlParameter, PolicyFieldTarget, DynamicInputFieldPlan, FilterExpr,
  absent, optional, literal, dynamic_predicate, binary, negation, null_test, membership,
  variant_binary, exists, relation_aggregate, target_eq,
}
use dsql.Sql.Builder.{Builder}
use dsql.Sql.Template.{M}
use dsql.Sql.Template.Grows.{
  Grows, give-Grows, fail-Grows, >>=-Grows, present_or-Grows, numeric_sentinel-Grows,
  parameter_text-Grows,
}
use dsql.Sql.Alias.{SelectionContext}
use dsql.Sql.View.{
  FieldGuard, SqlRowView, FilterSqlScope, found_table, found_column, found_relation, masked,
  masked_column_expression, relation_condition_from, relation_condition, dynamic_rendered,
  dynamic_field_expression,
}
use dsql.Sql.Dynamic.{generated_dynamic_predicate_fields}
use dsql.Sql.Atoms.{
  NullComparison, Lowered, settle, number_value, connect_filters, literal_value, guarded_test,
  null_test_expr, compare_values, compare_null, binary_filter, variant_filter, member_of_parameter,
  null_comparison_operand,
}
use dsql.Sql.Related.{rendered_guard, where_optional, join_relation, join_optional}
use dsql.Sql.Lower.Grows.{
  GuardsGrow, ScopeGrows, FoundGrows, source_grows, found_grows, render_policy_field_filter-Grows,
}

module _ (b : Builder) (catalog : Catalog) where
  open b use {Expr, Select, Condition, and_expr, case_or_null}

  pub settle-Grows :
      (lowered : Lowered b catalog) → Grows lowered → Grows (settle b catalog lowered)
  settle-Grows lowered g = >>=-Grows _ _ g (λ rendered. give-Grows _)

  found_column-Grows : (id : ColumnId) → Grows (found_column catalog id)
  unfolding found_column
  found_column-Grows id = present_or-Grows _ _

  found_relation-Grows : (id : RelationId) → Grows (found_relation catalog id)
  unfolding found_relation
  found_relation-Grows id = present_or-Grows _ _

  pub found_table-Grows : (id : TableId) → Grows (found_table catalog id)
  unfolding found_table
  found_table-Grows id = present_or-Grows _ _

  masked-Grows : (raw : Expr) (o : Option (FieldGuard Expr)) → FoundGrows o → Grows (masked b raw o)
  masked-Grows raw none g = give-Grows raw
  masked-Grows raw (some guard) g =
      >>=-Grows _ _ (render_policy_field_filter-Grows guard g)
        (λ e. give-Grows (case_or_null e raw))

  pub masked_column_expression-Grows :
      (view : SqlRowView Expr) (id : ColumnId)
      → GuardsGrow view.field_filters
      → Grows (masked_column_expression b catalog view id)
  unfolding masked_column_expression
  masked_column_expression-Grows view id g =
      >>=-Grows _ _ (found_column-Grows id) (λ column.
        masked-Grows _ _ (found_grows view.field_filters (PolicyFieldTarget.column id) g))

  guarded_test-Grows :
      (o : Option (FieldGuard Expr)) (test : Expr)
      → FoundGrows o
      → Grows (guarded_test b catalog o test)
  guarded_test-Grows none test g = give-Grows test
  guarded_test-Grows (some guard) test g =
      >>=-Grows _ _ (render_policy_field_filter-Grows guard g) (λ e. give-Grows (and_expr e test))

  number_value-Grows : (text : String) (n : Option ℤ) → Grows (number_value b catalog text n)
  number_value-Grows text (some n) = give-Grows _
  number_value-Grows text none =
      >>=-Grows _ _ (numeric_sentinel-Grows text) (λ sentinel. give-Grows _)

  pub literal_value-Grows : (value : FilterLiteral) → Grows (literal_value b catalog value)
  literal_value-Grows (FilterLiteral.string value) = give-Grows _
  literal_value-Grows (FilterLiteral.number value) = number_value-Grows value (parse_i64 value)
  literal_value-Grows (FilterLiteral.bool value) = give-Grows _
  literal_value-Grows FilterLiteral.null = give-Grows _

  dynamic_rendered-Grows : (o : Option String) → Grows (dynamic_rendered b o)
  dynamic_rendered-Grows none = fail-Grows _
  dynamic_rendered-Grows (some text) = give-Grows text

  dynamic_field_expression-Grows :
      (view : SqlRowView Expr) (id : ColumnId)
      → GuardsGrow view.field_filters
      → Grows (dynamic_field_expression b catalog view id)
  unfolding dynamic_field_expression
  dynamic_field_expression-Grows view id g =
      >>=-Grows _ _ (masked_column_expression-Grows view id g) (λ e. dynamic_rendered-Grows _)

  pub generated_dynamic_predicate_fields-Grows :
      (view : SqlRowView Expr) (fields : List DynamicInputFieldPlan)
      → GuardsGrow view.field_filters
      → Grows (generated_dynamic_predicate_fields b catalog view fields)
  unfolding generated_dynamic_predicate_fields
  generated_dynamic_predicate_fields-Grows view [] g = give-Grows _
  generated_dynamic_predicate_fields-Grows view (planned ∷ fields) g =
      >>=-Grows _ _ (dynamic_field_expression-Grows view planned.column g) (λ e.
        >>=-Grows _ _ (generated_dynamic_predicate_fields-Grows view fields g)
          (λ rest. give-Grows _))

  pub null_test_expr-Grows :
      (scope : FilterSqlScope Expr) (operand : FilterExpr) (lowered : Lowered b catalog)
      (negated : Bool)
      → ScopeGrows scope
      → Grows lowered
      → Grows (null_test_expr b catalog scope operand lowered negated)
  null_test_expr-Grows scope (FilterExpr.column s id) lowered negated g h =
      >>=-Grows _ _ (found_column-Grows id) (λ column.
        guarded_test-Grows _ _
          (found_grows _ (PolicyFieldTarget.column id) (source_grows scope s g)))
  null_test_expr-Grows scope absent lowered negated g h =
      >>=-Grows _ _ (settle-Grows lowered h) (λ value. give-Grows _)
  null_test_expr-Grows scope (optional parameter operand) lowered negated g h =
      >>=-Grows _ _ (settle-Grows lowered h) (λ value. give-Grows _)
  null_test_expr-Grows scope (literal value) lowered negated g h =
      >>=-Grows _ _ (settle-Grows lowered h) (λ value. give-Grows _)
  null_test_expr-Grows scope (FilterExpr.parameter parameter) lowered negated g h =
      >>=-Grows _ _ (settle-Grows lowered h) (λ value. give-Grows _)
  null_test_expr-Grows scope (dynamic_predicate path surface fields) lowered negated g h =
      >>=-Grows _ _ (settle-Grows lowered h) (λ value. give-Grows _)
  null_test_expr-Grows scope (binary left op right) lowered negated g h =
      >>=-Grows _ _ (settle-Grows lowered h) (λ value. give-Grows _)
  null_test_expr-Grows scope (negation operand) lowered negated g h =
      >>=-Grows _ _ (settle-Grows lowered h) (λ value. give-Grows _)
  null_test_expr-Grows scope (null_test operand negate) lowered negated g h =
      >>=-Grows _ _ (settle-Grows lowered h) (λ value. give-Grows _)
  null_test_expr-Grows scope (membership operand collection negate) lowered negated g h =
      >>=-Grows _ _ (settle-Grows lowered h) (λ value. give-Grows _)
  null_test_expr-Grows scope (variant_binary left path variants right) lowered negated g h =
      >>=-Grows _ _ (settle-Grows lowered h) (λ value. give-Grows _)
  null_test_expr-Grows scope (exists relation table kind s policy guards inner) lowered negated g
        h =
      >>=-Grows _ _ (settle-Grows lowered h) (λ value. give-Grows _)
  null_test_expr-Grows scope (relation_aggregate relation table function operand policy guards)
        lowered negated g h =
      >>=-Grows _ _ (settle-Grows lowered h) (λ value. give-Grows _)

  compare_values-Grows :
      (op : FilterOp) (left right : Lowered b catalog)
      → Grows left
      → Grows right
      → Grows (compare_values b catalog op left right)
  compare_values-Grows op left right g h =
      >>=-Grows _ _ (settle-Grows left g)
        (λ x. >>=-Grows _ _ (settle-Grows right h) (λ y. give-Grows _))

  pub connect_filters-Grows :
      (conjunction : Bool) (left right : Lowered b catalog)
      → Grows left
      → Grows right
      → Grows (connect_filters b catalog conjunction left right)
  connect_filters-Grows conjunction left right g h =
      >>=-Grows _ _ g (λ x. >>=-Grows _ _ h (λ y. give-Grows _))

  module _ (scope : FilterSqlScope Expr) (s : ScopeGrows scope) (left : FilterExpr)
      (lowered_left : Lowered b catalog) (right : FilterExpr) (lowered_right : Lowered b catalog)
      (g : Grows lowered_left) (h : Grows lowered_right) where
    compare_null-Grows :
        (side : NullComparison) (op : FilterOp) (negated : Bool)
        → Grows (compare_null b catalog scope side left lowered_left right lowered_right op negated)
    compare_null-Grows NullComparison.right_operand op negated =
        >>=-Grows _ _ (null_test_expr-Grows scope right lowered_right negated s h)
          (λ test. give-Grows _)
    compare_null-Grows NullComparison.left_operand op negated =
        >>=-Grows _ _ (null_test_expr-Grows scope left lowered_left negated s g)
          (λ test. give-Grows _)
    compare_null-Grows NullComparison.neither op negated = compare_values-Grows op _ _ g h

    pub binary_filter-Grows :
        (op : FilterOp)
        → Grows (binary_filter b catalog scope op left lowered_left right lowered_right)
    binary_filter-Grows FilterOp.and = connect_filters-Grows true _ _ g h
    binary_filter-Grows FilterOp.or = connect_filters-Grows false _ _ g h
    binary_filter-Grows FilterOp.eq =
        compare_null-Grows (null_comparison_operand left right) FilterOp.eq false
    binary_filter-Grows FilterOp.ne =
        compare_null-Grows (null_comparison_operand left right) FilterOp.ne true
    binary_filter-Grows FilterOp.gt = compare_values-Grows FilterOp.gt _ _ g h
    binary_filter-Grows FilterOp.ge = compare_values-Grows FilterOp.ge _ _ g h
    binary_filter-Grows FilterOp.lt = compare_values-Grows FilterOp.lt _ _ g h
    binary_filter-Grows FilterOp.le = compare_values-Grows FilterOp.le _ _ g h
    binary_filter-Grows FilterOp.like = compare_values-Grows FilterOp.like _ _ g h

  pub variant_filter-Grows :
      (side : NullComparison) (operator : String) (left right : Lowered b catalog)
      → Grows left
      → Grows right
      → Grows (variant_filter b catalog side operator left right)
  variant_filter-Grows NullComparison.right_operand operator left right g h =
      >>=-Grows _ _ (settle-Grows right h) (λ x. give-Grows _)
  variant_filter-Grows NullComparison.left_operand operator left right g h =
      >>=-Grows _ _ (settle-Grows left g) (λ x. give-Grows _)
  variant_filter-Grows NullComparison.neither operator left right g h =
      >>=-Grows _ _ (settle-Grows left g)
        (λ x. >>=-Grows _ _ (settle-Grows right h) (λ y. give-Grows _))

  pub member_of_parameter-Grows :
      (parameter : SqlParameter) (negated : Bool) (operand : Expr)
      → Grows (member_of_parameter b catalog parameter negated operand)
  member_of_parameter-Grows parameter negated operand =
      >>=-Grows _ _ (parameter_text-Grows parameter) (λ text. give-Grows _)

  abbrev pub OptionGrows : Option (M Expr) → Type 0
  OptionGrows none = Unit {0}
  OptionGrows (some step) = Grows step

  pub where_optional-Grows :
      (o : Option (M Expr)) (query : Select)
      → OptionGrows o
      → Grows (where_optional b catalog o query)
  where_optional-Grows none query g = give-Grows query
  where_optional-Grows (some step) query g = >>=-Grows _ _ g (λ filter. give-Grows _)

  rendered_guard-Grows :
      (o : Option (FieldGuard Expr)) → FoundGrows o → OptionGrows (rendered_guard b catalog o)
  rendered_guard-Grows none g = tt
  rendered_guard-Grows (some guard) g = render_policy_field_filter-Grows guard g

  relation_condition_from-Grows :
      (parent child : SelectionContext) (ps cs : List ColumnId) (condition : Condition)
      → Grows (relation_condition_from b catalog parent child ps cs condition)
  unfolding relation_condition_from
  relation_condition_from-Grows parent child [] cs condition = give-Grows _
  relation_condition_from-Grows parent child (p ∷ ps) [] condition = give-Grows _
  relation_condition_from-Grows parent child (p ∷ ps) (c ∷ cs) condition =
      >>=-Grows _ _ (found_column-Grows c) (λ x.
        >>=-Grows _ _ (found_column-Grows p)
          (λ y. relation_condition_from-Grows parent child ps cs _))

  relation_condition-Grows :
      (parent child : SelectionContext) (relation : Relation)
      → Grows (relation_condition b catalog parent child relation)
  unfolding relation_condition
  relation_condition-Grows parent child relation =
      relation_condition_from-Grows parent child relation.local_columns relation.target_columns _

  pub join_relation-Grows :
      (source : SqlRowView Expr) (child : SelectionContext) (id : RelationId) (query : Select)
      → GuardsGrow source.field_filters
      → Grows (join_relation b catalog source child id query)
  join_relation-Grows source child id query g = >>=-Grows _ _ (found_relation-Grows id) (λ relation.
      >>=-Grows _ _ (relation_condition-Grows source.context child relation) (λ condition.
        where_optional-Grows _ _
          (rendered_guard-Grows _ (found_grows _ (PolicyFieldTarget.relation relation.id) g))))

  pub join_optional-Grows :
      (source : SqlRowView Expr) (child : SelectionContext) (id : Option RelationId)
      (query : Select)
      → GuardsGrow source.field_filters
      → Grows (join_optional b catalog source child id query)
  join_optional-Grows source child none query g = give-Grows query
  join_optional-Grows source child (some id) query g = join_relation-Grows source child id query g
