-- ===== src/Sql/Paging.antt =====
-- crates/dsql-core/src/sql/postgres.rs, `apply_order_limit_offset`: the order of rows and how many.
pub mod Limit
pub mod Tests
use dsql.Prelude.{
  ℕ, String, Bool, true, false, Option, none, some, List, [], ◌∷◌, ◌++◌, map, format, decimal,
  if◌then◌else◌, leb, not, ◌||◌,
}
use dsql.Catalog.Types.{ColumnId, Table, Catalog}
use dsql.Plan.Filter.{
  DynamicInputSurface, DynamicOrderDirection, DynamicInputFieldPlan, PolicyFieldTarget,
  SqlParameter, SqlValue, SqlVariantCase, FilterExpr,
}
use dsql.Sql.Builder.{Builder}
use dsql.Sql.Error.{SqlGenerationError, done, failed}
use dsql.Sql.Sites.{DynamicInputKind, DynamicMarkerKind, GeneratedDynamicInputSiteField}
use dsql.Sql.Template.{
  SqlTemplateContext, M, give, ◌>>=◌, ◌>>◌, parameter_text, variant_with_null, variant_text,
  numeric_sentinel, dynamic_site,
}
use dsql.Sql.View.{
  FieldGuard, SqlRowView, found_column, policy_field_filter, masked_column_expression,
  dynamic_field_expression,
}

pub data SortDirectionPlan : Type 0 where
  asc desc : SortDirectionPlan
  variant :
      (path : String) → (variants : List SqlVariantCase) → (nullable : Bool) → SortDirectionPlan

pub data OrderByPlan : Type 0 where
  column : ColumnId → SortDirectionPlan → OrderByPlan
  dynamic :
      (path : String) → DynamicInputSurface → (fields : List DynamicInputFieldPlan) → OrderByPlan

pub record SelectionClauses : Type 0 where
  pub filter : Option FilterExpr
  pub order_by : List OrderByPlan
  pub limit : Option SqlValue
  pub offset : Option SqlValue

pub record PostgresSqlOptions : Type 0 where
  pub collection_limit : Option ℕ

unfoldable pub sql_value_u64 : Option SqlValue → Option ℕ
sql_value_u64 (some (SqlValue.literal value)) = some value
sql_value_u64 _ = none

abbrev lower_limit : Option ℕ → Option ℕ → Option ℕ
lower_limit (some source) (some guard) = some (if leb source guard then source else guard)
lower_limit (some source) none = some source
lower_limit none (some guard) = some guard
lower_limit none none = none

unfoldable pub effective_limit : SelectionClauses → PostgresSqlOptions → Option ℕ
unfolding sql_value_u64
effective_limit clauses options = lower_limit (sql_value_u64 clauses.limit) options.collection_limit

abbrev is_present : {A : Type 0} → Option A → Bool
is_present none = false
is_present (some _) = true

abbrev is_empty : {A : Type 0} → List A → Bool
is_empty [] = true
is_empty (_ ∷ _) = false

unfoldable pub should_use_source_subquery : SelectionClauses → PostgresSqlOptions → Bool
unfolding effective_limit
should_use_source_subquery clauses options =
    is_present (effective_limit clauses options)
    || (is_present clauses.offset || not (is_empty clauses.order_by))

unfoldable pub nullable_variant : String → List SqlVariantCase → M String
unfolding variant_with_null
nullable_variant path cases = variant_with_null path cases (some "null")

abbrev pub column_text : String → String → String → String
column_text table_alias name last = format ("\"" ∷ table_alias ∷ "\".\"" ∷ name ∷ "\" " ∷ last ∷ [])

abbrev add_directions : String → String → String → M (Unit {0})
add_directions table_alias name placeholder template =
    let replacement = column_text table_alias name placeholder in
    done (
      tt,
      record template {
        replacements =
            template.replacements
            ++ (column_text table_alias name "asc", replacement)
              ∷ (column_text table_alias name "ASC", replacement)
              ∷ [];
      },
    )

unfoldable pub replace_order_direction :
    String → String → String → List SqlVariantCase → M (Unit {0})
unfolding variant_text
replace_order_direction table_alias name path cases = do
  placeholder ← variant_text path cases
  add_directions table_alias name placeholder

unfoldable pub numeric_parameter_sentinel : SqlParameter → M ℕ
unfolding parameter_text numeric_sentinel
numeric_parameter_sentinel parameter = do
  placeholder ← parameter_text parameter
  numeric_sentinel placeholder

abbrev pub guarded_text : String → ℕ → String
guarded_text placeholder guard =
    format
      ("LEAST(COALESCE(" ∷ placeholder ∷ ", " ∷ decimal guard ∷ "), " ∷ decimal guard ∷ ")" ∷ [])

unfoldable pub guarded_numeric_parameter_sentinel : SqlParameter → ℕ → M ℕ
unfolding parameter_text numeric_sentinel
guarded_numeric_parameter_sentinel parameter guard = do
  placeholder ← parameter_text parameter
  numeric_sentinel (guarded_text placeholder guard)

-- `DynamicOrderDirection::as_str`
unfoldable pub direction_text : DynamicOrderDirection → String
direction_text DynamicOrderDirection.asc = "asc"
direction_text DynamicOrderDirection.desc = "desc"
direction_text DynamicOrderDirection.asc_nulls_first = "asc_nulls_first"
direction_text DynamicOrderDirection.asc_nulls_last = "asc_nulls_last"
direction_text DynamicOrderDirection.desc_nulls_first = "desc_nulls_first"
direction_text DynamicOrderDirection.desc_nulls_last = "desc_nulls_last"

unfoldable pub dynamic_order_sql : DynamicOrderDirection → String
dynamic_order_sql DynamicOrderDirection.asc = "ASC"
dynamic_order_sql DynamicOrderDirection.desc = "DESC"
dynamic_order_sql DynamicOrderDirection.asc_nulls_first = "ASC NULLS FIRST"
dynamic_order_sql DynamicOrderDirection.asc_nulls_last = "ASC NULLS LAST"
dynamic_order_sql DynamicOrderDirection.desc_nulls_first = "DESC NULLS FIRST"
dynamic_order_sql DynamicOrderDirection.desc_nulls_last = "DESC NULLS LAST"

abbrev direction_case : String → DynamicOrderDirection → SqlVariantCase
direction_case expression direction = record {
  value = direction_text direction;
  text = format ("(" ∷ expression ∷ ") " ∷ dynamic_order_sql direction ∷ []);
}

module _ (b : Builder) (catalog : Catalog) where
  open b use {
    Expr, Condition, Select, cust, cust_with_exprs, select, from_as, cond_where, and_where,
    column_asterisk, order_by_expr, order_by, limit, offset,
  }

  unfoldable pub generated_dynamic_order_fields :
      SqlRowView Expr → List DynamicInputFieldPlan → M (List GeneratedDynamicInputSiteField)
  unfolding dynamic_field_expression direction_text dynamic_order_sql
  generated_dynamic_order_fields source [] = give []
  generated_dynamic_order_fields source (planned ∷ fields) = do
    expression ← dynamic_field_expression b catalog source planned.column
    rest ← generated_dynamic_order_fields source fields
    give (
        (record {
          key = planned.key;
          data_type = planned.data_type;
          operators = [];
          directions = map (direction_case expression) planned.directions;
        })
        ∷ rest)

  abbrev variant_order : String → Expr → Select → Select
  variant_order placeholder expression query =
      order_by_expr
        (cust_with_exprs (format ("CASE WHEN '" ∷ placeholder ∷ "' = 'desc' THEN $1 END" ∷ []))
          (expression ∷ []))
        false
        (order_by_expr
          (cust_with_exprs (format ("CASE WHEN '" ∷ placeholder ∷ "' = 'asc' THEN $1 END" ∷ []))
            (expression ∷ []))
          true query)

  abbrev chosen_variant : Bool → String → List SqlVariantCase → M String
  chosen_variant nullable path variants =
      if nullable then nullable_variant path variants else variant_text path variants

  abbrev expression_variant :
      SqlRowView Expr → ColumnId → String → List SqlVariantCase → Bool → Select → M Select
  expression_variant context column_id path variants nullable query = do
    expression ← masked_column_expression b catalog context column_id
    placeholder ← chosen_variant nullable path variants
    give (variant_order placeholder expression query)

  abbrev column_variant :
      SqlRowView Expr → ColumnId → String → List SqlVariantCase → Select → M Select
  column_variant context column_id path variants query = do
    found ← found_column catalog column_id
    replace_order_direction context.context.table_alias found.name path variants
    give (order_by (context.context.table_alias, found.name) true query)

  -- A direction that is never null is written after a column that is not masked.
  abbrev apply_direction : SqlRowView Expr → ColumnId → SortDirectionPlan → Select → M Select
  apply_direction context column_id SortDirectionPlan.asc query = do
    expression ← masked_column_expression b catalog context column_id
    give (order_by_expr expression true query)
  apply_direction context column_id SortDirectionPlan.desc query = do
    expression ← masked_column_expression b catalog context column_id
    give (order_by_expr expression false query)
  apply_direction context column_id (SortDirectionPlan.variant path variants nullable) query =
      if nullable
        || is_present
            (policy_field_filter context.field_filters (PolicyFieldTarget.column column_id))
      then expression_variant context column_id path variants nullable query
      else column_variant context column_id path variants query

  abbrev apply_order : SqlRowView Expr → OrderByPlan → Select → M Select
  apply_order context (OrderByPlan.column column_id direction) query =
      apply_direction context column_id direction query
  apply_order context (OrderByPlan.dynamic path surface fields) query = do
    generated ← generated_dynamic_order_fields context fields
    marker ←
        dynamic_site path DynamicInputKind.order "NULL::integer" generated DynamicMarkerKind.order
    give (order_by_expr (cust marker) true query)

  unfoldable pub apply_orders : SqlRowView Expr → List OrderByPlan → Select → M Select
  unfolding generated_dynamic_order_fields replace_order_direction nullable_variant
  apply_orders context [] query = give query
  apply_orders context (order ∷ orders) query = do
    ordered ← apply_order context order query
    apply_orders context orders ordered

  abbrev pub apply_limit : Option SqlValue → Option ℕ → Select → M Select
  apply_limit (some (SqlValue.parameter parameter)) (some guard) query = do
    sentinel ← guarded_numeric_parameter_sentinel parameter guard
    give (limit sentinel query)
  apply_limit (some (SqlValue.parameter parameter)) none query = do
    sentinel ← numeric_parameter_sentinel parameter
    give (limit sentinel query)
  apply_limit (some (SqlValue.literal value)) (some bound) query = give (limit bound query)
  apply_limit (some (SqlValue.literal value)) none query = give (limit value query)
  apply_limit none (some bound) query = give (limit bound query)
  apply_limit none none query = give query

  abbrev pub apply_offset : Option SqlValue → Select → M Select
  apply_offset (some (SqlValue.literal value)) query = give (offset value query)
  apply_offset (some (SqlValue.parameter parameter)) query = do
    sentinel ← numeric_parameter_sentinel parameter
    give (offset sentinel query)
  apply_offset none query = give query

  unfoldable pub apply_order_limit_offset :
      SqlRowView Expr → SelectionClauses → Option ℕ → Select → M Select
  unfolding apply_orders guarded_numeric_parameter_sentinel numeric_parameter_sentinel
  apply_order_limit_offset context clauses limit_override query = do
    ordered ← apply_orders context clauses.order_by query
    limited ← apply_limit clauses.limit limit_override ordered
    apply_offset clauses.offset limited

  abbrev where_condition : Option Condition → Select → Select
  where_condition none query = query
  where_condition (some condition) query = cond_where condition query

  abbrev where_filter : Option Expr → Select → Select
  where_filter none query = query
  where_filter (some filter) query = and_where filter query

  unfoldable pub limited_source_query :
      Table
      → SqlRowView Expr
      → Option Condition
      → Option Expr
      → SelectionClauses
      → Option ℕ
      → M Select
  unfolding apply_order_limit_offset
  limited_source_query table context condition filter clauses limit_override =
      apply_order_limit_offset context clauses limit_override (
        where_filter filter (
          where_condition condition (
            from_as (table.schema, table.name) context.context.table_alias
              (column_asterisk select))))
