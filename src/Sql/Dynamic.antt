-- ===== src/Sql/Dynamic.antt =====
-- crates/dsql-core/src/sql/postgres.rs: what a dynamic predicate may do at one of its sites.
use dsql.Prelude.{
  String, Bool, true, false, Option, none, some, List, [], ◌∷◌, map, ◌==◌, format, if◌then◌else◌,
}
use dsql.Catalog.Types.{TypeKey, CatalogType, Catalog}
use dsql.Catalog.Lookup.{type_for_column}
use dsql.Metadata.Wire.{WireEncoding, wire_eq}
use dsql.Plan.Filter.{DynamicInputFieldPlan, DynamicPredicateOperator}
use dsql.Sql.Builder.{Builder}
use dsql.Sql.Sites.{
  GeneratedDynamicValueKind, GeneratedDynamicPredicateOperator, GeneratedDynamicInputSiteField,
}
use dsql.Sql.Template.{M, give, ◌>>=◌, quoted_type_key, array_suffix}
use dsql.Sql.View.{SqlRowView, dynamic_field_expression}

abbrev pub dynamic_cast_before : Option TypeKey → String
dynamic_cast_before none = ""
dynamic_cast_before (some _) = "(("

abbrev pub dynamic_cast_after : Option TypeKey → Bool → String
dynamic_cast_after none collection = ""
dynamic_cast_after (some target) collection = format (
    ")::text"
    ∷ array_suffix collection
    ∷ ")::"
    ∷ quoted_type_key target
    ∷ array_suffix collection
    ∷ [])

abbrev pub cast_of_type : Option CatalogType → Option TypeKey
cast_of_type none = none
cast_of_type (some declared) =
    if declared.capabilities.wire == WireEncoding.text_cast then some declared.key else none

abbrev pub scalar_after : Option TypeKey → Option String
scalar_after none = none
scalar_after (some target) = some (dynamic_cast_after (some target) false)

unfoldable pub dynamic_scalar :
    DynamicPredicateOperator → String → String → Option TypeKey → GeneratedDynamicPredicateOperator
unfolding quoted_type_key
dynamic_scalar name expression operator text_cast = record {
  name = name;
  value_kind = GeneratedDynamicValueKind.scalar;
  before_value =
      some (format ("(" ∷ expression ∷ ") " ∷ operator ∷ " " ∷ dynamic_cast_before text_cast ∷ []));
  after_value = scalar_after text_cast;
  cases = [];
}

unfoldable pub dynamic_collection :
    DynamicPredicateOperator → String → String → Option TypeKey → GeneratedDynamicPredicateOperator
unfolding quoted_type_key
dynamic_collection name expression operator text_cast = record {
  name = name;
  value_kind = GeneratedDynamicValueKind.collection;
  before_value =
      some (format ("(" ∷ expression ∷ ") " ∷ operator ∷ "(" ∷ dynamic_cast_before text_cast ∷ []));
  after_value = some (format (dynamic_cast_after text_cast true ∷ ")" ∷ []));
  cases = [];
}

unfoldable pub dynamic_null_test : String → GeneratedDynamicPredicateOperator
dynamic_null_test expression = record {
  name = DynamicPredicateOperator.is_null;
  value_kind = GeneratedDynamicValueKind.boolean;
  before_value = none;
  after_value = none;
  cases =
      (record { value = "true"; text = format ("(" ∷ expression ∷ ") IS NULL" ∷ []) })
      ∷ (record { value = "false"; text = format ("(" ∷ expression ∷ ") IS NOT NULL" ∷ []) })
      ∷ [];
}

unfoldable pub dynamic_operator :
    String → Option TypeKey → DynamicPredicateOperator → GeneratedDynamicPredicateOperator
unfolding dynamic_scalar dynamic_collection dynamic_null_test
dynamic_operator expression text_cast DynamicPredicateOperator.eq =
    dynamic_scalar DynamicPredicateOperator.eq expression "=" text_cast
dynamic_operator expression text_cast DynamicPredicateOperator.neq =
    dynamic_scalar DynamicPredicateOperator.neq expression "!=" text_cast
dynamic_operator expression text_cast DynamicPredicateOperator.gt =
    dynamic_scalar DynamicPredicateOperator.gt expression ">" text_cast
dynamic_operator expression text_cast DynamicPredicateOperator.gte =
    dynamic_scalar DynamicPredicateOperator.gte expression ">=" text_cast
dynamic_operator expression text_cast DynamicPredicateOperator.lt =
    dynamic_scalar DynamicPredicateOperator.lt expression "<" text_cast
dynamic_operator expression text_cast DynamicPredicateOperator.lte =
    dynamic_scalar DynamicPredicateOperator.lte expression "<=" text_cast
dynamic_operator expression text_cast DynamicPredicateOperator.like =
    dynamic_scalar DynamicPredicateOperator.like expression "like" text_cast
dynamic_operator expression text_cast DynamicPredicateOperator.in_list =
    dynamic_collection DynamicPredicateOperator.in_list expression "= ANY" text_cast
dynamic_operator expression text_cast DynamicPredicateOperator.not_in =
    dynamic_collection DynamicPredicateOperator.not_in expression "<> ALL" text_cast
dynamic_operator expression text_cast DynamicPredicateOperator.is_null =
    dynamic_null_test expression

module _ (b : Builder) where
  open b use {Expr}

  unfoldable pub generated_dynamic_predicate_fields :
      Catalog
      → SqlRowView Expr
      → List DynamicInputFieldPlan
      → M (List GeneratedDynamicInputSiteField)
  unfolding dynamic_field_expression dynamic_operator type_for_column
  generated_dynamic_predicate_fields catalog source [] = give []
  generated_dynamic_predicate_fields catalog source (planned ∷ fields) = do
    expression ← dynamic_field_expression b catalog source planned.column
    rest ← generated_dynamic_predicate_fields catalog source fields
    give (
        (record {
          key = planned.key;
          data_type = planned.data_type;
          operators =
              map
                (dynamic_operator expression
                  (cast_of_type (type_for_column catalog planned.column)))
                planned.operators;
          directions = [];
        })
        ∷ rest)
