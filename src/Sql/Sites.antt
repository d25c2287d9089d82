-- ===== src/Sql/Sites.antt =====
-- crates/dsql-core/src/sql/postgres.rs: the parameters, variants and dynamic sites of generated SQL.
use dsql.Prelude.{String, Option, List}
use dsql.Catalog.Enums.{DataType}
use dsql.Plan.Filter.{SqlVariantCase, DynamicPredicateOperator}

pub record GeneratedSqlParameter : Type 0 where
  pub path : String

pub record GeneratedSqlVariant : Type 0 where
  pub path : String
  pub cases : List SqlVariantCase
  pub null_text : Option String

pub data GeneratedDynamicValueKind : Type 0 where
  scalar collection boolean : GeneratedDynamicValueKind

pub record GeneratedDynamicPredicateOperator : Type 0 where
  pub name : DynamicPredicateOperator
  pub value_kind : GeneratedDynamicValueKind
  pub before_value : Option String
  pub after_value : Option String
  pub cases : List SqlVariantCase

pub record GeneratedDynamicInputSiteField : Type 0 where
  pub key : String
  pub data_type : DataType
  pub operators : List GeneratedDynamicPredicateOperator
  pub directions : List SqlVariantCase

-- plan/types.rs
pub data DynamicInputKind : Type 0 where
  predicate order : DynamicInputKind

pub record GeneratedDynamicInputSite : Type 0 where
  pub path : String
  pub kind : DynamicInputKind
  pub marker : String
  pub identity_sql : String
  pub fields : List GeneratedDynamicInputSiteField

pub data DynamicMarkerKind : Type 0 where
  exact order : DynamicMarkerKind

pub record DynamicMarker : Type 0 where
  pub internal : String
  pub public_text : String
  pub kind : DynamicMarkerKind
