-- ===== src/Catalog/Types.antt =====
-- crates/dsql-core/src/catalog/types.rs and keys.rs: tables, columns, indexes and relations. Dense
-- identities are positions in the arenas of a catalog. What a fact rests on in the sources of a
-- project (provenance) is left out: no lookup reads it.
use dsql.Prelude.{ℕ, String, Bool, Option, none, some, List, [], ◌∷◌, format, split_once}
use dsql.Catalog.Enums.{DataType, IndexKeyCapability}
use dsql.Catalog.Capabilities.{TypeCapabilities}

abbrev pub TableId : Type 0
TableId = ℕ

abbrev pub ColumnId : Type 0
ColumnId = ℕ

abbrev pub TypeId : Type 0
TypeId = ℕ

abbrev pub RelationId : Type 0
RelationId = ℕ

pub record TypeKey : Type 0 where
  pub schema : String
  pub name : String

pub record TableKey : Type 0 where
  pub schema : String
  pub table : String

pub record IndexKey : Type 0 where
  pub column : ColumnId
  pub operator_class : Option String
  pub capabilities : List IndexKeyCapability

pub record Index : Type 0 where
  pub name : Option String
  pub access_method : String
  pub keys : List IndexKey
  pub included_columns : List ColumnId
  pub is_unique : Bool

pub record Table : Type 0 where
  pub id : TableId
  pub key : TableKey
  pub schema : String
  pub name : String
  pub visible : Bool
  pub description : Option String
  pub columns : List ColumnId
  pub primary_key : List ColumnId
  pub unique_constraints : List (List ColumnId)
  pub indexes : List Index
  pub relations : List RelationId

pub data CatalogTypeShape : Type 0 where
  scalar : CatalogTypeShape
  domain : (base : TypeId) → CatalogTypeShape
  array : (element : TypeId) → CatalogTypeShape
  enum : CatalogTypeShape

pub record CatalogEnumVariant : Type 0 where
  pub variant : String
  pub database_value : String
  pub label : Option String
  pub description : Option String

pub record CatalogEnum : Type 0 where
  pub description : Option String
  pub variants : List CatalogEnumVariant

pub record CatalogType : Type 0 where
  pub id : TypeId
  pub key : TypeKey
  pub data_type : DataType
  pub shape : CatalogTypeShape
  pub enumeration : Option CatalogEnum
  pub readable_type : String
  pub capabilities : TypeCapabilities

pub record Column : Type 0 where
  pub id : ColumnId
  pub table : TableId
  pub name : String
  pub description : Option String
  pub visible : Bool
  pub type_id : TypeId
  pub formatted_type : String
  pub not_null : Bool
  pub is_unique : Bool

pub data RelationCardinality : Type 0 where
  collection singular : RelationCardinality

pub record Relation : Type 0 where
  pub id : RelationId
  pub name : String
  pub selector : String
  pub visible : Bool
  pub from_table : TableId
  pub to_table : TableId
  pub local_columns : List ColumnId
  pub target_columns : List ColumnId
  pub cardinality : RelationCardinality
  pub nullable : Bool

pub record Catalog : Type 0 where
  pub default_schema : String
  pub tables : List Table
  pub types : List CatalogType
  pub columns : List Column
  pub relations : List Relation

pub data CatalogValueShape : Type 0 where
  scalar : (leaf : CatalogType) → CatalogValueShape
  database_array : (element : CatalogType) → CatalogValueShape

pub data TableResolution : Type 0 where
  found : Table → TableResolution
  not_found : (reference : String) → TableResolution
  ambiguous : (reference : String) (candidates : List TableKey) → TableResolution

pub record RelationField : Type 0 where
  pub name : String
  pub selector : String
  pub table : Table
  pub relation : Relation

pub data FieldCheckResult : Type 0 where
  column : Column → FieldCheckResult
  relation : RelationField → FieldCheckResult
  not_found : FieldCheckResult
  ambiguous_relation : (reference : String) (candidates : List String) → FieldCheckResult

-- A `schema::name` reference as it is written.
pub record TableRef : Type 0 where
  pub schema : Option String
  pub name : String

unfoldable pub parse : String → TableRef
unfolding split_once
parse raw = elim (split_once "::" raw) [
  | some (schema, name) ↦ record { schema = some schema; name = name }
  | none ↦ record { schema = none; name = raw }
]

unfoldable pub display_text : TableRef → String
display_text r = elim r.schema [
  | some schema ↦ format (schema ∷ "::" ∷ r.name ∷ [])
  | none ↦ r.name
]

-- `schema::name->selector`.
pub record FieldRef : Type 0 where
  pub target : TableRef
  pub selector : Option String

unfoldable pub field_text : FieldRef → String
unfolding display_text
field_text r = elim r.selector [
  | some selector ↦ format (display_text r.target ∷ "->" ∷ selector ∷ [])
  | none ↦ display_text r.target
]
