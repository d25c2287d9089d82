-- ===== src/Catalog/Lookup.antt =====
-- crates/dsql-core/src/catalog/lookup.rs: tables, fields, relations and indexes by their names.
pub mod Tables
pub mod Fields
pub mod Indexes
pub mod Any
pub mod Searchable
use dsql.Prelude.{
  ℕ, zero, suc, String, Bool, true, false, not, ◌&&◌, ◌||◌, Option, none, some, List, [], ◌∷◌, map,
  keep, find, any, all, filter_map, contains, get_elem?, eqb, if◌then◌else◌, ◌==◌, nat_eq,
  string_eq, format, text_le,
}
use dsql.Execute.Scalars.{is_some_and, and_then}
use dsql.Catalog.Enums.{IndexKeyCapability, key_capability_eq, ComparisonOp}
use dsql.Catalog.Capabilities.{supports}
use dsql.Catalog.Types.{
  TableId, ColumnId, TypeId, RelationId, TableKey, IndexKey, Index, Table, CatalogType, Column,
  Relation, Catalog, TableResolution, RelationField, FieldCheckResult, TableRef, display_text,
  FieldRef, field_text,
}

unfoldable pub table : Catalog → String → String → Option Table
table self schema name =
    find self.tables (λ table. table.visible && (table.schema == schema && table.name == name))

-- Schemas first, then tables, as texts are ordered.
unfoldable pub key_le : TableKey → TableKey → Bool
key_le a b = if a.schema == b.schema then text_le a.table b.table else text_le a.schema b.schema

abbrev pub insert_key : TableKey → List TableKey → List TableKey
insert_key k [] = k ∷ []
insert_key k (j ∷ keys) = if key_le k j then k ∷ j ∷ keys else j ∷ insert_key k keys

abbrev pub sort_keys : List TableKey → List TableKey
sort_keys [] = []
sort_keys (k ∷ keys) = insert_key k (sort_keys keys)

abbrev pub named : TableRef → Table → Bool
named reference table = table.visible && table.name == reference.name

-- The answer of an unqualified reference by its matches.
abbrev pub resolution : TableRef → List Table → TableResolution
resolution reference [] = TableResolution.not_found (display_text reference)
resolution reference (table ∷ []) = TableResolution.found table
resolution reference (first ∷ second ∷ more) =
    TableResolution.ambiguous (display_text reference)
      (sort_keys (map (λ table. table.key) (first ∷ second ∷ more)))

unfoldable pub resolve_in_schema : Catalog → TableRef → Option String → TableResolution
unfolding table
resolve_in_schema self reference (some schema) = elim (table self schema reference.name) [
  | none ↦ TableResolution.not_found (display_text reference)
  | some found ↦ TableResolution.found found
]
resolve_in_schema self reference none = resolution reference (keep self.tables (named reference))

unfoldable pub resolve_table_ref_for : Catalog → TableRef → TableResolution
unfolding resolve_in_schema
resolve_table_ref_for self reference = resolve_in_schema self reference reference.schema

unfoldable pub table_ref_for : Catalog → TableRef → Option Table
unfolding resolve_table_ref_for
table_ref_for self reference = elim (resolve_table_ref_for self reference) [
  | TableResolution.found table ↦ some table
  | TableResolution.not_found _ ↦ none
  | TableResolution.ambiguous _ _ ↦ none
]

unfoldable pub table_by_id : Catalog → TableId → Option Table
table_by_id self id = get_elem? self.tables id

unfoldable pub column_by_id : Catalog → ColumnId → Option Column
column_by_id self id = get_elem? self.columns id

unfoldable pub relation_by_id : Catalog → RelationId → Option Relation
relation_by_id self id = get_elem? self.relations id

unfoldable pub type_for_column : Catalog → ColumnId → Option CatalogType
unfolding column_by_id
type_for_column self id =
    and_then (column_by_id self id) (λ column. get_elem? self.types column.type_id)

unfoldable pub columns_of : Catalog → Table → List Column
columns_of self table = filter_map (λ id. get_elem? self.columns id) table.columns

unfoldable pub columns_for_table : Catalog → TableId → List Column
unfolding columns_of
columns_for_table self id = elim (get_elem? self.tables id) [
  | none ↦ []
  | some table ↦ keep (columns_of self table) (λ column. column.visible)
]

-- A relation is exposed when it and the table that it leads to are visible.
abbrev pub exposed : Catalog → Relation → Bool
exposed self relation =
    relation.visible
    && is_some_and (get_elem? self.tables relation.to_table) (λ table. table.visible)

abbrev pub relation_field : Catalog → Relation → Option RelationField
relation_field self relation = and_then (get_elem? self.tables relation.to_table) (λ related.
    some (record {
      name = relation.name;
      selector = relation.selector;
      table = related;
      relation = relation;
    }))

unfoldable pub relation_fields_of : Catalog → Table → List RelationField
relation_fields_of self table =
    filter_map (relation_field self)
      (keep (filter_map (λ id. get_elem? self.relations id) table.relations) (exposed self))

abbrev pub relation_fields_at : Catalog → Option Table → List RelationField
relation_fields_at self none = []
relation_fields_at self (some table) = relation_fields_of self table

unfoldable pub relation_fields_for_table : Catalog → TableId → List RelationField
relation_fields_for_table self id = relation_fields_at self (get_elem? self.tables id)

abbrev is_empty {ℓ} : {A : Type ℓ} → List A → Bool
is_empty [] = true
is_empty (_ ∷ _) = false

unfoldable pub column_set_covers : List ColumnId → List ColumnId → Bool
column_set_covers columns unique_columns =
    not (is_empty unique_columns) && all unique_columns (λ c. contains columns c)

abbrev pub index_covered : List ColumnId → Index → Bool
index_covered columns index =
    index.is_unique
    && (not (is_empty index.keys) && all index.keys (λ key. contains columns key.column))

unfoldable pub column_set_is_unique : Catalog → TableId → List ColumnId → Bool
unfolding table_by_id column_set_covers
column_set_is_unique self id columns = is_some_and (table_by_id self id) (λ table.
    any table.unique_constraints (λ unique_columns. column_set_covers columns unique_columns)
    || any table.indexes (index_covered columns))

unfoldable pub independent_method : String → Bool
independent_method m = m == "gin" || m == "gist" || m == "spgist" || m == "brin" || m == "hash"

unfoldable pub index_key_is_independently_usable : Index → ℕ → Bool
unfolding independent_method
index_key_is_independently_usable index position =
    eqb position 0 || independent_method index.access_method

-- `enumerate().any`, from a position on.
abbrev pub any_key : (ℕ → IndexKey → Bool) → ℕ → List IndexKey → Bool
any_key p position [] = false
any_key p position (key ∷ keys) = p position key || any_key p (suc position) keys

abbrev pub any_index : Catalog → ColumnId → (Index → ℕ → IndexKey → Bool) → Bool
any_index self column p =
    is_some_and (and_then (column_by_id self column) (λ c. table_by_id self c.table))
      (λ table. any table.indexes (λ index. any_key (p index) 0 index.keys))

unfoldable pub column_participates_in_index : Catalog → ColumnId → Bool
unfolding column_by_id table_by_id
column_participates_in_index self column =
    any_index self column (λ index position key. key.column == column)

unfoldable pub column_is_independently_indexed : Catalog → ColumnId → Bool
unfolding column_by_id table_by_id index_key_is_independently_usable
column_is_independently_indexed self column =
    any_index self column (λ index position key.
      key.column == column && index_key_is_independently_usable index position)

-- The capabilities are those of the column that the record of the column names.
abbrev pub supports_like : Catalog → Column → Bool
supports_like self column =
    is_some_and (type_for_column self column.id)
      (λ data_type. supports data_type.capabilities ComparisonOp.like)

abbrev pub filter_like : Catalog → Column → Option Column
filter_like self column = if supports_like self column then some column else none

unfoldable pub column_is_searchable : Catalog → ColumnId → Bool
unfolding column_by_id table_by_id index_key_is_independently_usable type_for_column supports
column_is_searchable self column =
    is_some_and
      (and_then (and_then (column_by_id self column) (filter_like self))
        (λ c. table_by_id self c.table))
      (λ table. any table.indexes (λ index.
        any_key
          (λ position key.
            key.column == column
            && (contains key.capabilities IndexKeyCapability.like
                && index_key_is_independently_usable index position))
          0 index.keys))

abbrev pub or_default : Option String → String → String
or_default none d = d
or_default (some s) d = s

abbrev pub selected_by : Option String → String → Bool
selected_by none actual = true
selected_by (some selector) actual = selector == actual

abbrev pub candidate : Catalog → FieldRef → RelationField → Bool
candidate self field relation =
    relation.relation.name == field.target.name
    && (relation.table.schema == or_default field.target.schema self.default_schema
        && selected_by field.selector relation.relation.selector)

abbrev shown_candidate : RelationField → String
shown_candidate relation =
    format (
      relation.table.schema ∷ "::" ∷ relation.relation.name ∷ "->" ∷ relation.relation.selector
      ∷ [])

abbrev pub chosen : FieldRef → List RelationField → FieldCheckResult
chosen field [] = FieldCheckResult.not_found
chosen field (relation ∷ []) = FieldCheckResult.relation relation
chosen field (first ∷ second ∷ more) =
    FieldCheckResult.ambiguous_relation (field_text field)
      (map shown_candidate (first ∷ second ∷ more))

-- Only a reference without a schema and without a selector may name a column.
abbrev pub plain : FieldRef → Bool
plain field = elim field.target.schema [
  | some _ ↦ false
  | none ↦ elim field.selector [ none ↦ true | some _ ↦ false ]
]

abbrev pub column_named : Catalog → Table → FieldRef → Option Column
column_named self table field =
    if plain field
    then find (columns_of self table) (λ column. column.visible && column.name == field.target.name)
    else none

-- A column shadows the relations of the table.
abbrev pub column_or_relation : Catalog → Table → FieldRef → Option Column → FieldCheckResult
column_or_relation self table field (some column) = FieldCheckResult.column column
column_or_relation self table field none =
    chosen field (keep (relation_fields_for_table self table.id) (candidate self field))

abbrev pub check_at : Catalog → FieldRef → Option Table → FieldCheckResult
check_at self field none = FieldCheckResult.not_found
check_at self field (some table) =
    column_or_relation self table field (column_named self table field)

unfoldable pub check_field_ref : Catalog → TableId → FieldRef → FieldCheckResult
check_field_ref self id field = check_at self field (get_elem? self.tables id)
