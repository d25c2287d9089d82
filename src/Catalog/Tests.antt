-- ===== src/Catalog/Tests.antt =====
-- Tests on a catalog of people and of posts in two schemas.
use dsql.Prelude.{
  ◌↔◌, ℕ, zero, suc, ap, sym, ◌<◌, String, true, false, ◌&&◌, none, some, List, [], ◌∷◌, get_elem?,
  contains, In, inl, inr, ◌≡◌, ◌≢◌, refl, arith, nat_eq, string_eq,
}
use dsql.Prelude.Text.Split.{some-injective}
use dsql.Prelude.Int.{parse_i64}
use dsql.Catalog.Enums.{DataType, LiteralKind, ComparisonOp, IndexKeyCapability}
use dsql.Catalog.Capabilities.{
  TypeCapabilities, ProviderTypeFacts, Parsers, accepts, supports, domain_capabilities,
}
use dsql.Catalog.Capabilities.Narrow.{domain_capabilities-supports}
use dsql.Catalog.Builtin.{
  builtin, data_type_name, data_type_from_database_name, data_type_from_logical_name,
}
use dsql.Catalog.Builtin.Names.{data_type_from_logical_name-data_type_name, database_name-resolves}
use dsql.Catalog.Builtin.Accepts.{default-literal}
use dsql.Catalog.Types.{
  TableKey, Index, Table, CatalogType, CatalogTypeShape, Column, Relation, RelationCardinality,
  Catalog, TableResolution, RelationField, FieldCheckResult, TableRef, FieldRef, display_text,
}
use dsql.Catalog.Lookup.{
  key_le, resolve_table_ref_for, columns_of, check_field_ref, column_set_is_unique,
  relation_fields_for_table, relation_fields_of, column_is_independently_indexed,
  column_is_searchable, or_default, selected_by,
}
use dsql.Catalog.Lookup.Tables.{
  matches, resolve_table_ref_for-found, resolve_table_ref_for-not_found,
  resolve_table_ref_for_unique, resolve_table_ref_for-ambiguous,
}
use dsql.Catalog.Lookup.Fields.{check_field_ref-column, check_field_ref-relation}
use dsql.Catalog.Lookup.Indexes.{column_set_is_unique-superset}
use dsql.Catalog.Lookup.Searchable.{IsSearchable, column_is_searchable-IsSearchable}
use dsql.Catalog.Shapes.{value_shape_for_type}
use dsql.Catalog.Shapes.Enough.{IsRanked, value_shape_for_type-ends}

text_type : CatalogType
text_type = record {
  id = 0;
  key = record { schema = "pg_catalog"; name = "text" };
  data_type = DataType.text;
  shape = CatalogTypeShape.scalar;
  enumeration = none;
  readable_type = "text";
  capabilities = builtin DataType.text;
}

abbrev name_column : Column
name_column = record {
  id = 0;
  table = 0;
  name = "name";
  description = none;
  visible = true;
  type_id = 0;
  formatted_type = "text";
  not_null = true;
  is_unique = true;
}

abbrev name_index : Index
name_index = record {
  name = none;
  access_method = "btree";
  keys =
      record { column = 0; operator_class = none; capabilities = IndexKeyCapability.like ∷ [] }
      ∷ [];
  included_columns = [];
  is_unique = true;
}

abbrev people : Table
people = record {
  id = 0;
  key = record { schema = "public"; table = "people" };
  schema = "public";
  name = "people";
  visible = true;
  description = none;
  columns = 0 ∷ [];
  primary_key = [];
  unique_constraints = [];
  indexes = name_index ∷ [];
  relations = 0 ∷ [];
}

abbrev posts : Table
posts = record people {
  id = 1;
  key = record { schema = "public"; table = "posts" };
  name = "posts";
  columns = [];
  indexes = [];
  relations = [];
}

abbrev old_posts : Table
old_posts = record posts {
  id = 2;
  key = record { schema = "archive"; table = "posts" };
  schema = "archive";
}

abbrev hidden : Table
hidden = record posts {
  id = 3;
  key = record { schema = "public"; table = "secrets" };
  name = "secrets";
  visible = false;
}

abbrev wrote : Relation
wrote = record {
  id = 0;
  name = "posts";
  selector = "author";
  visible = true;
  from_table = 0;
  to_table = 1;
  local_columns = 0 ∷ [];
  target_columns = [];
  cardinality = RelationCardinality.collection;
  nullable = false;
}

abbrev blog : Catalog
blog = record {
  default_schema = "public";
  tables = people ∷ posts ∷ old_posts ∷ hidden ∷ [];
  types = text_type ∷ [];
  columns = name_column ∷ [];
  relations = wrote ∷ [];
}

abbrev plain : String → TableRef
plain name = record { schema = none; name = name }

abbrev field_named : String → FieldRef
field_named name = record { target = plain name; selector = none }

abbrev wrote_field : RelationField
wrote_field = record { name = "posts"; selector = "author"; table = posts; relation = wrote }

people_found : resolve_table_ref_for blog (plain "people") ≡ TableResolution.found people
unfolding resolve_table_ref_for
people_found = refl

secrets_missing : resolve_table_ref_for blog (plain "secrets") ≡ TableResolution.not_found "secrets"
unfolding resolve_table_ref_for display_text
secrets_missing = refl

abbrev both_posts : List TableKey
both_posts =
    record { schema = "archive"; table = "posts" }
    ∷ record { schema = "public"; table = "posts" }
    ∷ []

posts_ambiguous :
    resolve_table_ref_for blog (plain "posts") ≡ TableResolution.ambiguous "posts" both_posts
unfolding resolve_table_ref_for display_text key_le
posts_ambiguous = refl

resolve_table_ref_for-found_example :
    In people blog.tables × (matches (plain "people") people ≡ true)
resolve_table_ref_for-found_example =
    resolve_table_ref_for-found blog (plain "people") people people_found

resolve_table_ref_for-not_found_example : matches (plain "secrets") hidden ≡ false
resolve_table_ref_for-not_found_example =
    resolve_table_ref_for-not_found blog (plain "secrets") "secrets" hidden secrets_missing
      (inr (inr (inr (inl refl))))

resolve_table_ref_for_unique_example : people ≡ people
resolve_table_ref_for_unique_example =
    resolve_table_ref_for_unique blog (plain "people") people people refl people_found (inl refl)
      refl

resolve_table_ref_for-ambiguous_example :
    ((plain "posts").schema ≡ none)
    × (t : Table) × In t blog.tables
    × (t.visible ≡ true)
    × (t.name ≡ "posts")
    × (old_posts.key ≡ t.key)
resolve_table_ref_for-ambiguous_example =
    resolve_table_ref_for-ambiguous blog (plain "posts") "posts" both_posts old_posts.key
      posts_ambiguous (inl refl)

name_checked : check_field_ref blog 0 (field_named "name") ≡ FieldCheckResult.column name_column
unfolding check_field_ref columns_of
name_checked = refl

posts_checked : check_field_ref blog 0 (field_named "posts") ≡ FieldCheckResult.relation wrote_field
unfolding check_field_ref columns_of relation_fields_for_table relation_fields_of
posts_checked = refl

check_field_ref-column_example :
    (t : Table) × (get_elem? blog.tables 0 ≡ some t)
    × In name_column (columns_of blog t)
    × (name_column.visible ≡ true)
    × (name_column.name ≡ "name")
check_field_ref-column_example =
    check_field_ref-column blog 0 (field_named "name") name_column name_checked

check_field_ref-relation_example :
    (wrote.visible ≡ true)
    × (posts.visible ≡ true)
    × (wrote.name ≡ "posts")
    × (posts.schema ≡ or_default none "public")
    × (selected_by none "author" ≡ true)
check_field_ref-relation_example =
    check_field_ref-relation blog 0 (field_named "posts") wrote_field posts_checked

zero_unique : column_set_is_unique blog 0 (0 ∷ []) ≡ true
unfolding column_set_is_unique
zero_unique = refl

one_more : (c : ℕ) → contains (0 ∷ []) c ≡ true → contains (7 ∷ 0 ∷ []) c ≡ true
one_more c h = ground arith

column_set_is_unique-superset_example : column_set_is_unique blog 0 (7 ∷ 0 ∷ []) ≡ true
column_set_is_unique-superset_example =
    column_set_is_unique-superset blog 0 (0 ∷ []) (7 ∷ 0 ∷ []) one_more zero_unique

served : column_is_independently_indexed blog 0 ≡ true
unfolding column_is_independently_indexed
served = refl

searchable : column_is_searchable blog 0 ≡ true
unfolding column_is_searchable text_type builtin
searchable = refl

column_is_searchable-IsSearchable_example :
    (column_is_searchable blog 0 ≡ true) ↔ IsSearchable blog 0
column_is_searchable-IsSearchable_example = column_is_searchable-IsSearchable blog 0

abbrev email_type : CatalogType
email_type = record text_type { id = 1; shape = CatalogTypeShape.domain 0; readable_type = "email" }

abbrev typed : Catalog
typed = record blog { types = text_type ∷ email_type ∷ [] }

abbrev rank_of : CatalogTypeShape → ℕ
rank_of CatalogTypeShape.scalar = 0
rank_of CatalogTypeShape.enum = 0
rank_of (CatalogTypeShape.domain base) = suc base
rank_of (CatalogTypeShape.array element) = suc element

abbrev rank : CatalogType → ℕ
rank t = rank_of t.shape

at_most : (id : ℕ) (next : CatalogType) → get_elem? typed.types id ≡ some next → rank next < suc id
unfolding text_type
at_most zero next there =
    let same : text_type ≡ next = some-injective there in rw (sym same) (omega arith)
at_most (suc zero) next there =
    let same : email_type ≡ next = some-injective there in rw (sym same) (omega arith)
at_most (suc (suc id)) next there = cc

no_cycle : IsRanked typed rank
no_cycle = record {
  base = λ t next id e there. rw (ap rank_of e) (at_most id next there);
  element = λ t next id e there. rw (ap rank_of e) (at_most id next there);
}

value_shape_for_type-ends_example : value_shape_for_type 2 typed 1 ≢ none
value_shape_for_type-ends_example =
    value_shape_for_type-ends typed rank no_cycle 2 1 email_type refl (omega arith)

data_type_from_logical_name-data_type_name_example :
    data_type_from_logical_name (data_type_name DataType.big_int) ≡ some DataType.big_int
data_type_from_logical_name-data_type_name_example =
    data_type_from_logical_name-data_type_name DataType.big_int

database_name-resolves_example :
    (data_type_from_database_name "varchar" ≡ DataType.text)
    × (data_type_from_logical_name "varchar" ≡ some DataType.text)
database_name-resolves_example = database_name-resolves DataType.text "varchar" refl

abbrev parsers : Parsers
parsers = record { is_finite_float = λ s. true; pattern_matches = λ p s. true }

seven : accepts parsers (builtin DataType.int).defaults LiteralKind.number "7" ≡ true
unfolding accepts builtin parse_i64
seven = refl

not_big : DataType.int ≢ DataType.big_int
not_big e = cc

default-literal_example :
    accepts parsers (builtin DataType.int).literals LiteralKind.number "7" ≡ true
default-literal_example = default-literal parsers DataType.int LiteralKind.number "7" not_big seven

abbrev facts : ProviderTypeFacts
facts = record {
  kind = "d";
  category = "S";
  effective_kind = some "b";
  effective_category = none;
  orderable = true;
}

abbrev email : TypeCapabilities
email = domain_capabilities (builtin DataType.text) "email" (some facts) ("=" ∷ ">" ∷ [])

domain_capabilities-supports_example :
    (supports email ComparisonOp.gt ≡ (
      contains {A = String} ("=" ∷ ">" ∷ []) ">"
      && supports (builtin DataType.text) ComparisonOp.gt))
    × (email.orderable ≡ (facts.orderable && (builtin DataType.text).orderable))
    × (email.literals ≡ (builtin DataType.text).literals)
    × (email.defaults ≡ (builtin DataType.text).defaults)
    × (email.wire ≡ (builtin DataType.text).wire)
    × (email.aggregates ≡ (builtin DataType.text).aggregates)
domain_capabilities-supports_example =
    domain_capabilities-supports (builtin DataType.text) "email" facts ("=" ∷ ">" ∷ [])
      ComparisonOp.gt
