-- ===== src/Catalog/Lookup/Fields.antt =====
-- crates/dsql-core/src/catalog/lookup.rs, `check_field_ref`: what a field of a selection names.
use dsql.Prelude.{
  true, ◌&&◌, Option, none, some, List, [], ◌∷◌, keep, get_elem?, filter_map, In, keep-In, find-In,
  ◌≡◌, refl, sym, inl, inr, ◌⊎◌, arith, Option-cases, Bool-cases, ◌==◌, string_eq, ap,
}
use dsql.Prelude.Text.Split.{some-injective}
use dsql.Catalog.Types.{
  Table, TableId, Column, Relation, RelationField, Catalog, FieldCheckResult, FieldRef,
}
use dsql.Catalog.Lookup.{
  columns_of, exposed, relation_field, relation_fields_of, relation_fields_at,
  relation_fields_for_table, candidate, chosen, column_named, column_or_relation, check_at,
  check_field_ref, selected_by, plain, or_default,
}

from_column : Column → FieldCheckResult → Column
from_column d (FieldCheckResult.column c) = c
from_column d _ = d

from_relation : RelationField → FieldCheckResult → RelationField
from_relation d (FieldCheckResult.relation r) = r
from_relation d _ = d

filter_map-In :
    {A B : Type 0} (f : A → Option B) (xs : List A) (b : B)
    → In b (filter_map f xs)
    → (a : A) × In a xs × (f a ≡ some b)
filter_map-In f [] b i = absurd i
filter_map-In f (x ∷ xs) b i = elim (Option-cases (f x)) [
  | inl e ↦ let (a, j, h) = filter_map-In f xs b (rw e at i) in (a, inr j, h)
  | inr (y, e) ↦
      let split : (b ≡ y) ⊎ In b (filter_map f xs) = rw e at i in
      elim split [
        | inl same ↦ (x, inl refl, rw same e)
        | inr later ↦ let (a, j, h) = filter_map-In f xs b later in (a, inr j, h)
      ]
]

field_of : Relation → Table → RelationField
field_of r related = record { name = r.name; selector = r.selector; table = related; relation = r }

exposed-field :
    (c : Catalog) (r : Relation) (f : RelationField)
    → exposed c r ≡ true
    → relation_field c r ≡ some f
    → (f.relation.visible ≡ true) × (f.table.visible ≡ true) × (f.relation ≡ r)
unfolding field_of
exposed-field c r f shown e = elim (Option-cases (get_elem? c.tables r.to_table)) [
  | inl missing ↦ absurd (ground arith)
  | inr (related, there) ↦
      let same : field_of r related ≡ f = some-injective (rw there at e) in
      let first : r.visible ≡ true = ground arith in
      let second : related.visible ≡ true = ground arith in rw (sym same) (first, second, refl)
]

-- Every relation field of a table is visible and leads to a visible table.
pub relation_fields_of-visible :
    (c : Catalog) (t : Table) (f : RelationField)
    → In f (relation_fields_of c t)
    → (f.relation.visible ≡ true) × (f.table.visible ≡ true)
unfolding relation_fields_of
relation_fields_of-visible c t f i =
    let relations = filter_map (λ id. get_elem? c.relations id) t.relations in
    let (r, j, e) = filter_map-In (relation_field c) (keep relations (exposed c)) f i in
    let (_, shown) = keep-In relations (exposed c) r j in
    let (first, second, _) = exposed-field c r f shown e in (first, second)

at-visible :
    (c : Catalog) (o : Option Table) (f : RelationField)
    → In f (relation_fields_at c o)
    → (f.relation.visible ≡ true) × (f.table.visible ≡ true)
at-visible c none f i = absurd i
at-visible c (some t) f i = relation_fields_of-visible c t f i

chosen-relation :
    (field : FieldRef) (fs : List RelationField) {f : RelationField}
    → chosen field fs ≡ FieldCheckResult.relation f
    → fs ≡ f ∷ []
unfolding from_relation
chosen-relation field [] h = cc
chosen-relation field (g ∷ []) h = ap (λ r. from_relation g r ∷ []) h
chosen-relation field (g ∷ k ∷ fs) h = cc

chosen-column :
    (field : FieldRef) (fs : List RelationField) {col : Column}
    → chosen field fs ≡ FieldCheckResult.column col
    → ⊥
chosen-column field [] h = cc
chosen-column field (g ∷ []) h = cc
chosen-column field (g ∷ k ∷ fs) h = cc

column-or :
    (c : Catalog) (t : Table) (field : FieldRef) (o : Option Column) {col : Column}
    → column_or_relation c t field o ≡ FieldCheckResult.column col
    → o ≡ some col
unfolding from_column
column-or c t field (some x) h = ap (λ r. some (from_column x r)) h
column-or c t field none h = absurd (chosen-column field _ h)

relation-or :
    (c : Catalog) (t : Table) (field : FieldRef) (o : Option Column) {f : RelationField}
    → column_or_relation c t field o ≡ FieldCheckResult.relation f
    → keep (relation_fields_for_table c t.id) (candidate c field) ≡ f ∷ []
relation-or c t field (some x) h = cc
relation-or c t field none h = chosen-relation field _ h

named-column :
    (c : Catalog) (t : Table) (field : FieldRef) {col : Column}
    → column_named c t field ≡ some col
    → (plain field ≡ true)
      × In col (columns_of c t)
      × (col.visible ≡ true)
      × (col.name ≡ field.target.name)
named-column c t field {col} h = elim (Bool-cases (plain field)) [
  | inr e ↦ absurd (ground arith)
  | inl e ↦
      let (i, m) =
        find-In (columns_of c t) (λ column. column.visible && column.name == field.target.name)
          (rw e at h) in
      (e, i, ground arith, (string_eq.beq_iff _ _).0 (ground arith))
]

at-column :
    (c : Catalog) (field : FieldRef) (o : Option Table) (col : Column)
    → check_at c field o ≡ FieldCheckResult.column col
    → (t : Table) × (o ≡ some t)
      × In col (columns_of c t)
      × (col.visible ≡ true)
      × (col.name ≡ field.target.name)
at-column c field none col h = cc
at-column c field (some t) col h =
    let (_, i, shown, same) = named-column c t field (column-or c t field _ h) in
    (t, refl, i, shown, same)

-- A field that is checked to be a column is a visible column of the table, with the name that was
-- written.
pub check_field_ref-column :
    (c : Catalog) (id : TableId) (field : FieldRef) (col : Column)
    → check_field_ref c id field ≡ FieldCheckResult.column col
    → (t : Table) × (get_elem? c.tables id ≡ some t)
      × In col (columns_of c t)
      × (col.visible ≡ true)
      × (col.name ≡ field.target.name)
unfolding check_field_ref
check_field_ref-column c id field col h = at-column c field (get_elem? c.tables id) col h

at-relation :
    (c : Catalog) (field : FieldRef) (o : Option Table) (f : RelationField)
    → check_at c field o ≡ FieldCheckResult.relation f
    → (f.relation.visible ≡ true) × (f.table.visible ≡ true) × (candidate c field f ≡ true)
unfolding relation_fields_for_table
at-relation c field none f h = cc
at-relation c field (some t) f h =
    let only = relation-or c t field _ h in
    let (i, m) =
      keep-In (relation_fields_for_table c t.id) (candidate c field) f (rw only (inl refl)) in
    let (first, second) = at-visible c (get_elem? c.tables t.id) f i in (first, second, m)

-- A field that is checked to be a relation is a visible relation to a visible table, with the name
-- that was written, in the schema that was written or the default schema, and with the selector if
-- one was written.
pub check_field_ref-relation :
    (c : Catalog) (id : TableId) (field : FieldRef) (f : RelationField)
    → check_field_ref c id field ≡ FieldCheckResult.relation f
    → (f.relation.visible ≡ true)
      × (f.table.visible ≡ true)
      × (f.relation.name ≡ field.target.name)
      × (f.table.schema ≡ or_default field.target.schema c.default_schema)
      × (selected_by field.selector f.relation.selector ≡ true)
unfolding check_field_ref
check_field_ref-relation c id field f h =
    let (first, second, m) = at-relation c field (get_elem? c.tables id) f h in
    (
      first,
      second,
      (string_eq.beq_iff _ _).0 (ground arith),
      (string_eq.beq_iff _ _).0 (ground arith),
      ground arith,
    )
