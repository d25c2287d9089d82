-- ===== src/Catalog/Lookup/Searchable.antt =====
-- crates/dsql-core/src/catalog/lookup.rs, `column_is_searchable`: what makes a column searchable.
use dsql.Prelude.{
  ℕ, String, Bool, true, ◌&&◌, Option, none, some, List, [], ◌∷◌, any, contains, get_elem?, In,
  contains-In, In-contains, ◌≡◌, ◌↔◌, ◌⊎◌, refl, sym, ap, ◌∙◌, inl, inr, arith, Bool-cases, ◌==◌,
  nat_eq, string_eq, eqb, eqb_iff,
}
use dsql.Execute.Scalars.{and_then}
use dsql.Catalog.Enums.{key_capability_eq, IndexKeyCapability, ComparisonOp, comparison_eq}
use dsql.Catalog.Types.{Catalog, CatalogType, Table, Column, ColumnId, Index, IndexKey}
use dsql.Catalog.Capabilities.{supports}
use dsql.Catalog.Lookup.{
  table_by_id, column_by_id, type_for_column, any_key, independent_method,
  index_key_is_independently_usable, supports_like, filter_like, column_is_searchable,
}
use dsql.Catalog.Lookup.Any.{
  any-In, In-any, any_key-get_elem?, get_elem?-any_key, is_some_and-some, some-is_some_and,
  and_then-some, some-and_then, zero_add,
}

-- A key of an index that finds texts by a pattern: it stands for the column, it has the capability, and
-- it is the first key, or the access method of the index can use a later key on its own.
pub record IsPatternKey (column : ColumnId) (i : Index) (position : ℕ) (key : IndexKey)
    : Type 0 where
  pub stands_at : get_elem? i.keys position ≡ some key
  pub names : key.column ≡ column
  pub pattern : In IndexKeyCapability.like key.capabilities
  pub usable :
      (position ≡ 0) ⊎ In i.access_method ("gin" ∷ "gist" ∷ "spgist" ∷ "brin" ∷ "hash" ∷ [])

-- What makes a column searchable: a type with the operator `like`, and such a key in an index of the
-- table of the column.
pub record IsSearchable (catalog : Catalog) (id : ColumnId) : Type 0 where
  pub found : Column
  pub has_column : get_elem? catalog.columns id ≡ some found
  pub own : Column
  pub has_own : get_elem? catalog.columns found.id ≡ some own
  pub type_of : CatalogType
  pub has_type : get_elem? catalog.types own.type_id ≡ some type_of
  pub like : In ComparisonOp.like type_of.capabilities.operators
  pub table : Table
  pub has_table : get_elem? catalog.tables found.table ≡ some table
  pub i : Index
  pub has_index : In i table.indexes
  pub position : ℕ
  pub key : IndexKey
  pub pattern_key : IsPatternKey id i position key

abbrev methods : List String
methods = "gin" ∷ "gist" ∷ "spgist" ∷ "brin" ∷ "hash" ∷ []

independent_method_iff : (m : String) → (independent_method m ≡ true) ↔ In m methods
unfolding independent_method
independent_method_iff m = (listed, accepted)
  where
    listed : independent_method m ≡ true → In m methods
    listed h =
        let (x, there, same) = any-In methods (λ x. m == x) (ground arith) in
        let e : m ≡ x = (string_eq.beq_iff m x).0 same in rw e there

    accepted : In m methods → independent_method m ≡ true
    accepted i =
        let h = In-any m methods (λ x. m == x) i ((string_eq.beq_iff m m).1 refl) in ground arith

module _ (column : ColumnId) (i : Index) where
  abbrev serves : ℕ → IndexKey → Bool
  serves position key =
      key.column == column
      && (contains key.capabilities IndexKeyCapability.like
          && index_key_is_independently_usable i position)

  serves-IsPatternKey :
      (n : ℕ) (key : IndexKey)
      → get_elem? i.keys n ≡ some key
      → serves n key ≡ true
      → IsPatternKey column i n key
  unfolding index_key_is_independently_usable
  serves-IsPatternKey n key at h =
      let (named, able, used) = three h in
      record {
        stands_at = at;
        names = (nat_eq.beq_iff key.column column).0 named;
        pattern = contains-In key.capabilities IndexKeyCapability.like able;
        usable = elim (Bool-cases (eqb n 0)) [
          | inl e ↦ inl ((eqb_iff n 0).0 e)
          | inr e ↦ inr ((independent_method_iff i.access_method).0 (ground (arith, used, e)))
        ];
      }
    where
      three : {a b c : Bool} → (a && (b && c)) ≡ true → (a ≡ true) × (b ≡ true) × (c ≡ true)
      three {a} {b} {c} all = ground arith

  usable_position :
      (n : ℕ) → (n ≡ 0) ⊎ In i.access_method methods → index_key_is_independently_usable i n ≡ true
  unfolding index_key_is_independently_usable
  usable_position n (inl first) = ground (arith, (eqb_iff n 0).1 first)
  usable_position n (inr method) = ground (arith, (independent_method_iff i.access_method).1 method)

  IsPatternKey-serves : (n : ℕ) (key : IndexKey) → IsPatternKey column i n key → serves n key ≡ true
  IsPatternKey-serves n key k =
      rw
        (
          (nat_eq.beq_iff key.column column).1 k.names,
          In-contains key.capabilities IndexKeyCapability.like k.pattern,
        )
        (usable_position n k.usable)

module _ (catalog : Catalog) (id : ColumnId) where
  abbrev serving : Table → Bool
  serving t = any t.indexes (λ i. any_key (serves id i) 0 i.keys)

  kept :
      (o : Option Column) (c : Column)
      → and_then o (filter_like catalog) ≡ some c
      → (o ≡ some c) × (supports_like catalog c ≡ true)
  kept none c h = cc
  kept (some d) c h = elim (Bool-cases (supports_like catalog d)) [
    | inl e ↦ let same : d ≡ c = cc in (ap some same, rw (sym same) e)
    | inr e ↦ absurd (ground (arith, h, e))
  ]

  searched : column_is_searchable catalog id ≡ true → IsSearchable catalog id
  unfolding column_is_searchable column_by_id table_by_id type_for_column supports
  searched h =
      let (t, at_table, used) = is_some_and-some _ serving h in
      let (c, passed, has_table) = and_then-some _ (λ c. table_by_id catalog c.table) t at_table in
      let (has_column, like) = kept (column_by_id catalog id) c passed in
      let (d, typed, operators) = is_some_and-some (type_for_column catalog c.id) _ like in
      let (own, has_own, has_type) = and_then-some (column_by_id catalog c.id) _ d typed in
      let (i, has_index, keyed) = any-In t.indexes _ used in
      let (n, key, at, holds) = any_key-get_elem? (serves id i) 0 i.keys keyed in
      record {
        found = c;
        has_column = has_column;
        own = own;
        has_own = has_own;
        type_of = d;
        has_type = has_type;
        like = contains-In d.capabilities.operators ComparisonOp.like operators;
        table = t;
        has_table = has_table;
        i = i;
        has_index = has_index;
        position = n;
        key = key;
        pattern_key =
            serves-IsPatternKey id i n key at
              (sym (ap (λ m. serves id i m key) (zero_add n)) ∙ holds);
      }

  found_searchable : IsSearchable catalog id → column_is_searchable catalog id ≡ true
  unfolding column_is_searchable column_by_id table_by_id type_for_column supports
  found_searchable s =
      let keyed =
        get_elem?-any_key (serves id s.i) 0 s.i.keys s.position s.key s.pattern_key.stands_at (
          ap (λ m. serves id s.i m s.key) (zero_add s.position)
          ∙ IsPatternKey-serves id s.i s.position s.key s.pattern_key) in
      let used =
        In-any s.i s.table.indexes (λ i. any_key (serves id i) 0 i.keys) s.has_index keyed in
      let like : supports_like catalog s.found ≡ true =
        some-is_some_and (type_for_column catalog s.found.id) _ s.type_of
          (some-and_then (column_by_id catalog s.found.id) _ s.own s.type_of s.has_own s.has_type)
          (In-contains s.type_of.capabilities.operators ComparisonOp.like s.like) in
      rw (s.has_column, like, s.has_table) used

  -- A column is searchable exactly where its type has the operator `like` and its table has an index
  -- with a key that stands for the column, finds texts by a pattern, and is the first key or serves on
  -- its own under the access method of the index (gin, gist, spgist, brin or hash).
  pub column_is_searchable-IsSearchable :
      (column_is_searchable catalog id ≡ true) ↔ IsSearchable catalog id
  column_is_searchable-IsSearchable = (searched, found_searchable)
