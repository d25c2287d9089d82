-- ===== src/Catalog/Lookup/Indexes.antt =====
-- crates/dsql-core/src/catalog/lookup.rs: what the predicates on indexes imply of each other.
use dsql.Prelude.{
  ℕ, suc, Bool, true, ◌||◌, Option, none, some, List, [], ◌∷◌, any, all, contains, ◌≡◌, refl, arith,
  nat_eq,
}
use dsql.Execute.Scalars.{is_some_and, and_then}
use dsql.Catalog.Enums.{key_capability_eq}
use dsql.Catalog.Types.{Catalog, Table, TableId, ColumnId, Index, IndexKey}
use dsql.Catalog.Lookup.{
  table_by_id, column_by_id, column_set_covers, index_covered, column_set_is_unique, any_key,
  any_index, column_participates_in_index, column_is_independently_indexed,
}

any_mono {ℓ} :
    {A : Type ℓ} (xs : List A) (p q : A → Bool)
    → ((x : A) → p x ≡ true → q x ≡ true)
    → any xs p ≡ true
    → any xs q ≡ true
any_mono [] p q h k = cc
any_mono (x ∷ xs) p q h k = ground (arith, h x, any_mono xs p q h)

all_mono {ℓ} :
    {A : Type ℓ} (xs : List A) (p q : A → Bool)
    → ((x : A) → p x ≡ true → q x ≡ true)
    → all xs p ≡ true
    → all xs q ≡ true
all_mono [] p q h k = refl
all_mono (x ∷ xs) p q h k = ground (arith, h x, all_mono xs p q h)

is_some_and_mono {ℓ} :
    {A : Type ℓ} (o : Option A) (p q : A → Bool)
    → ((a : A) → p a ≡ true → q a ≡ true)
    → is_some_and o p ≡ true
    → is_some_and o q ≡ true
is_some_and_mono none p q h k = k
is_some_and_mono (some a) p q h k = h a k

module _ (columns more : List ColumnId)
    (wider : (c : ColumnId) → contains columns c ≡ true → contains more c ≡ true) where
  covers_mono :
      (unique : List ColumnId)
      → column_set_covers columns unique ≡ true
      → column_set_covers more unique ≡ true
  unfolding column_set_covers
  covers_mono unique h =
      ground (arith, all_mono unique (λ c. contains columns c) (λ c. contains more c) wider)

  covered_mono :
      (index : Index) → index_covered columns index ≡ true → index_covered more index ≡ true
  covered_mono index h = ground (
    arith,
    all_mono index.keys (λ k. contains columns k.column) (λ k. contains more k.column)
        (λ k. wider k.column),
  )

  table_mono :
      (t : Table)
      → (any t.unique_constraints (column_set_covers columns)
          || any t.indexes (index_covered columns))
        ≡ true
      → (any t.unique_constraints (column_set_covers more) || any t.indexes (index_covered more))
        ≡ true
  table_mono t h = ground (
    arith,
    any_mono t.unique_constraints (column_set_covers columns) (column_set_covers more) covers_mono,
    any_mono t.indexes (index_covered columns) (index_covered more) covered_mono,
  )

-- A set of columns that holds a unique set is unique: more columns never lose a proof of uniqueness.
pub column_set_is_unique-superset :
    (catalog : Catalog) (id : TableId) (columns more : List ColumnId)
    → ((c : ColumnId) → contains columns c ≡ true → contains more c ≡ true)
    → column_set_is_unique catalog id columns ≡ true
    → column_set_is_unique catalog id more ≡ true
unfolding column_set_is_unique
column_set_is_unique-superset catalog id columns more wider h =
    is_some_and_mono (table_by_id catalog id) _ _ (λ t. table_mono columns more wider t) h

any_key_mono :
    (keys : List IndexKey) (position : ℕ) (p q : ℕ → IndexKey → Bool)
    → ((n : ℕ) (k : IndexKey) → p n k ≡ true → q n k ≡ true)
    → any_key p position keys ≡ true
    → any_key q position keys ≡ true
any_key_mono [] position p q h k = k
any_key_mono (x ∷ keys) position p q h k =
    ground (arith, h position x, any_key_mono keys (suc position) p q h)

any_index_mono :
    (catalog : Catalog) (column : ColumnId) (p q : Index → ℕ → IndexKey → Bool)
    → ((i : Index) (n : ℕ) (k : IndexKey) → p i n k ≡ true → q i n k ≡ true)
    → any_index catalog column p ≡ true
    → any_index catalog column q ≡ true
any_index_mono catalog column p q h k =
    is_some_and_mono (and_then (column_by_id catalog column) (λ c. table_by_id catalog c.table)) _ _
      (λ t. any_mono t.indexes _ _ (λ i. any_key_mono i.keys 0 (p i) (q i) (h i))) k

-- A column that an index serves on its own stands in an index.
column_is_independently_indexed-participates :
    (catalog : Catalog) (column : ColumnId)
    → column_is_independently_indexed catalog column ≡ true
    → column_participates_in_index catalog column ≡ true
unfolding column_is_independently_indexed column_participates_in_index
column_is_independently_indexed-participates catalog column h =
    any_index_mono catalog column _ _ (λ i n k e. ground arith) h
