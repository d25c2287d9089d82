-- ===== src/Catalog/Lookup/Tables.antt =====
-- crates/dsql-core/src/catalog/lookup.rs, `resolve_table_ref_for`: the answers and what they mean.
use dsql.Prelude.{
  String, Bool, true, false, ◌&&◌, Option, none, some, List, [], ◌∷◌, map, keep, In, keep-In,
  In-keep, find-In, find-eq-none, map-In, ◌≡◌, refl, sym, inl, inr, ◌⊎◌, arith, Option-cases,
  Bool-cases, ◌==◌, string_eq, ap,
}
use dsql.Catalog.Types.{Table, TableKey, Catalog, TableResolution, TableRef}
use dsql.Catalog.Lookup.{
  table, named, resolution, resolve_in_schema, resolve_table_ref_for, insert_key, sort_keys, key_le,
}

abbrev in_schema : Option String → Table → Bool
in_schema none t = true
in_schema (some schema) t = t.schema == schema

abbrev matches_in : Option String → TableRef → Table → Bool
matches_in schema r t = t.visible && (in_schema schema t && t.name == r.name)

-- A table is meant by a reference: it is visible, has the name, and is in the schema that is given.
abbrev pub matches : TableRef → Table → Bool
matches r t = matches_in r.schema r t

from_found : Table → TableResolution → Table
from_found d (TableResolution.found t) = t
from_found d _ = d

found-injective : {t u : Table} → TableResolution.found t ≡ TableResolution.found u → t ≡ u
unfolding from_found
found-injective {t} e = ap (from_found t) e

from_ambiguous : List TableKey → TableResolution → List TableKey
from_ambiguous d (TableResolution.ambiguous _ keys) = keys
from_ambiguous d _ = d

named-matches : (r : TableRef) (t : Table) → named r t ≡ true → matches_in none r t ≡ true
named-matches r t h = h

resolution-found :
    (r : TableRef) (ts : List Table) {t : Table}
    → resolution r ts ≡ TableResolution.found t
    → ts ≡ t ∷ []
resolution-found r [] h = cc
resolution-found r (u ∷ []) h = ap (λ x. x ∷ []) (found-injective h)
resolution-found r (u ∷ v ∷ ts) h = cc

resolution-missing :
    (r : TableRef) (ts : List Table) {s : String}
    → resolution r ts ≡ TableResolution.not_found s
    → ts ≡ []
resolution-missing r [] h = refl
resolution-missing r (u ∷ []) h = cc
resolution-missing r (u ∷ v ∷ ts) h = cc

resolve_in_schema-found :
    (c : Catalog) (r : TableRef) (schema : Option String) (t : Table)
    → resolve_in_schema c r schema ≡ TableResolution.found t
    → In t c.tables × (matches_in schema r t ≡ true)
unfolding resolve_in_schema table
resolve_in_schema-found c r none t h =
    keep-In c.tables (named r) t (rw (resolution-found r _ h) (inl refl))
resolve_in_schema-found c r (some schema) t h = elim (Option-cases (table c schema r.name)) [
  | inl e ↦ absurd (ground arith)
  | inr (u, e) ↦
      let same : u ≡ t = ground arith in
      rw (sym same) (find-In c.tables (matches_in (some schema) r) e)
]

-- A table that a reference is resolved to is a visible table of the catalog that has the name, and
-- the schema if one was written: a table that is hidden is never resolved.
pub resolve_table_ref_for-found :
    (c : Catalog) (r : TableRef) (t : Table)
    → resolve_table_ref_for c r ≡ TableResolution.found t
    → In t c.tables × (matches r t ≡ true)
unfolding resolve_table_ref_for
resolve_table_ref_for-found c r t h = resolve_in_schema-found c r r.schema t h

resolve_in_schema-not_found :
    (c : Catalog) (r : TableRef) (schema : Option String) (text : String) (t : Table)
    → resolve_in_schema c r schema ≡ TableResolution.not_found text
    → In t c.tables
    → matches_in schema r t ≡ false
unfolding resolve_in_schema table
resolve_in_schema-not_found c r none text t h i = elim (Bool-cases (named r t)) [
  | inr e ↦ e
  | inl e ↦
      let none_left : keep c.tables (named r) ≡ [] = resolution-missing r _ h in
      absurd (rw none_left at (In-keep c.tables (named r) t i e))
]
resolve_in_schema-not_found c r (some schema) text t h i =
    elim (Option-cases (table c schema r.name)) [
      | inl e ↦ find-eq-none c.tables (matches_in (some schema) r) t e i
      | inr (u, e) ↦ absurd (ground arith)
    ]

-- A reference is not found only if no visible table has the name, and the schema if one was written.
pub resolve_table_ref_for-not_found :
    (c : Catalog) (r : TableRef) (text : String) (t : Table)
    → resolve_table_ref_for c r ≡ TableResolution.not_found text
    → In t c.tables
    → matches r t ≡ false
unfolding resolve_table_ref_for
resolve_table_ref_for-not_found c r text t h i = resolve_in_schema-not_found c r r.schema text t h i

resolve_in_schema_unique :
    (c : Catalog) (r : TableRef) (schema : Option String) (t u : Table)
    → schema ≡ none
    → resolve_in_schema c r schema ≡ TableResolution.found t
    → In u c.tables
    → matches_in schema r u ≡ true
    → u ≡ t
unfolding resolve_in_schema
resolve_in_schema_unique c r (some schema) t u e h i m = cc
resolve_in_schema_unique c r none t u e h i m =
    let only : keep c.tables (named r) ≡ t ∷ [] = resolution-found r _ h in
    elim (rw only at (In-keep c.tables (named r) u i m)) [ inl same ↦ same | inr j ↦ absurd j ]

-- A reference without a schema is resolved only if one table is meant: any visible table with the
-- name is the one that was found.
pub resolve_table_ref_for_unique :
    (c : Catalog) (r : TableRef) (t u : Table)
    → r.schema ≡ none
    → resolve_table_ref_for c r ≡ TableResolution.found t
    → In u c.tables
    → matches r u ≡ true
    → u ≡ t
unfolding resolve_table_ref_for
resolve_table_ref_for_unique c r t u e h i m = resolve_in_schema_unique c r r.schema t u e h i m

insert-In :
    (k : TableKey) (keys : List TableKey) (j : TableKey)
    → In j (insert_key k keys)
    → (j ≡ k) ⊎ In j keys
insert-In k [] j i = i
insert-In k (l ∷ keys) j i = elim (Bool-cases (key_le k l)) [
  | inl e ↦ rw e at i
  | inr e ↦
      let split : (j ≡ l) ⊎ In j (insert_key k keys) = rw e at i in
      elim split [
        | inl same ↦ inr (inl same)
        | inr later ↦ elim (insert-In k keys j later) [
          | inl same ↦ inl same
          | inr rest ↦ inr (inr rest)
        ]
      ]
]

sort-In : (keys : List TableKey) (j : TableKey) → In j (sort_keys keys) → In j keys
sort-In [] j i = i
sort-In (k ∷ keys) j i = elim (insert-In k (sort_keys keys) j i) [
  | inl same ↦ inl same
  | inr rest ↦ inr (sort-In keys j rest)
]

resolution-ambiguous :
    (r : TableRef) (ts : List Table) {text : String} {keys : List TableKey}
    → resolution r ts ≡ TableResolution.ambiguous text keys
    → keys ≡ sort_keys (map (λ t. t.key) ts)
unfolding from_ambiguous
resolution-ambiguous r [] h = cc
resolution-ambiguous r (u ∷ []) h = cc
resolution-ambiguous r (u ∷ v ∷ ts) {keys} h = ap (from_ambiguous keys) (sym h)

resolve_in_schema-ambiguous :
    (c : Catalog) (r : TableRef) (schema : Option String) (text : String) (keys : List TableKey)
    (k : TableKey)
    → resolve_in_schema c r schema ≡ TableResolution.ambiguous text keys
    → In k keys
    → (schema ≡ none) × (t : Table) × In t c.tables × (matches_in none r t ≡ true) × (k ≡ t.key)
unfolding resolve_in_schema
resolve_in_schema-ambiguous c r (some schema) text keys k h i =
    elim (Option-cases (table c schema r.name)) [
      | inl e ↦ absurd (ground arith)
      | inr (u, e) ↦ absurd (ground arith)
    ]
resolve_in_schema-ambiguous c r none text keys k h i =
    let same = resolution-ambiguous r (keep c.tables (named r)) h in
    let (t, j, e) =
      map-In (λ (t : Table). t.key) (keep c.tables (named r)) k (sort-In _ k (rw same at i)) in
    let (l, m) = keep-In c.tables (named r) t j in (refl, t, l, m, e)

-- An ambiguous reference has no schema, and each of its candidates is the key of a visible table of
-- the catalog with the name.
pub resolve_table_ref_for-ambiguous :
    (c : Catalog) (r : TableRef) (text : String) (keys : List TableKey) (k : TableKey)
    → resolve_table_ref_for c r ≡ TableResolution.ambiguous text keys
    → In k keys
    → (r.schema ≡ none)
      × (t : Table) × In t c.tables
      × (t.visible ≡ true)
      × (t.name ≡ r.name)
      × (k ≡ t.key)
unfolding resolve_table_ref_for
resolve_table_ref_for-ambiguous c r text keys k h i =
    let (e, t, j, m, same) = resolve_in_schema-ambiguous c r r.schema text keys k h i in
    (e, t, j, ground arith, (string_eq.beq_iff _ _).0 (ground arith), same)
