-- ===== src/Catalog/Builtin/Names.antt =====
-- crates/dsql-core/src/catalog/capabilities.rs: the names of the built-in types.
use dsql.Prelude.{
  String, some, List, [], ◌∷◌, ◌≡◌, refl, sym, true, contains, Bool-cases, inl, inr, ◌==◌,
  string_eq, arith,
}
use dsql.Catalog.Enums.{DataType}
use dsql.Catalog.Capabilities.Table.{builtin_definition}
use dsql.Catalog.Builtin.{data_type_name, data_type_from_database_name, data_type_from_logical_name}

-- The canonical name of a built-in type resolves to that type.
pub data_type_from_logical_name-data_type_name :
    (t : DataType) → data_type_from_logical_name (data_type_name t) ≡ some t
unfolding data_type_from_logical_name data_type_name
data_type_from_logical_name-data_type_name DataType.uuid = refl
data_type_from_logical_name-data_type_name DataType.text = refl
data_type_from_logical_name-data_type_name DataType.timestamptz = refl
data_type_from_logical_name-data_type_name DataType.int = refl
data_type_from_logical_name-data_type_name DataType.big_int = refl
data_type_from_logical_name-data_type_name DataType.numeric = refl
data_type_from_logical_name-data_type_name DataType.float = refl
data_type_from_logical_name-data_type_name DataType.boolean = refl
data_type_from_logical_name-data_type_name DataType.json = refl
data_type_from_logical_name-data_type_name DataType.unknown = refl

-- Both lookups of a name find the type.
abbrev pub NamesType : DataType → String → Type 0
NamesType t name =
    (data_type_from_database_name name ≡ t) × (data_type_from_logical_name name ≡ some t)

abbrev AllName : DataType → List String → Type 0
AllName t [] = Unit {0}
AllName t (name ∷ names) = NamesType t name × AllName t names

each_names :
    (t : DataType) (names : List String) (name : String)
    → AllName t names
    → contains names name ≡ true
    → NamesType t name
each_names t [] name h e = cc
each_names t (first ∷ names) name h e = elim (Bool-cases (first == name)) [
  | inl same ↦ let one : first ≡ name = (string_eq.beq_iff _ _).0 same in rw (sym one) h.0
  | inr other ↦ each_names t names name h.1 (ground arith)
]

all_name : (t : DataType) → AllName t (builtin_definition t).database_names
unfolding data_type_from_logical_name data_type_from_database_name
all_name DataType.uuid = ((refl, refl), tt)
all_name DataType.text =
    ((refl, refl), ((refl, refl), ((refl, refl), ((refl, refl), ((refl, refl), tt)))))
all_name DataType.timestamptz = ((refl, refl), ((refl, refl), tt))
all_name DataType.int = ((refl, refl), ((refl, refl), ((refl, refl), ((refl, refl), tt))))
all_name DataType.big_int = ((refl, refl), ((refl, refl), tt))
all_name DataType.numeric = ((refl, refl), ((refl, refl), tt))
all_name DataType.float = ((refl, refl), ((refl, refl), ((refl, refl), ((refl, refl), tt))))
all_name DataType.boolean = ((refl, refl), ((refl, refl), tt))
all_name DataType.json = ((refl, refl), ((refl, refl), tt))
all_name DataType.unknown = tt

-- A PostgreSQL name of a built-in type resolves to that type, both as a database type and as a name
-- written in a policy.
pub database_name-resolves :
    (t : DataType) (name : String)
    → contains (builtin_definition t).database_names name ≡ true
    → (data_type_from_database_name name ≡ t) × (data_type_from_logical_name name ≡ some t)
database_name-resolves t name h =
    each_names t (builtin_definition t).database_names name (all_name t) h
