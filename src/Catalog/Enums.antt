-- ===== src/Catalog/Enums.antt =====
-- crates/dsql-core/src: the enumerations of the catalog, with their derived equality.
use dsql.Prelude.{ℕ, zero, suc, String, ◌≡◌, refl, Eq, coded_eq}

-- catalog/types.rs
pub data DataType : Type 0 where
  uuid text timestamptz int big_int numeric float boolean json unknown : DataType

abbrev pub data_type_code : DataType → ℕ
data_type_code DataType.uuid = 0
data_type_code DataType.text = 1
data_type_code DataType.timestamptz = 2
data_type_code DataType.int = 3
data_type_code DataType.big_int = 4
data_type_code DataType.numeric = 5
data_type_code DataType.float = 6
data_type_code DataType.boolean = 7
data_type_code DataType.json = 8
data_type_code DataType.unknown = 9

abbrev pub data_type_at : ℕ → DataType
data_type_at zero = DataType.uuid
data_type_at (suc zero) = DataType.text
data_type_at (suc (suc zero)) = DataType.timestamptz
data_type_at (suc (suc (suc zero))) = DataType.int
data_type_at (suc (suc (suc (suc zero)))) = DataType.big_int
data_type_at (suc (suc (suc (suc (suc zero))))) = DataType.numeric
data_type_at (suc (suc (suc (suc (suc (suc zero)))))) = DataType.float
data_type_at (suc (suc (suc (suc (suc (suc (suc zero))))))) = DataType.boolean
data_type_at (suc (suc (suc (suc (suc (suc (suc (suc zero)))))))) = DataType.json
data_type_at _ = DataType.unknown

pub data_type_at-data_type_code : (x : DataType) → data_type_at (data_type_code x) ≡ x
data_type_at-data_type_code DataType.uuid = refl
data_type_at-data_type_code DataType.text = refl
data_type_at-data_type_code DataType.timestamptz = refl
data_type_at-data_type_code DataType.int = refl
data_type_at-data_type_code DataType.big_int = refl
data_type_at-data_type_code DataType.numeric = refl
data_type_at-data_type_code DataType.float = refl
data_type_at-data_type_code DataType.boolean = refl
data_type_at-data_type_code DataType.json = refl
data_type_at-data_type_code DataType.unknown = refl

instance abbrev pub data_type_eq : Eq DataType
data_type_eq = coded_eq data_type_code data_type_at data_type_at-data_type_code

pub data LiteralKind : Type 0 where
  string number boolean null : LiteralKind

abbrev pub literal_kind_code : LiteralKind → ℕ
literal_kind_code LiteralKind.string = 0
literal_kind_code LiteralKind.number = 1
literal_kind_code LiteralKind.boolean = 2
literal_kind_code LiteralKind.null = 3

abbrev pub literal_kind_at : ℕ → LiteralKind
literal_kind_at zero = LiteralKind.string
literal_kind_at (suc zero) = LiteralKind.number
literal_kind_at (suc (suc zero)) = LiteralKind.boolean
literal_kind_at _ = LiteralKind.null

pub literal_kind_at-literal_kind_code :
    (x : LiteralKind) → literal_kind_at (literal_kind_code x) ≡ x
literal_kind_at-literal_kind_code LiteralKind.string = refl
literal_kind_at-literal_kind_code LiteralKind.number = refl
literal_kind_at-literal_kind_code LiteralKind.boolean = refl
literal_kind_at-literal_kind_code LiteralKind.null = refl

instance abbrev pub literal_kind_eq : Eq LiteralKind
literal_kind_eq = coded_eq literal_kind_code literal_kind_at literal_kind_at-literal_kind_code

abbrev pub literal_text : LiteralKind → String
literal_text LiteralKind.string = "string"
literal_text LiteralKind.number = "number"
literal_text LiteralKind.boolean = "boolean"
literal_text LiteralKind.null = "null"

pub data IndexKeyCapability : Type 0 where
  equality range like : IndexKeyCapability

abbrev pub key_capability_code : IndexKeyCapability → ℕ
key_capability_code IndexKeyCapability.equality = 0
key_capability_code IndexKeyCapability.range = 1
key_capability_code IndexKeyCapability.like = 2

abbrev pub key_capability_at : ℕ → IndexKeyCapability
key_capability_at zero = IndexKeyCapability.equality
key_capability_at (suc zero) = IndexKeyCapability.range
key_capability_at _ = IndexKeyCapability.like

pub key_capability_at-key_capability_code :
    (x : IndexKeyCapability) → key_capability_at (key_capability_code x) ≡ x
key_capability_at-key_capability_code IndexKeyCapability.equality = refl
key_capability_at-key_capability_code IndexKeyCapability.range = refl
key_capability_at-key_capability_code IndexKeyCapability.like = refl

instance abbrev pub key_capability_eq : Eq IndexKeyCapability
key_capability_eq =
    coded_eq key_capability_code key_capability_at key_capability_at-key_capability_code

-- entities/expression.rs
pub data ComparisonOp : Type 0 where
  eq ne gt ge lt le like : ComparisonOp

abbrev pub comparison_code : ComparisonOp → ℕ
comparison_code ComparisonOp.eq = 0
comparison_code ComparisonOp.ne = 1
comparison_code ComparisonOp.gt = 2
comparison_code ComparisonOp.ge = 3
comparison_code ComparisonOp.lt = 4
comparison_code ComparisonOp.le = 5
comparison_code ComparisonOp.like = 6

abbrev pub comparison_at : ℕ → ComparisonOp
comparison_at zero = ComparisonOp.eq
comparison_at (suc zero) = ComparisonOp.ne
comparison_at (suc (suc zero)) = ComparisonOp.gt
comparison_at (suc (suc (suc zero))) = ComparisonOp.ge
comparison_at (suc (suc (suc (suc zero)))) = ComparisonOp.lt
comparison_at (suc (suc (suc (suc (suc zero))))) = ComparisonOp.le
comparison_at _ = ComparisonOp.like

pub comparison_at-comparison_code : (x : ComparisonOp) → comparison_at (comparison_code x) ≡ x
comparison_at-comparison_code ComparisonOp.eq = refl
comparison_at-comparison_code ComparisonOp.ne = refl
comparison_at-comparison_code ComparisonOp.gt = refl
comparison_at-comparison_code ComparisonOp.ge = refl
comparison_at-comparison_code ComparisonOp.lt = refl
comparison_at-comparison_code ComparisonOp.le = refl
comparison_at-comparison_code ComparisonOp.like = refl

instance abbrev pub comparison_eq : Eq ComparisonOp
comparison_eq = coded_eq comparison_code comparison_at comparison_at-comparison_code

-- entities/aggregate.rs
pub data AggregateFunction : Type 0 where
  count exists min max sum avg : AggregateFunction
