-- ===== src/Catalog/Builtin/Accepts.antt =====
-- crates/dsql-core/src/catalog/capabilities.rs: the literals and the defaults of the built-in types.
use dsql.Prelude.{String, true, ◌≡◌, ◌≢◌, refl, arith}
use dsql.Catalog.Enums.{DataType, LiteralKind, literal_kind_eq}
use dsql.Catalog.Capabilities.{Parsers, accepts, validates, ScalarValidation}
use dsql.Catalog.Builtin.{builtin}

safe_parses :
    (p : Parsers) (v : String)
    → validates p ScalarValidation.safe_integer v ≡ true
    → validates p ScalarValidation.integer v ≡ true
unfolding validates
safe_parses p v h = ground arith

-- A default that a built-in type accepts is a literal that it accepts, but for 64-bit integers, whose
-- defaults are texts and whose literals are numbers.
pub default-literal :
    (p : Parsers) (t : DataType) (kind : LiteralKind) (value : String)
    → t ≢ DataType.big_int
    → accepts p (builtin t).defaults kind value ≡ true
    → accepts p (builtin t).literals kind value ≡ true
unfolding accepts builtin
default-literal p DataType.uuid kind value n h = h
default-literal p DataType.text kind value n h = h
default-literal p DataType.timestamptz kind value n h = h
default-literal p DataType.int kind value n h = ground (arith, safe_parses p value)
default-literal p DataType.big_int kind value n h = absurd (n refl)
default-literal p DataType.numeric kind value n h = h
default-literal p DataType.float kind value n h = ground arith
default-literal p DataType.boolean kind value n h = h
default-literal p DataType.json kind value n h = cc
default-literal p DataType.unknown kind value n h = h
