-- ===== src/Metadata/Wire.antt =====
-- crates/dsql-metadata/src/lib.rs: how a value crosses the JSON and PostgreSQL boundary.
use dsql.Prelude.{String, Option, List, Eq, coded_eq, ℕ, zero, suc, ◌≡◌, refl}

pub data DefinitionKind : Type 0 where
  query fragment : DefinitionKind

-- `strum::AsRefStr` in snake case.
abbrev pub kind_text : DefinitionKind → String
kind_text DefinitionKind.query = "query"
kind_text DefinitionKind.fragment = "fragment"

pub data WireEncoding : Type 0 where
  uuid text timestamptz integer big_integer numeric float boolean json text_cast unsupported :
      WireEncoding

abbrev pub wire_code : WireEncoding → ℕ
wire_code WireEncoding.uuid = 0
wire_code WireEncoding.text = 1
wire_code WireEncoding.timestamptz = 2
wire_code WireEncoding.integer = 3
wire_code WireEncoding.big_integer = 4
wire_code WireEncoding.numeric = 5
wire_code WireEncoding.float = 6
wire_code WireEncoding.boolean = 7
wire_code WireEncoding.json = 8
wire_code WireEncoding.text_cast = 9
wire_code WireEncoding.unsupported = 10

abbrev pub wire_at : ℕ → WireEncoding
wire_at zero = WireEncoding.uuid
wire_at (suc zero) = WireEncoding.text
wire_at (suc (suc zero)) = WireEncoding.timestamptz
wire_at (suc (suc (suc zero))) = WireEncoding.integer
wire_at (suc (suc (suc (suc zero)))) = WireEncoding.big_integer
wire_at (suc (suc (suc (suc (suc zero))))) = WireEncoding.numeric
wire_at (suc (suc (suc (suc (suc (suc zero)))))) = WireEncoding.float
wire_at (suc (suc (suc (suc (suc (suc (suc zero))))))) = WireEncoding.boolean
wire_at (suc (suc (suc (suc (suc (suc (suc (suc zero)))))))) = WireEncoding.json
wire_at (suc (suc (suc (suc (suc (suc (suc (suc (suc zero))))))))) = WireEncoding.text_cast
wire_at _ = WireEncoding.unsupported

pub wire_at-wire_code : (w : WireEncoding) → wire_at (wire_code w) ≡ w
wire_at-wire_code WireEncoding.uuid = refl
wire_at-wire_code WireEncoding.text = refl
wire_at-wire_code WireEncoding.timestamptz = refl
wire_at-wire_code WireEncoding.integer = refl
wire_at-wire_code WireEncoding.big_integer = refl
wire_at-wire_code WireEncoding.numeric = refl
wire_at-wire_code WireEncoding.float = refl
wire_at-wire_code WireEncoding.boolean = refl
wire_at-wire_code WireEncoding.json = refl
wire_at-wire_code WireEncoding.text_cast = refl
wire_at-wire_code WireEncoding.unsupported = refl

instance abbrev pub wire_eq : Eq WireEncoding
wire_eq = coded_eq wire_code wire_at wire_at-wire_code

pub record ProviderTypeMetadata : Type 0 where
  pub schema : String
  pub name : String

pub record WireMetadata : Type 0 where
  pub encoding : WireEncoding
  pub provider_type : Option ProviderTypeMetadata

pub record ClosedValueMetadata : Type 0 where
  pub value : String
  pub label : Option String
  pub description : Option String

pub record ClosedValueSetMetadata : Type 0 where
  pub description : Option String
  pub values : List ClosedValueMetadata

pub record InputValidationMetadata : Type 0 where
  pub pattern : Option String
