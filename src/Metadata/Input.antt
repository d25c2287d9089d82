-- ===== src/Metadata/Input.antt =====
-- crates/dsql-metadata/src/lib.rs: the declared inputs and their defaults.
use dsql.Prelude.{String, Bool, Option}
use dsql.Metadata.Wire.{WireMetadata, ClosedValueSetMetadata, InputValidationMetadata}

-- A default holds an optional list of defaults: `items` is `absent` or a list of them.
mutual
  pub data InputDefault : Type 0 where
    input_default :
        (kind : String) (value : Option String) (boolean : Option Bool) (items : DefaultItems)
        → InputDefault

  pub data DefaultItems : Type 0 where
    absent : DefaultItems
    present : Defaults → DefaultItems

  pub data Defaults : Type 0 where
    nil : Defaults
    cons : InputDefault → Defaults → Defaults

abbrev pub default_kind : InputDefault → String
default_kind (input_default kind _ _ _) = kind

pub record InputField : Type 0 where
  pub path : String
  pub data_type : String
  pub wire : WireMetadata
  pub validation : InputValidationMetadata
  pub collection : Option Bool
  pub closed_values : ClosedValueSetMetadata
  pub required : Bool
  pub nullable : Bool
  pub default : Option InputDefault
