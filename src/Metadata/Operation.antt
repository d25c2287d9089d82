-- ===== src/Metadata/Operation.antt =====
-- crates/dsql-metadata/src/lib.rs: the SQL of an operation and its bounded dynamic inputs.
use dsql.Prelude.{String, Bool, Option, List}
use dsql.Metadata.Wire.{
  DefinitionKind, WireMetadata, ClosedValueSetMetadata, InputValidationMetadata,
}
use dsql.Metadata.Input.{InputField}

pub record SqlParameterMetadata : Type 0 where
  pub path : String

pub record SqlVariantCaseMetadata : Type 0 where
  pub value : String
  pub text : String

pub record SqlVariantMetadata : Type 0 where
  pub path : String
  pub cases : List SqlVariantCaseMetadata
  pub null_text : Option String

-- The dialect has one value, and the compact text is not executed.
pub record SqlMetadata : Type 0 where
  pub text : String
  pub compact_text : String
  pub parameters : List SqlParameterMetadata
  pub variants : List SqlVariantMetadata

pub record DynamicInputField : Type 0 where
  pub key : String
  pub catalog_path : String
  pub data_type : String
  pub wire : WireMetadata
  pub validation : InputValidationMetadata
  pub closed_values : ClosedValueSetMetadata
  pub nullable : Bool
  pub access : String
  pub operators : List String
  pub directions : List String

pub record DynamicPredicateOperatorMetadata : Type 0 where
  pub name : String
  pub value_kind : String
  pub before_value : Option String
  pub after_value : Option String
  pub cases : List SqlVariantCaseMetadata

pub record DynamicInputSiteField : Type 0 where
  pub key : String
  pub operators : List DynamicPredicateOperatorMetadata
  pub directions : List SqlVariantCaseMetadata

pub record DynamicInputSite : Type 0 where
  pub marker : String
  pub identity_sql : String
  pub fields : List DynamicInputSiteField

pub record DynamicInputMetadata : Type 0 where
  pub path : String
  pub kind : String
  pub surface : String
  pub fields : List DynamicInputField
  pub sites : List DynamicInputSite

-- The fields that an execution reads.
pub record OperationMetadata : Type 0 where
  pub name : String
  pub kind : DefinitionKind
  pub sql : SqlMetadata
  pub params : List InputField
  pub input : List InputField
  pub context : List InputField
  pub dynamic_inputs : List DynamicInputMetadata
