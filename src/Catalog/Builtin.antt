-- ===== src/Catalog/Builtin.antt =====
-- crates/dsql-core/src/catalog/capabilities.rs: capabilities from the table of built-in types, and
-- the names of the types.
pub mod Names
pub mod Accepts
use dsql.Prelude.{
  String, Bool, Option, none, some, List, [], ◌∷◌, find, contains, ◌==◌, string_eq, if◌then◌else◌,
  ◌&&◌,
}
use dsql.Metadata.Wire.{WireEncoding}
use dsql.Catalog.Enums.{DataType, data_type_eq}
use dsql.Catalog.Capabilities.{
  TypeCapabilities, ProviderTypeFacts, supports_text_cast, apply_provider_comparisons,
}
use dsql.Catalog.Capabilities.Table.{
  BuiltinTypeDefinition, builtin_types, builtin_definition, aliases,
}

unfoldable pub builtin : DataType → TypeCapabilities
builtin data_type =
    let definition = builtin_definition data_type in
    record {
      name = definition.name;
      aliases = aliases definition;
      description = definition.description;
      wire = definition.wire;
      operators = definition.operators;
      orderable = definition.orderable;
      literals = record {
        kinds = definition.literal_kinds;
        validation = definition.literal_validation;
        description = definition.literal_description;
        pattern = none;
      };
      defaults = record {
        kinds = definition.default_kinds;
        validation = definition.default_validation;
        description = definition.default_description;
        pattern = none;
      };
      aggregates = definition.aggregates;
    }

-- A provider type that is not mapped but can be cast from text behaves as text.
unfoldable pub as_text_cast : TypeCapabilities → String → TypeCapabilities
unfolding builtin
as_text_cast self readable_type =
    let text = builtin DataType.text in
    record self {
      name = text.name;
      aliases = text.aliases;
      description = readable_type;
      wire = WireEncoding.text_cast;
      literals = text.literals;
      defaults = text.defaults;
    }

unfoldable pub provider : DataType → String → ProviderTypeFacts → List String → TypeCapabilities
unfolding builtin as_text_cast apply_provider_comparisons supports_text_cast
provider data_type readable_type facts operations =
    apply_provider_comparisons
      (if data_type == DataType.unknown && supports_text_cast facts
        then as_text_cast (builtin data_type) readable_type
        else builtin data_type)
      facts operations

unfoldable pub array_capabilities :
    String → Option ProviderTypeFacts → List String → TypeCapabilities
unfolding builtin apply_provider_comparisons
array_capabilities readable_type none operations = record (builtin DataType.unknown) {
  description = readable_type;
}
array_capabilities readable_type (some facts) operations =
    apply_provider_comparisons (record (builtin DataType.unknown) { description = readable_type })
      facts operations

unfoldable pub data_type_name : DataType → String
data_type_name data_type = (builtin_definition data_type).name

abbrev pub type_or_unknown : Option BuiltinTypeDefinition → DataType
type_or_unknown none = DataType.unknown
type_or_unknown (some definition) = definition.data_type

unfoldable pub data_type_from_database_name : String → DataType
data_type_from_database_name name =
    type_or_unknown (find builtin_types (λ definition. contains definition.database_names name))

abbrev pub type_of_definition : Option BuiltinTypeDefinition → Option DataType
type_of_definition none = none
type_of_definition (some definition) = some definition.data_type

unfoldable pub data_type_from_logical_name : String → Option DataType
data_type_from_logical_name name =
    type_of_definition (find builtin_types (λ definition. contains (aliases definition) name))
