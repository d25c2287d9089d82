-- ===== src/Catalog/Capabilities/Table.antt =====
-- crates/dsql-core/src/catalog/capabilities.rs: the table of the built-in types.
use dsql.Prelude.{String, Bool, true, false, not, none, some, List, [], ◌∷◌, keep, ◌==◌, string_eq}
use dsql.Metadata.Wire.{WireEncoding}
use dsql.Catalog.Enums.{DataType, LiteralKind, ComparisonOp}
use dsql.Catalog.Capabilities.{ScalarValidation, AggregateCapabilities}

pub record BuiltinTypeDefinition : Type 0 where
  pub data_type : DataType
  pub name : String
  pub database_names : List String
  pub description : String
  pub wire : WireEncoding
  pub operators : List ComparisonOp
  pub orderable : Bool
  pub literal_kinds : List LiteralKind
  pub literal_validation : ScalarValidation
  pub literal_description : String
  pub default_kinds : List LiteralKind
  pub default_validation : ScalarValidation
  pub default_description : String
  pub aggregates : AggregateCapabilities

abbrev equality : List ComparisonOp
equality = ComparisonOp.eq ∷ ComparisonOp.ne ∷ []

abbrev ordered : List ComparisonOp
ordered =
    ComparisonOp.eq ∷ ComparisonOp.ne ∷ ComparisonOp.gt ∷ ComparisonOp.ge ∷ ComparisonOp.lt
    ∷ ComparisonOp.le ∷ []

abbrev textual : List ComparisonOp
textual = ComparisonOp.eq ∷ ComparisonOp.ne ∷ ComparisonOp.like ∷ []

abbrev strings : List LiteralKind
strings = LiteralKind.string ∷ []

abbrev numbers : List LiteralKind
numbers = LiteralKind.number ∷ []

abbrev booleans : List LiteralKind
booleans = LiteralKind.boolean ∷ []

abbrev nothing : List LiteralKind
nothing = []

abbrev no_aggregates : AggregateCapabilities
no_aggregates = record { minimum = false; maximum = false; sum = none; average = none }

abbrev min_max : AggregateCapabilities
min_max = record { minimum = true; maximum = true; sum = none; average = none }

abbrev uuid_definition : BuiltinTypeDefinition
uuid_definition = record {
  data_type = DataType.uuid;
  name = "uuid";
  database_names = "uuid" ∷ [];
  description = "UUID";
  wire = WireEncoding.uuid;
  operators = equality;
  orderable = true;
  literal_kinds = strings;
  literal_validation = ScalarValidation.any_value;
  literal_description = "string";
  default_kinds = strings;
  default_validation = ScalarValidation.any_value;
  default_description = "string";
  aggregates = no_aggregates;
}

abbrev text_definition : BuiltinTypeDefinition
text_definition = record {
  data_type = DataType.text;
  name = "text";
  database_names = "text" ∷ "varchar" ∷ "bpchar" ∷ "char" ∷ "name" ∷ [];
  description = "text";
  wire = WireEncoding.text;
  operators = textual;
  orderable = true;
  literal_kinds = strings;
  literal_validation = ScalarValidation.any_value;
  literal_description = "string";
  default_kinds = strings;
  default_validation = ScalarValidation.any_value;
  default_description = "string";
  aggregates = min_max;
}

abbrev timestamptz_definition : BuiltinTypeDefinition
timestamptz_definition = record {
  data_type = DataType.timestamptz;
  name = "timestamptz";
  database_names = "timestamptz" ∷ "timestamp with time zone" ∷ [];
  description = "timestamp with time zone";
  wire = WireEncoding.timestamptz;
  operators = ordered;
  orderable = true;
  literal_kinds = strings;
  literal_validation = ScalarValidation.any_value;
  literal_description = "string";
  default_kinds = strings;
  default_validation = ScalarValidation.any_value;
  default_description = "string";
  aggregates = min_max;
}

abbrev int_definition : BuiltinTypeDefinition
int_definition = record {
  data_type = DataType.int;
  name = "int";
  database_names = "int2" ∷ "int4" ∷ "integer" ∷ "smallint" ∷ [];
  description = "integer";
  wire = WireEncoding.integer;
  operators = ordered;
  orderable = true;
  literal_kinds = numbers;
  literal_validation = ScalarValidation.integer;
  literal_description = "number";
  default_kinds = numbers;
  default_validation = ScalarValidation.safe_integer;
  default_description = "safe integer";
  aggregates = record {
    minimum = true;
    maximum = true;
    sum = some DataType.numeric;
    average = some DataType.numeric;
  };
}

abbrev big_int_definition : BuiltinTypeDefinition
big_int_definition = record {
  data_type = DataType.big_int;
  name = "bigint";
  database_names = "int8" ∷ "bigint" ∷ [];
  description = "64-bit integer";
  wire = WireEncoding.big_integer;
  operators = ordered;
  orderable = true;
  literal_kinds = numbers;
  literal_validation = ScalarValidation.integer;
  literal_description = "integer";
  default_kinds = strings;
  default_validation = ScalarValidation.integer;
  default_description = "signed 64-bit integer string";
  aggregates = record {
    minimum = true;
    maximum = true;
    sum = some DataType.numeric;
    average = some DataType.numeric;
  };
}

abbrev numeric_definition : BuiltinTypeDefinition
numeric_definition = record {
  data_type = DataType.numeric;
  name = "numeric";
  database_names = "numeric" ∷ "decimal" ∷ [];
  description = "exact numeric";
  wire = WireEncoding.numeric;
  operators = ordered;
  orderable = true;
  literal_kinds = numbers;
  literal_validation = ScalarValidation.any_value;
  literal_description = "number";
  default_kinds = numbers;
  default_validation = ScalarValidation.any_value;
  default_description = "number";
  aggregates = record {
    minimum = false;
    maximum = false;
    sum = some DataType.numeric;
    average = some DataType.numeric;
  };
}

abbrev float_definition : BuiltinTypeDefinition
float_definition = record {
  data_type = DataType.float;
  name = "float";
  database_names = "float4" ∷ "real" ∷ "float8" ∷ "double precision" ∷ [];
  description = "floating-point number";
  wire = WireEncoding.float;
  operators = ordered;
  orderable = true;
  literal_kinds = numbers;
  literal_validation = ScalarValidation.any_value;
  literal_description = "number";
  default_kinds = numbers;
  default_validation = ScalarValidation.finite_float;
  default_description = "finite number";
  aggregates = record {
    minimum = false;
    maximum = false;
    sum = some DataType.float;
    average = some DataType.float;
  };
}

abbrev boolean_definition : BuiltinTypeDefinition
boolean_definition = record {
  data_type = DataType.boolean;
  name = "boolean";
  database_names = "bool" ∷ "boolean" ∷ [];
  description = "boolean";
  wire = WireEncoding.boolean;
  operators = equality;
  orderable = true;
  literal_kinds = booleans;
  literal_validation = ScalarValidation.any_value;
  literal_description = "boolean";
  default_kinds = booleans;
  default_validation = ScalarValidation.any_value;
  default_description = "boolean";
  aggregates = no_aggregates;
}

abbrev json_definition : BuiltinTypeDefinition
json_definition = record {
  data_type = DataType.json;
  name = "json";
  database_names = "json" ∷ "jsonb" ∷ [];
  description = "JSON";
  wire = WireEncoding.json;
  operators = equality;
  orderable = true;
  literal_kinds = strings;
  literal_validation = ScalarValidation.any_value;
  literal_description = "string";
  default_kinds = nothing;
  default_validation = ScalarValidation.any_value;
  default_description = "value";
  aggregates = no_aggregates;
}

abbrev unknown_definition : BuiltinTypeDefinition
unknown_definition = record {
  data_type = DataType.unknown;
  name = "unknown";
  database_names = [];
  description = "unmapped provider type";
  wire = WireEncoding.unsupported;
  operators = equality;
  orderable = true;
  literal_kinds = nothing;
  literal_validation = ScalarValidation.any_value;
  literal_description = "value";
  default_kinds = nothing;
  default_validation = ScalarValidation.any_value;
  default_description = "value";
  aggregates = no_aggregates;
}

-- `BUILTIN_TYPES`
abbrev pub builtin_types : List BuiltinTypeDefinition
builtin_types =
    uuid_definition ∷ text_definition ∷ timestamptz_definition ∷ int_definition ∷ big_int_definition
    ∷ numeric_definition ∷ float_definition ∷ boolean_definition ∷ json_definition
    ∷ unknown_definition ∷ []

abbrev pub builtin_definition : DataType → BuiltinTypeDefinition
builtin_definition DataType.uuid = uuid_definition
builtin_definition DataType.text = text_definition
builtin_definition DataType.timestamptz = timestamptz_definition
builtin_definition DataType.int = int_definition
builtin_definition DataType.big_int = big_int_definition
builtin_definition DataType.numeric = numeric_definition
builtin_definition DataType.float = float_definition
builtin_definition DataType.boolean = boolean_definition
builtin_definition DataType.json = json_definition
builtin_definition DataType.unknown = unknown_definition

-- The canonical name, then the database names that differ from it.
abbrev pub aliases : BuiltinTypeDefinition → List String
aliases self = self.name ∷ keep self.database_names (λ alias. not (alias == self.name))
