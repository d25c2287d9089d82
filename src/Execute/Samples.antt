-- ===== src/Execute/Samples.antt =====
-- An operation for the tests: one input and one dynamic predicate over a table of people.
use dsql.Prelude.{true, false, none, some, [], ◌∷◌}
use dsql.Prelude.Int.{pos}
use dsql.Metadata.Wire.{
  DefinitionKind, WireEncoding, WireMetadata, ClosedValueSetMetadata, InputValidationMetadata,
}
use dsql.Metadata.Input.{InputField}
use dsql.Metadata.Operation.{
  DynamicInputField, DynamicPredicateOperatorMetadata, DynamicInputSite, DynamicInputMetadata,
  OperationMetadata,
}
use dsql.Execute.Sample.{Json, num, obj, end, field, sample}
use dsql.Execute.Inputs.{ExecutionBindings}

abbrev pub integer_wire : WireMetadata
integer_wire = record { encoding = WireEncoding.integer; provider_type = none }

abbrev pub open_values : ClosedValueSetMetadata
open_values = record { description = none; values = [] }

abbrev pub any_text : InputValidationMetadata
any_text = record { pattern = none }

abbrev pub age : DynamicInputField
age = record {
  key = "age";
  catalog_path = "public.people.age";
  data_type = "int";
  wire = integer_wire;
  validation = any_text;
  closed_values = open_values;
  nullable = false;
  access = "read";
  operators = "gt" ∷ [];
  directions = [];
}

abbrev pub gt : DynamicPredicateOperatorMetadata
gt = record {
  name = "gt";
  value_kind = "scalar";
  before_value = some "t.age > ";
  after_value = none;
  cases = [];
}

abbrev pub site : DynamicInputSite
site = record {
  marker = "/*where*/";
  identity_sql = "TRUE";
  fields = record { key = "age"; operators = gt ∷ []; directions = [] } ∷ [];
}

abbrev pub filter : DynamicInputMetadata
filter = record {
  path = "filter";
  kind = "predicate";
  surface = "where";
  fields = age ∷ [];
  sites = site ∷ site ∷ [];
}

-- `{ "age": { "gt": 30 } }`
abbrev pub over_thirty : Json
over_thirty = obj (field "age" (obj (field "gt" (num (pos 30)) end)) end)

abbrev pub limit_field : InputField
limit_field = record {
  path = "limit";
  data_type = "int";
  wire = integer_wire;
  validation = any_text;
  collection = none;
  closed_values = open_values;
  required = true;
  nullable = false;
  default = none;
}

abbrev pub tenant_field : InputField
tenant_field = record limit_field { path = "context.tenant" }

abbrev pub filter_field : InputField
filter_field = record limit_field {
  path = "filter";
  data_type = "dynamic_predicate";
  wire = record { encoding = WireEncoding.json; provider_type = none };
}

abbrev pub bindings : ExecutionBindings sample
bindings = record {
  variables = obj (field "limit" (num (pos 5)) (field "filter" over_thirty end));
  context = obj (field "tenant" (num (pos 9)) end);
}

abbrev pub people : OperationMetadata
people = record {
  name = "people";
  kind = DefinitionKind.query;
  sql = record {
    text = "select * from people t where /*where*/ limit $1";
    compact_text = "";
    parameters = record { path = "limit" } ∷ [];
    variants = [];
  };
  params = [];
  input = limit_field ∷ filter_field ∷ [];
  context = [];
  dynamic_inputs = record filter { sites = site ∷ [] } ∷ [];
}
