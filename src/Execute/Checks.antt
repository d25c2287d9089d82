-- ===== src/Execute/Checks.antt =====
-- crates/dsql-execute/src/lib.rs: the validity of the operands of a dynamic predicate.
use dsql.Prelude.{
  ◌≢◌, Option-cases, inl, inr, arith, String, Bool, true, false, ◌&&◌, none, some, List, [], ◌∷◌,
  if◌then◌else◌, ◌==◌, format,
}
use dsql.Metadata.Wire.{
  WireEncoding, wire_eq, uuid, text, timestamptz, integer, big_integer, numeric, float, boolean,
  json, text_cast, unsupported,
}
use dsql.Metadata.Operation.{DynamicInputField}
use dsql.Execute.Error.{invalid_input, unsupported_type, Result, ok, err, exhausted, ◌>>◌, ensure}
use dsql.Execute.Runtime.{Runtime}
use dsql.Execute.Scalars.{
  is_some_and, is_some, is_safe_integer, string_value, integer_value, big_integer_value,
  float_value, pattern_is_valid,
}

module _ (rt : Runtime) where
  open rt use {
    Value, is_null, as_bool, as_array, is_finite, parse_uuid, parse_timestamp, parse_decimal,
  }

  unfoldable pub dynamic_wire_accepts : WireEncoding → Value → Bool
  unfolding string_value integer_value big_integer_value float_value
  dynamic_wire_accepts uuid v = is_some_and (string_value rt v) (λ s. is_some (parse_uuid s))
  dynamic_wire_accepts text v = is_some (string_value rt v)
  dynamic_wire_accepts text_cast v = is_some (string_value rt v)
  dynamic_wire_accepts timestamptz v =
      is_some_and (string_value rt v) (λ s. is_some (parse_timestamp s))
  dynamic_wire_accepts integer v = is_some_and (integer_value rt v) is_safe_integer
  dynamic_wire_accepts big_integer v = is_some (big_integer_value rt v)
  dynamic_wire_accepts numeric v = is_some_and (string_value rt v) (λ s. is_some (parse_decimal s))
  dynamic_wire_accepts float v = is_some_and (float_value rt v) is_finite
  dynamic_wire_accepts boolean v = is_some (as_bool v)
  dynamic_wire_accepts json v = true
  dynamic_wire_accepts unsupported v = false

  unfoldable pub validate_dynamic_scalar : DynamicInputField → Value → String → Result (Unit {0})
  validate_dynamic_scalar field v path =
      if is_null v
      then err (invalid_input path (format ("a non-null " ∷ field.data_type ∷ " value" ∷ [])))
      else if field.wire.encoding == unsupported
      then err (unsupported_type path field.data_type)
      else ensure
          (dynamic_wire_accepts field.wire.encoding v
            && pattern_is_valid rt field.validation.pattern v)
          (invalid_input path (format ("a valid " ∷ field.data_type ∷ " value" ∷ [])))

  validate_items : DynamicInputField → List Value → String → Result (Unit {0})
  validate_items field [] path = ok tt
  validate_items field (v ∷ vs) path =
      let rest = validate_items field vs path in
      if is_null v
      then err (invalid_input path "a collection without null elements")
      else (validate_dynamic_scalar field v path >> rest)

  unfoldable pub validate_dynamic_collection :
      DynamicInputField → Value → String → Result (Unit {0})
  unfolding validate_items
  validate_dynamic_collection field v path = elim (as_array v) [
    | none ↦ err (invalid_input path (format ("an array of " ∷ field.data_type ∷ " values" ∷ [])))
    | some items ↦ validate_items field items path
  ]

  pub validate_dynamic_scalar-ends :
      (field : DynamicInputField) (v : Value) (path : String)
      → validate_dynamic_scalar field v path ≢ exhausted
  unfolding validate_dynamic_scalar
  validate_dynamic_scalar-ends field v path = ground arith

  validate_items-ends :
      (field : DynamicInputField) (vs : List Value) (path : String)
      → validate_items field vs path ≢ exhausted
  unfolding validate_items
  validate_items-ends field [] path = λ h. cc
  validate_items-ends field (v ∷ vs) path =
      ground (arith, validate_items-ends field vs path, validate_dynamic_scalar-ends field v path)

  pub validate_dynamic_collection-ends :
      (field : DynamicInputField) (v : Value) (path : String)
      → validate_dynamic_collection field v path ≢ exhausted
  unfolding validate_dynamic_collection
  validate_dynamic_collection-ends field v path = elim (Option-cases (as_array v)) [
    | inl e ↦ ground arith
    | inr (items, e) ↦ ground (arith, validate_items-ends field items path)
  ]
