-- ===== src/Execute/Inputs.antt =====
-- crates/dsql-execute/src/lib.rs, `input_value`: where an input is read from, its default, and its
-- validation. Fields under `context.` are read from the trusted context only.
pub mod Context
pub mod Accepted
pub mod Ends
pub mod Tests
use dsql.Prelude.{
  String, Bool, true, false, not, ◌&&◌, ◌||◌, Option, none, some, List, [], ◌∷◌, all, if◌then◌else◌,
  ◌==◌, string_eq, format, strip_prefix, split_dots,
}
use dsql.Metadata.Wire.{WireEncoding, wire_eq}
use dsql.Metadata.Input.{InputField}
use dsql.Execute.Error.{invalid_input, missing_input, Result, ok, err, ◌>>=◌, ◌>>◌, ensure}
use dsql.Execute.Runtime.{Runtime}
use dsql.Execute.Scalars.{is_some_and, is_safe_integer, integer_value, input_scalar_is_valid}
use dsql.Execute.Defaults.{is_collection, invalid, materialize_default}

-- `VObject::get`; the keys of an object are distinct.
abbrev pub get {ℓ} : {A : Type ℓ} → List (String × A) → String → Option A
get [] key = none
get ((k, v) ∷ entries) key = if k == key then some v else get entries key

unfoldable pub is_dynamic : String → Bool
is_dynamic data_type = data_type == "dynamic_predicate" || data_type == "dynamic_order"

module _ (rt : Runtime) where
  open rt use {Value, is_null, as_array, as_object}

  pub record ExecutionBindings : Type 0 where
    pub variables : Value
    pub context : Value

  -- The loop over the segments of a path.
  lookup_segments : Value → List String → String → Result (Option Value)
  lookup_segments current [] field_path = ok (some current)
  lookup_segments current (segment ∷ rest) field_path = elim (as_object current) [
    | none ↦ err (invalid_input field_path "an object input envelope")
    | some object ↦ elim (get object segment) [
      | none ↦ ok none
      | some value ↦ lookup_segments value rest field_path
    ]
  ]

  unfoldable pub lookup_path : Value → String → String → Result (Option Value)
  unfolding lookup_segments
  lookup_path root path field_path = lookup_segments root (split_dots path) field_path

  unfoldable pub is_safe_value : Value → Bool
  is_safe_value v = is_some_and (integer_value rt v) is_safe_integer

  unfoldable pub validate_safe_integer : InputField → Value → Result (Unit {0})
  unfolding is_safe_value
  validate_safe_integer field v =
      if is_null v || not (field.wire.encoding == WireEncoding.integer)
      then ok tt
      else if is_collection field
      then elim (as_array v) [
        | none ↦ err (invalid field "an array of safe integers")
        | some values ↦
            ensure (all values (λ x. is_null x || is_safe_value x))
              (invalid field "an array of safe integers")
      ]
      else ensure (is_safe_value v) (invalid field "a safe integer")

  unfoldable pub validate_input_wire : InputField → Value → Result (Unit {0})
  unfolding is_dynamic
  validate_input_wire field v =
      if is_null v || field.wire.encoding == WireEncoding.integer || is_dynamic field.data_type
      then ok tt
      else if is_collection field
      then elim (as_array v) [
        | none ↦ err (invalid field (format ("an array of " ∷ field.data_type ∷ [])))
        | some values ↦
            ensure (all values (λ x. is_null x || input_scalar_is_valid rt field x))
              (invalid field (format ("an array of valid " ∷ field.data_type ∷ " values" ∷ [])))
      ]
      else ensure (input_scalar_is_valid rt field v)
          (invalid field (format ("a valid " ∷ field.data_type ∷ [])))

  -- What stands for an input that the bindings do not hold.
  unfoldable pub omitted : InputField → Bool → Result (Option Value)
  omitted field true = err (missing_input field.path)
  omitted field false = elim field.default [
    | none ↦ if field.required then err (missing_input field.path) else ok none
    | some default ↦ do v ← materialize_default rt field default; ok (some v)
  ]

  unfoldable pub checked : InputField → Value → Result (Option Value)
  unfolding validate_safe_integer validate_input_wire
  checked field v = do
    ensure (not (is_null v && not field.nullable))
        (invalid field (format ("a non-null " ∷ field.data_type ∷ [])))
    validate_safe_integer field v
    validate_input_wire field v
    ok (some v)

  -- A bound value is taken as it is; `none` of the result means that the input is left out.
  unfoldable pub resolve : InputField → Bool → Option Value → Result (Option Value)
  unfolding omitted checked
  resolve field trusted (some v) = checked field v
  resolve field trusted none =
      omitted field trusted >>= elim [ none ↦ ok none | some v ↦ checked field v ]

  -- The envelope that `strip_prefix` chooses: the rest of a path under `context.`, or none.
  unfoldable pub input_from : InputField → ExecutionBindings → Option String → Result (Option Value)
  unfolding resolve lookup_path
  input_from field bindings none =
      lookup_path bindings.variables field.path field.path >>= resolve field false
  input_from field bindings (some path) =
      lookup_path bindings.context path field.path >>= resolve field true

  unfoldable pub input_value : InputField → ExecutionBindings → Result (Option Value)
  unfolding input_from
  input_value field bindings = input_from field bindings (strip_prefix "context." field.path)
