-- ===== src/Execute/Defaults/Ends.antt =====
-- crates/dsql-execute/src/lib.rs: reading a default ends with a value or with an error of the program.
use dsql.Prelude.{
  String, Option, none, some, ◌≢◌, arith, Bool, ◌&&◌, not, ◌==◌, string_eq, ◌||◌, if◌then◌else◌,
}
use dsql.Metadata.Wire.{WireEncoding, wire_eq, boolean}
use dsql.Metadata.Input.{
  InputField, InputDefault, input_default, DefaultItems, absent, present, Defaults, nil, cons,
}
use dsql.Execute.Error.{Result, ok, err, exhausted, ok_or, ◌>>=◌, if-ends}
use dsql.Execute.Runtime.{Runtime}
use dsql.Execute.Defaults.{
  string_default, number_for, number_default, materialize_default, materialize_items,
  materialize_list, is_collection, invalid, incompatible,
}

module _ (rt : Runtime) where
  string_default-ends :
      (field : InputField) (v : Option String) → string_default rt field v ≢ exhausted
  unfolding string_default
  string_default-ends field v = ground arith

  number_for-ends :
      (w : WireEncoding) (field : InputField) (t : String) → number_for rt w field t ≢ exhausted
  unfolding number_for
  number_for-ends w field t = ground arith

  number_default-ends :
      (field : InputField) (v : Option String) → number_default rt field v ≢ exhausted
  unfolding number_default
  number_default-ends field none = ground arith
  number_default-ends field (some t) = ground (arith, number_for-ends field.wire.encoding field t)

  typed : InputField → String → Option Bool → Result rt.Value → Result rt.Value
  typed field kind b collected =
      if kind == "boolean" && (not (is_collection field) && field.wire.encoding == boolean)
      then (do x ← ok_or b (invalid field "a valid boolean default"); ok (rt.of_bool x))
      else if kind == "null"
      then ok rt.null
      else if kind == "collection" && (is_collection field || field.data_type == "dynamic_order")
      then collected
      else if kind == "empty_object"
          && (not (is_collection field) && field.data_type == "dynamic_predicate")
      then ok rt.empty_object
      else err (invalid field (incompatible kind))

  typed-ends :
      (field : InputField) (kind : String) (b : Option Bool) (collected : Result rt.Value)
      → collected ≢ exhausted
      → typed field kind b collected ≢ exhausted
  unfolding typed
  typed-ends field kind b collected h = ground arith

  mutual
    unfolding materialize_default typed

    pub materialize_default-ends :
        (field : InputField) (d : InputDefault) → materialize_default rt field d ≢ exhausted
    materialize_default-ends field (input_default kind v b items) =
        if-ends (kind == "string" && not (is_collection field)) (string_default rt field v) _
          (string_default-ends field v)
          (if-ends (kind == "number") (number_default rt field v) _ (number_default-ends field v) (
            typed-ends field kind b (materialize_items rt field items)
              (materialize_items-ends field items)))

    pub materialize_items-ends :
        (field : InputField) (items : DefaultItems) → materialize_items rt field items ≢ exhausted
    materialize_items-ends field absent = λ p. cc
    materialize_items-ends field (present items) = ground (arith, materialize_list-ends field items)

    pub materialize_list-ends :
        (field : InputField) (items : Defaults) → materialize_list rt field items ≢ exhausted
    materialize_list-ends field nil = λ p. cc
    materialize_list-ends field (cons item items) = ground (
      arith,
      materialize_default-ends (record field { collection = none }) item,
      materialize_list-ends field items,
    )
