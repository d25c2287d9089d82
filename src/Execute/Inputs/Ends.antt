-- ===== src/Execute/Inputs/Ends.antt =====
-- crates/dsql-execute/src/lib.rs: reading an input ends with a value or with an error of the program.
use dsql.Prelude.{
  String, Bool, true, false, Option, none, some, List, [], ◌∷◌, ◌≢◌, Option-cases, inl, inr, arith,
}
use dsql.Metadata.Input.{InputField}
use dsql.Execute.Error.{ok, exhausted, >>=-ends}
use dsql.Execute.Runtime.{Runtime}
use dsql.Execute.Defaults.Ends.{materialize_default-ends}
use dsql.Execute.Inputs.{
  ExecutionBindings, get, lookup_segments, lookup_path, validate_safe_integer, validate_input_wire,
  omitted, checked, resolve, input_from, input_value,
}

module _ (rt : Runtime) where
  open rt use {Value, as_object}

  lookup_segments-ends :
      (v : Value) (segments : List String) (path : String)
      → lookup_segments rt v segments path ≢ exhausted
  unfolding lookup_segments
  lookup_segments-ends v [] path = λ p. cc
  lookup_segments-ends v (segment ∷ rest) path = elim (Option-cases (as_object v)) [
    | inl e ↦ ground arith
    | inr (object, e) ↦ elim (Option-cases (get object segment)) [
      | inl f ↦ ground arith
      | inr (w, f) ↦ ground (arith, lookup_segments-ends w rest path)
    ]
  ]

  checked-ends : (field : InputField) (v : Value) → checked rt field v ≢ exhausted
  unfolding checked validate_safe_integer validate_input_wire
  checked-ends field v = ground arith

  omitted-ends : (field : InputField) (trusted : Bool) → omitted rt field trusted ≢ exhausted
  unfolding omitted
  omitted-ends field true = λ p. cc
  omitted-ends field false = elim (Option-cases field.default) [
    | inl e ↦ ground arith
    | inr (d, e) ↦ ground (arith, materialize_default-ends rt field d)
  ]

  resolve-ends :
      (field : InputField) (trusted : Bool) (o : Option Value)
      → resolve rt field trusted o ≢ exhausted
  unfolding resolve
  resolve-ends field trusted (some v) = checked-ends field v
  resolve-ends field trusted none =
      >>=-ends (omitted rt field trusted) _ (omitted-ends field trusted) λ o _. given o
    where
      given :
          (o : Option Value) → elim o [ none ↦ ok none | some u ↦ checked rt field u ] ≢ exhausted
      given none = λ p. cc
      given (some u) = checked-ends field u

  from-ends :
      (field : InputField) (b : ExecutionBindings rt) (o : Option String)
      → input_from rt field b o ≢ exhausted
  unfolding input_from lookup_path
  from-ends field b none =
      >>=-ends _ (resolve rt field false) (lookup_segments-ends b.variables _ field.path)
        λ o _. resolve-ends field false o
  from-ends field b (some path) =
      >>=-ends _ (resolve rt field true) (lookup_segments-ends b.context _ field.path)
        λ o _. resolve-ends field true o

  pub input_value-ends :
      (field : InputField) (b : ExecutionBindings rt) → input_value rt field b ≢ exhausted
  unfolding input_value
  input_value-ends field b = from-ends field b _
