-- ===== src/Execute/Inputs/Accepted.antt =====
-- crates/dsql-execute/src/lib.rs: what the checks of an input let through.
use dsql.Prelude.{String, Bool, true, false, not, ◌&&◌, Option, none, some, ◌≡◌, refl, arith, ap}
use dsql.Metadata.Wire.{wire_eq}
use dsql.Metadata.Input.{InputField}
use dsql.Execute.Error.{ExecuteError, ok, ensure, >>=-eq-ok}
use dsql.Execute.Runtime.{Runtime}
use dsql.Execute.Inputs.{
  validate_safe_integer, validate_input_wire, checked, omitted, resolve, input_from, input_value,
  ExecutionBindings,
}

ensure-eq-ok : (b : Bool) (e : ExecuteError) {u : Unit {0}} → ensure b e ≡ ok u → b ≡ true
ensure-eq-ok true e h = refl
ensure-eq-ok false e h = cc

module _ (rt : Runtime) where
  open rt use {Value, is_null, as_array}

  pub checked-eq-ok :
      (field : InputField) (v : Value) {r : Option Value}
      → checked rt field v ≡ ok r
      → (r ≡ some v)
        × ((is_null v && not field.nullable) ≡ false)
        × (validate_safe_integer rt field v ≡ ok tt)
        × (validate_input_wire rt field v ≡ ok tt)
  unfolding checked
  checked-eq-ok field v h = ground arith

  some-injective : {u v : Value} → some u ≡ some v → u ≡ v
  some-injective {u} p = ap (elim [ none ↦ u | some w ↦ w ]) p

  checked-value :
      (field : InputField) (u : Value) {v : Value}
      → checked rt field u ≡ ok (some v)
      → checked rt field v ≡ ok (some v)
  checked-value field u {v} h =
      let same : v ≡ u = some-injective (checked-eq-ok field u h).0 in rw same (rw same at h)

  resolve-checked :
      (field : InputField) (trusted : Bool) (o : Option Value) {v : Value}
      → resolve rt field trusted o ≡ ok (some v)
      → checked rt field v ≡ ok (some v)
  unfolding resolve
  resolve-checked field trusted (some u) h = checked-value field u h
  resolve-checked field trusted none {v} h =
      let (o, _, later) = >>=-eq-ok (omitted rt field trusted) _ h in given o later
    where
      given :
          (o : Option Value)
          → elim o [ none ↦ ok none | some u ↦ checked rt field u ] ≡ ok (some v)
          → checked rt field v ≡ ok (some v)
      given none h = cc
      given (some u) h = checked-value field u h

  from-checked :
      (field : InputField) (b : ExecutionBindings rt) (o : Option String) {v : Value}
      → input_from rt field b o ≡ ok (some v)
      → checked rt field v ≡ ok (some v)
  unfolding input_from
  from-checked field b none h =
      let (found, _, later) = >>=-eq-ok _ (resolve rt field false) h in
      resolve-checked field false found later
  from-checked field b (some path) h =
      let (found, _, later) = >>=-eq-ok _ (resolve rt field true) h in
      resolve-checked field true found later

  -- The value of an input has passed its checks, wherever it came from: the variables, the trusted
  -- context or a default.
  pub input_value-checked :
      (field : InputField) (b : ExecutionBindings rt) (v : Value)
      → input_value rt field b ≡ ok (some v)
      → checked rt field v ≡ ok (some v)
  unfolding input_value
  input_value-checked field b v h = from-checked field b _ h
