-- ===== src/Execute/Bind/Inputs.antt =====
-- crates/dsql-execute/src/lib.rs: from the value of an input to its bound argument.
use dsql.Prelude.{some, List, ◌++◌, ◌∷◌, [], ◌≡◌, ◌≢◌, false, sym, if◌then◌else◌}
use dsql.Metadata.Wire.{unsupported}
use dsql.Metadata.Input.{InputField}
use dsql.Execute.Error.{Result, ok, ◌>>=◌, ok-injective, >>=-eq-ok}
use dsql.Execute.Runtime.{Runtime}
use dsql.Execute.Inputs.{ExecutionBindings, is_dynamic, input_value}
use dsql.Execute.Inputs.Accepted.{input_value-checked}
use dsql.Execute.Bind.{Argument, bind_scalar, bind_collection, bind}
use dsql.Execute.Emit.{BoundParameter}
use dsql.Execute.Bind.Total.{is_ok-value, HasRaw}
use dsql.Execute.Bind.Accepted.{checked-fits, parameter_of, fitting-binds}

appends {ℓ} :
    {A : Type ℓ} (m : Result A) (query : List A) {next : List A}
    → (m >>= λ argument. ok (query ++ argument ∷ [])) ≡ ok next
    → (argument : A) × (next ≡ query ++ argument ∷ [])
appends m query h = let (argument, _, e) = >>=-eq-ok m _ h in (argument, sym (ok-injective e))

module _ (rt : Runtime) where
  bind-appends :
      (query : List (Argument rt)) (p : BoundParameter rt) {next : List (Argument rt)}
      → bind rt query p ≡ ok next
      → (argument : Argument rt) × (next ≡ query ++ argument ∷ [])
  unfolding bind
  bind-appends query p h =
      appends (if p.collection then bind_collection rt p else bind_scalar rt p) query h

  -- Binding never refuses a static input that `input_value` returned, whatever its encoding: one
  -- argument is added to the query. The encoding must be supported and the input not dynamic, and
  -- every value must have raw JSON.
  pub input_value-binds :
      HasRaw rt
      → (field : InputField) (b : ExecutionBindings rt) (v : rt.Value) (query : List (Argument rt))
      → field.wire.encoding ≢ unsupported
      → is_dynamic field.data_type ≡ false
      → input_value rt field b ≡ ok (some v)
      → (argument : Argument rt) × (bind rt query (parameter_of rt field v)
          ≡ ok (query ++ argument ∷ []))
  input_value-binds raw field b v query n d h =
      let fit = checked-fits rt field v d (input_value-checked rt field b v h) in
      let (next, e) = is_ok-value _ (fitting-binds rt raw field v query n fit) in
      let (argument, grown) = bind-appends query (parameter_of rt field v) e in
      (argument, rw (sym grown) e)
