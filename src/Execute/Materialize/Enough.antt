-- ===== src/Execute/Materialize/Enough.antt =====
-- crates/dsql-execute/src/lib.rs, `materialize`: enough fuel for a whole operation.
use dsql.Prelude.{
  ℕ, ◌<◌, String, Option, none, some, List, [], ◌∷◌, length, ◌≡◌, ◌≢◌, refl, sym, ap, arith,
  Option-cases, inl, inr, In, string_eq,
}
use dsql.Metadata.Wire.{DefinitionKind}
use dsql.Metadata.Input.{InputField}
use dsql.Metadata.Operation.{DynamicInputMetadata, OperationMetadata}
use dsql.Execute.Error.{ok, exhausted, >>=-eq-ok, ok-injective, >>=-ends, ok-ends, ok_or-ends}
use dsql.Execute.Runtime.{Runtime}
use dsql.Execute.Inputs.{ExecutionBindings, input_value, get}
use dsql.Execute.Inputs.Ends.{input_value-ends}
use dsql.Execute.Dynamic.Terminates.{IsNested, get-In}
use dsql.Execute.Materialize.Terminates.{draft_query-ends, materialize_sites-ends}
use dsql.Execute.Materialize.{
  Dictionary, MaterializedOperation, materialized_value, materialize_sites, materialize_input,
  materialize_dynamic_inputs, draft_query, declared_fields, materialize_query, materialize_kind,
  materialize, collect_values, dynamic_value, with_value,
}

module _ (rt : Runtime) where
  open rt use {Value, empty_object}

  -- Every value is nested less deep than the fuel.
  abbrev Shallow : (Value → ℕ) → ℕ → Dictionary Value → Type 0
  Shallow depth fuel values = (key : String) (v : Value) → In (key, v) values → depth v < fuel

  -- The inputs of an operation that the bindings give are nested less deep than the fuel.
  abbrev pub InputsBelow : (Value → ℕ) → ℕ → ExecutionBindings rt → List InputField → Type 0
  InputsBelow depth fuel bindings fields =
      (field : InputField) (v : Value)
      → In field fields
      → input_value rt field bindings ≡ ok (some v)
      → depth v < fuel

  module _ (depth : Value → ℕ) (nested : IsNested rt depth) (fuel : ℕ)
      (empty : depth empty_object < fuel) (order : depth (rt.of_array []) < fuel) where
    with_value-Shallow :
        (field : InputField) (o : Option Value) (known : Dictionary Value)
        → Shallow depth fuel known
        → ((v : Value) → o ≡ some v → depth v < fuel)
        → Shallow depth fuel (with_value rt field o known)
    with_value-Shallow field none known below h key u i = below key u i
    with_value-Shallow field (some v) known below h key u (inl same) =
        let one : u ≡ v = ap (λ (p : String × Value). p.1) same in rw one (h v refl)
    with_value-Shallow field (some v) known below h key u (inr i) = below key u i

    collect_values-Shallow :
        (bindings : ExecutionBindings rt) (known values : Dictionary Value)
        (fields : List InputField)
        → Shallow depth fuel known
        → InputsBelow depth fuel bindings fields
        → collect_values rt bindings known fields ≡ ok values
        → Shallow depth fuel values
    unfolding collect_values
    collect_values-Shallow bindings known values [] below h e = rw (sym (ok-injective e)) below
    collect_values-Shallow bindings known values (field ∷ fields) below h e =
        let (o, got, later) =
          >>=-eq-ok (input_value rt field bindings)
            (λ o. collect_values rt bindings (with_value rt field o known) fields) e in
        collect_values-Shallow bindings (with_value rt field o known) values fields
          (with_value-Shallow field o known below
            (λ v some_v. h field v (inl refl) (rw (sym some_v) got)))
          (λ f v i. h f v (inr i)) later

    collect_values-ends :
        (bindings : ExecutionBindings rt) (known : Dictionary Value) (fields : List InputField)
        → collect_values rt bindings known fields ≢ exhausted
    unfolding collect_values
    collect_values-ends bindings known [] = ok-ends known
    collect_values-ends bindings known (field ∷ fields) =
        >>=-ends (input_value rt field bindings) _ (input_value-ends rt field bindings)
          λ o _. collect_values-ends bindings (with_value rt field o known) fields

    dynamic_value-shallow :
        (input : DynamicInputMetadata) (given v : Value)
        → depth given < fuel
        → dynamic_value rt input given ≡ ok v
        → depth v < fuel
    unfolding dynamic_value
    dynamic_value-shallow input given v h e = ground (arith, empty, order)

    dynamic_value-ends :
        (input : DynamicInputMetadata) (given : Value) → dynamic_value rt input given ≢ exhausted
    unfolding dynamic_value
    dynamic_value-ends input given = ground arith

    materialize_input-ends :
        (values : Dictionary Value) (draft : MaterializedOperation rt)
        (input : DynamicInputMetadata)
        → Shallow depth fuel values
        → materialize_input rt fuel values draft input ≢ exhausted
    unfolding materialize_input materialized_value
    materialize_input-ends values draft input below =
        >>=-ends (materialized_value rt values input.path) _ (ok_or-ends _ _) λ given found.
          >>=-ends (dynamic_value rt input given) _ (dynamic_value-ends input given) λ v made.
            >>=-ends
              (materialize_sites rt fuel input v (length draft.parameters) none draft input.sites) _
              (materialize_sites-ends rt depth nested fuel input v (length draft.parameters) none
                draft input.sites
                (dynamic_value-shallow input given v (shallow_value given found) made))
              λ next _. ground arith
      where
        shallow_value :
            (given : Value)
            → materialized_value rt values input.path ≡ ok given
            → depth given < fuel
        shallow_value given found = elim (Option-cases (get values input.path)) [
          | inl n ↦ absurd (ground arith)
          | inr (u, f) ↦
              let same : u ≡ given = ground arith in
              let (k, i) = get-In values input.path f in rw (sym same) (below k u i)
        ]

    materialize_dynamic_inputs-ends :
        (values : Dictionary Value) (draft : MaterializedOperation rt)
        (inputs : List DynamicInputMetadata)
        → Shallow depth fuel values
        → materialize_dynamic_inputs rt fuel values draft inputs ≢ exhausted
    unfolding materialize_dynamic_inputs
    materialize_dynamic_inputs-ends values draft [] below = ok-ends draft
    materialize_dynamic_inputs-ends values draft (input ∷ inputs) below =
        >>=-ends (materialize_input rt fuel values draft input) _
          (materialize_input-ends values draft input below)
          λ next _. materialize_dynamic_inputs-ends values next inputs below

    materialize_kind-ends :
        (kind : DefinitionKind) (operation : OperationMetadata) (bindings : ExecutionBindings rt)
        → InputsBelow depth fuel bindings (declared_fields operation)
        → materialize_kind rt kind fuel operation bindings ≢ exhausted
    unfolding materialize_kind materialize_query
    materialize_kind-ends DefinitionKind.fragment operation bindings h = λ p. cc
    materialize_kind-ends DefinitionKind.query operation bindings h =
        >>=-ends (collect_values rt bindings [] (declared_fields operation)) _
          (collect_values-ends bindings [] (declared_fields operation))
          λ values got.
            >>=-ends (draft_query rt operation values) _ (draft_query-ends rt operation values)
              λ draft _. materialize_dynamic_inputs-ends values draft operation.dynamic_inputs (
                collect_values-Shallow bindings [] values (declared_fields operation)
                  (λ key v i. absurd i) h got)

    -- Materializing an operation ends, with a materialized operation or an error of the program: the
    -- fuel does not run out when it is more than the nesting of every input that the bindings give
    -- and of the empty object and array, which stand for an input that is null.
    pub materialize-ends :
        (operation : OperationMetadata) (bindings : ExecutionBindings rt)
        → InputsBelow depth fuel bindings (declared_fields operation)
        → materialize rt fuel operation bindings ≢ exhausted
    unfolding materialize
    materialize-ends operation bindings h =
        materialize_kind-ends operation.kind operation bindings h
