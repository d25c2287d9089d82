-- ===== src/Execute/Materialize.antt =====
-- crates/dsql-execute/src/lib.rs, `materialize`: inputs, SQL variants, positional parameters and
-- dynamic inputs of one operation.
pub mod Parameters
pub mod Declared
pub mod Static
pub mod Shares
pub mod Sharing
pub mod Terminates
pub mod Enough
pub mod Tests
use dsql.Prelude.{
  ℕ, String, Bool, true, false, Option, none, some, List, [], ◌∷◌, ◌++◌, map, find, length, eqb,
  if◌then◌else◌, ◌==◌, string_eq, format, replace,
}
use dsql.Metadata.Wire.{DefinitionKind, kind_text}
use dsql.Metadata.Input.{InputField}
use dsql.Metadata.Operation.{
  SqlParameterMetadata, SqlVariantCaseMetadata, SqlVariantMetadata, DynamicInputSite,
  DynamicInputMetadata, OperationMetadata,
}
use dsql.Execute.Error.{
  ExecuteError, undeclared_parameter, missing_input, invalid_input, invalid_variant,
  unsupported_operation_kind, Result, ok, err, exhausted, ◌>>=◌, ◌>>◌, ok_or, traverse,
}
use dsql.Execute.Runtime.{Runtime}
use dsql.Execute.Scalars.{string_value}
use dsql.Execute.Defaults.{is_collection}
use dsql.Execute.Inputs.{get, ExecutionBindings, input_value}
use dsql.Execute.Emit.{BoundParameter, Operands}
use dsql.Execute.Dynamic.{provider_type_of, metadata_error, render_dynamic_predicate}
use dsql.Execute.Order.{replace_dynamic_marker, render_dynamic_order}

-- A map built by insertion: a later entry for a key hides an earlier one.
abbrev pub Dictionary : Type 0 → Type 0
Dictionary A = List (String × A)

abbrev or_text : Option String → String → String
or_text none s = s
or_text (some t) s = t

pub declared_from : Dictionary InputField → List InputField → Dictionary InputField
declared_from known [] = known
declared_from known (field ∷ fields) = declared_from ((field.path, field) ∷ known) fields

unfoldable pub declared : Dictionary InputField → String → Result InputField
declared fields path = ok_or (get fields path) (undeclared_parameter path)

abbrev marker_of : String → String
marker_of path = format ("{{" ∷ path ∷ "}}" ∷ [])

abbrev pub declared_fields : OperationMetadata → List InputField
declared_fields operation = operation.params ++ (operation.input ++ operation.context)

module _ (rt : Runtime) where
  open rt use {Value, is_null, empty_object, of_array}

  pub record MaterializedOperation : Type 0 where
    pub sql : String
    pub parameters : List (BoundParameter rt)

  unfoldable pub materialized_value : Dictionary Value → String → Result Value
  materialized_value values path = ok_or (get values path) (missing_input path)

  abbrev pub with_value : InputField → Option Value → Dictionary Value → Dictionary Value
  with_value field none values = values
  with_value field (some v) values = (field.path, v) ∷ values

  -- The values of the declared fields, in order; a field that is left out has none.
  pub collect_values :
      ExecutionBindings rt → Dictionary Value → List InputField → Result (Dictionary Value)
  collect_values bindings values [] = ok values
  collect_values bindings values (field ∷ fields) = input_value rt field bindings >>= λ given.
      collect_values bindings (with_value field given values) fields

  -- The text that a variant's value chooses.
  unfoldable pub variant_text : SqlVariantMetadata → Value → Result String
  variant_text variant v =
      if is_null v
      then ok_or variant.null_text (invalid_input variant.path "a non-null string variant")
      else do
        chosen ← ok_or (string_value rt v) (invalid_input variant.path "a string variant")
        case ←
            ok_or (find variant.cases (λ case. case.value == chosen))
              (invalid_variant variant.path chosen)
        ok case.text

  replace_variants :
      Dictionary InputField → Dictionary Value → String → List SqlVariantMetadata → Result String
  unfolding declared materialized_value variant_text
  replace_variants fields values sql [] = ok sql
  replace_variants fields values sql (variant ∷ variants) =
      (do
        _ ← declared fields variant.path
        v ← materialized_value values variant.path
        chosen ← variant_text variant v
        ok (replace sql (marker_of variant.path) chosen))
      >>= λ next. replace_variants fields values next variants

  unfoldable pub bind_parameter :
      Dictionary InputField → Dictionary Value → SqlParameterMetadata → Result (BoundParameter rt)
  unfolding declared materialized_value
  bind_parameter fields values parameter = do
    field ← declared fields parameter.path
    v ← materialized_value values parameter.path
    ok (record {
      path = parameter.path;
      data_type = field.data_type;
      wire = field.wire.encoding;
      provider_type = provider_type_of field.wire;
      collection = is_collection field;
      value = v;
    })

  unknown_kind : DynamicInputMetadata → ExecuteError
  unknown_kind input =
      metadata_error ("input `" ∷ input.path ∷ "` has unknown kind `" ∷ input.kind ∷ "`" ∷ [])

  -- A null dynamic input stands for the empty predicate or the empty order.
  dynamic_value : DynamicInputMetadata → Value → Result Value
  unfolding unknown_kind
  dynamic_value input v =
      if is_null v
      then if input.kind == "predicate"
        then ok empty_object
        else if input.kind == "order"
        then ok (of_array [])
        else err (unknown_kind input)
      else ok v

  predicate_site :
      ℕ
      → DynamicInputMetadata
      → DynamicInputSite
      → Value
      → Operands rt
      → Result (String × Operands rt)
  predicate_site fuel input site v operands = do
    (rendered, after) ← render_dynamic_predicate rt fuel input site v input.path operands
    ok (or_text rendered site.identity_sql, after)

  order_site :
      DynamicInputMetadata → DynamicInputSite → Value → Operands rt → Result (String × Operands rt)
  order_site input site v operands = do
    rendered ← render_dynamic_order rt input site v input.path
    ok (or_text rendered site.identity_sql, operands)

  -- The text of one site, and the operands after it.
  pub render_site :
      ℕ
      → DynamicInputMetadata
      → DynamicInputSite
      → Value
      → Operands rt
      → Result (String × Operands rt)
  render_site fuel input site v operands =
      if input.kind == "predicate"
      then predicate_site fuel input site v operands
      else if input.kind == "order"
      then order_site input site v operands
      else err (unknown_kind input)

  -- Every site starts at the same operand and must end at the same one.
  abbrev same_end : DynamicInputMetadata → Option ℕ → ℕ → Result (Unit {0})
  same_end input none reached = ok tt
  same_end input (some expected) reached =
      if eqb reached expected
      then ok tt
      else err
          (metadata_error ("sites for `" ∷ input.path ∷ "` do not consume the same operands" ∷ []))

  abbrev first_end : Option ℕ → ℕ → ℕ
  first_end none reached = reached
  first_end (some expected) reached = expected

  -- The draft with one site replaced, and the operand that every site must end at.
  pub materialize_site :
      ℕ
      → DynamicInputMetadata
      → Value
      → ℕ
      → Option ℕ
      → MaterializedOperation
      → DynamicInputSite
      → Result (MaterializedOperation × ℕ)
  materialize_site fuel input v start expected draft site = do
    (rendered, after) ←
        render_site fuel input site v
          (record { parameters = draft.parameters; operand_index = start })
    same_end input expected after.operand_index
    sql ← replace_dynamic_marker draft.sql site rendered
    ok (record { sql = sql; parameters = after.parameters }, first_end expected after.operand_index)

  pub materialize_sites :
      ℕ
      → DynamicInputMetadata
      → Value
      → ℕ
      → Option ℕ
      → MaterializedOperation
      → List DynamicInputSite
      → Result MaterializedOperation
  materialize_sites fuel input v start expected draft [] = ok draft
  materialize_sites fuel input v start expected draft (site ∷ sites) =
      materialize_site fuel input v start expected draft site >>= λ next.
      materialize_sites fuel input v start (some next.1) next.0 sites

  abbrev has_sites : DynamicInputMetadata → Result (Unit {0})
  has_sites input = elim input.sites [
    | [] ↦ err (metadata_error ("input `" ∷ input.path ∷ "` has no SQL usage sites" ∷ []))
    | _ ∷ _ ↦ ok tt
  ]

  materialize_input :
      ℕ
      → Dictionary Value
      → MaterializedOperation
      → DynamicInputMetadata
      → Result MaterializedOperation
  unfolding dynamic_value
  materialize_input fuel values draft input = do
    given ← materialized_value values input.path
    v ← dynamic_value input given
    next ← materialize_sites fuel input v (length draft.parameters) none draft input.sites
    has_sites input
    ok next

  pub materialize_dynamic_inputs :
      ℕ
      → Dictionary Value
      → MaterializedOperation
      → List DynamicInputMetadata
      → Result MaterializedOperation
  materialize_dynamic_inputs fuel values draft [] = ok draft
  materialize_dynamic_inputs fuel values draft (input ∷ inputs) =
      materialize_input fuel values draft input >>= λ next.
      materialize_dynamic_inputs fuel values next inputs

  -- The query text and its static parameters.
  pub draft_query : OperationMetadata → Dictionary Value → Result MaterializedOperation
  draft_query operation values = do
    let fields = declared_from [] (declared_fields operation)
    sql ← replace_variants fields values operation.sql.text operation.sql.variants
    parameters ← traverse (bind_parameter fields values) operation.sql.parameters
    ok (record { sql = sql; parameters = parameters })

  pub materialize_query :
      ℕ → OperationMetadata → ExecutionBindings rt → Result MaterializedOperation
  materialize_query fuel operation bindings = do
    values ← collect_values bindings [] (declared_fields operation)
    draft ← draft_query operation values
    materialize_dynamic_inputs fuel values draft operation.dynamic_inputs

  -- Only a query is materialized.
  unfoldable pub materialize_kind :
      DefinitionKind → ℕ → OperationMetadata → ExecutionBindings rt → Result MaterializedOperation
  materialize_kind DefinitionKind.query fuel operation bindings =
      materialize_query fuel operation bindings
  materialize_kind DefinitionKind.fragment fuel operation bindings =
      err (unsupported_operation_kind (kind_text DefinitionKind.fragment))

  unfoldable pub materialize :
      ℕ → OperationMetadata → ExecutionBindings rt → Result MaterializedOperation
  unfolding materialize_kind
  materialize fuel operation bindings = materialize_kind operation.kind fuel operation bindings
