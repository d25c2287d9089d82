-- ===== src/Execute/Materialize/Terminates.antt =====
-- crates/dsql-execute/src/lib.rs, `materialize`: enough fuel for the dynamic predicates.
use dsql.Prelude.{
  ℕ, ◌<◌, String, Option, none, some, List, [], ◌∷◌, ◌≢◌, arith, ◌==◌, string_eq, replace,
}
use dsql.Metadata.Input.{InputField}
use dsql.Metadata.Operation.{
  DynamicInputSite, DynamicInputMetadata, OperationMetadata, SqlParameterMetadata,
  SqlVariantMetadata,
}
use dsql.Execute.Error.{
  Result, ok, exhausted, ◌>>=◌, traverse, >>=-ends, ok-ends, ok_or-ends, if-ends, traverse-ends,
}
use dsql.Execute.Runtime.{Runtime}
use dsql.Execute.Emit.{Operands}
use dsql.Execute.Dynamic.{render_dynamic_predicate}
use dsql.Execute.Dynamic.Terminates.{IsNested, render_dynamic_predicate-ends}
use dsql.Execute.Order.{render_dynamic_order, replace_dynamic_marker}
use dsql.Execute.Order.Ends.{replace_dynamic_marker-ends, render_dynamic_order-ends}
use dsql.Execute.Materialize.{
  Dictionary, MaterializedOperation, declared_from, declared, materialized_value, variant_text,
  bind_parameter, predicate_site, order_site, render_site, materialize_site, materialize_sites,
  draft_query, declared_fields, same_end, replace_variants, marker_of,
}

module _ (rt : Runtime) where
  open rt use {Value, empty_object}

  variant_text-ends :
      (variant : SqlVariantMetadata) (v : Value) → variant_text rt variant v ≢ exhausted
  unfolding variant_text
  variant_text-ends variant v = ground arith

  one_variant :
      Dictionary InputField → Dictionary Value → String → SqlVariantMetadata → Result String
  one_variant fields values sql variant = do
    _ ← declared fields variant.path
    v ← materialized_value rt values variant.path
    chosen ← variant_text rt variant v
    ok (replace sql (marker_of variant.path) chosen)

  one_variant-ends :
      (fields : Dictionary InputField) (values : Dictionary Value) (sql : String)
      (variant : SqlVariantMetadata)
      → one_variant fields values sql variant ≢ exhausted
  unfolding one_variant declared materialized_value
  one_variant-ends fields values sql variant =
      >>=-ends (declared fields variant.path) _ (ok_or-ends _ _) λ field _.
        >>=-ends (materialized_value rt values variant.path) _ (ok_or-ends _ _) λ v _.
          >>=-ends (variant_text rt variant v) _ (variant_text-ends variant v) λ chosen _. ok-ends _

  replace_variants-ends :
      (fields : Dictionary InputField) (values : Dictionary Value) (sql : String)
      (variants : List SqlVariantMetadata)
      → replace_variants rt fields values sql variants ≢ exhausted
  unfolding replace_variants one_variant
  replace_variants-ends fields values sql [] = ok-ends sql
  replace_variants-ends fields values sql (variant ∷ variants) =
      >>=-ends (one_variant fields values sql variant)
        (λ next. replace_variants rt fields values next variants)
        (one_variant-ends fields values sql variant)
        λ next _. replace_variants-ends fields values next variants

  bind_parameter-ends :
      (fields : Dictionary InputField) (values : Dictionary Value)
      (parameter : SqlParameterMetadata)
      → bind_parameter rt fields values parameter ≢ exhausted
  unfolding bind_parameter declared materialized_value
  bind_parameter-ends fields values parameter = ground arith

  pub draft_query-ends :
      (operation : OperationMetadata) (values : Dictionary Value)
      → draft_query rt operation values ≢ exhausted
  unfolding draft_query
  draft_query-ends operation values =
      let fields = declared_from [] (declared_fields operation) in
      >>=-ends (replace_variants rt fields values operation.sql.text operation.sql.variants) _
        (replace_variants-ends fields values operation.sql.text operation.sql.variants)
        λ sql _.
          >>=-ends (traverse (bind_parameter rt fields values) operation.sql.parameters) _
            (traverse-ends _ operation.sql.parameters (bind_parameter-ends fields values))
            λ ps _. ok-ends _

  module _ (depth : Value → ℕ) (nested : IsNested rt depth) (fuel : ℕ) where
    render_site-ends :
        (input : DynamicInputMetadata) (site : DynamicInputSite) (v : Value) (s : Operands rt)
        → depth v < fuel
        → render_site rt fuel input site v s ≢ exhausted
    unfolding render_site predicate_site order_site
    render_site-ends input site v s h =
        if-ends (input.kind == "predicate") (predicate_site rt fuel input site v s) _
          (>>=-ends (render_dynamic_predicate rt fuel input site v input.path s) _
            (render_dynamic_predicate-ends rt depth nested fuel input site v input.path s h)
            λ r _. ok-ends _)
          (if-ends (input.kind == "order") (order_site rt input site v s) _
            (>>=-ends (render_dynamic_order rt input site v input.path) _
              (render_dynamic_order-ends rt input site v input.path) λ r _. ok-ends _)
            (λ p. cc))

    same_end-ends :
        (input : DynamicInputMetadata) (expected : Option ℕ) (reached : ℕ)
        → same_end rt input expected reached ≢ exhausted
    same_end-ends input none reached = ok-ends tt
    same_end-ends input (some n) reached = ground arith

    materialize_site-ends :
        (input : DynamicInputMetadata) (v : Value) (start : ℕ) (expected : Option ℕ)
        (draft : MaterializedOperation rt) (site : DynamicInputSite)
        → depth v < fuel
        → materialize_site rt fuel input v start expected draft site ≢ exhausted
    unfolding materialize_site
    materialize_site-ends input v start expected draft site h =
        let s : Operands rt = record { parameters = draft.parameters; operand_index = start } in
        >>=-ends (render_site rt fuel input site v s) _ (render_site-ends input site v s h)
          λ shown _.
            >>=-ends (same_end rt input expected shown.1.operand_index) _
              (same_end-ends input expected shown.1.operand_index)
              λ _ _.
                >>=-ends (replace_dynamic_marker draft.sql site shown.0) _
                  (replace_dynamic_marker-ends draft.sql site shown.0) λ sql _. ok-ends _

    pub materialize_sites-ends :
        (input : DynamicInputMetadata) (v : Value) (start : ℕ) (expected : Option ℕ)
        (draft : MaterializedOperation rt) (sites : List DynamicInputSite)
        → depth v < fuel
        → materialize_sites rt fuel input v start expected draft sites ≢ exhausted
    unfolding materialize_sites
    materialize_sites-ends input v start expected draft [] h = ok-ends draft
    materialize_sites-ends input v start expected draft (site ∷ sites) h =
        >>=-ends (materialize_site rt fuel input v start expected draft site)
          (λ next. materialize_sites rt fuel input v start (some next.1) next.0 sites)
          (materialize_site-ends input v start expected draft site h)
          λ next _. materialize_sites-ends input v start (some next.1) next.0 sites h
