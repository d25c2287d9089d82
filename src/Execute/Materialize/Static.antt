-- ===== src/Execute/Materialize/Static.antt =====
-- crates/dsql-execute/src/lib.rs, `materialize`: the static parameters of a materialized operation.
use dsql.Prelude.{
  ℕ, zero, suc, String, true, Option, none, some, List, [], ◌∷◌, get_elem?, get_elem?-append_left,
  In, ◌≡◌, ◌↔◌, ◌⊎◌, refl, sym, ap, ◌∙◌, inl, inr, Option-cases, subst, string_eq,
}
use dsql.Metadata.Wire.{DefinitionKind, WireMetadata, ProviderTypeMetadata}
use dsql.Metadata.Input.{InputField}
use dsql.Metadata.Operation.{OperationMetadata, SqlParameterMetadata}
use dsql.Execute.Error.{ok, >>=-eq-ok, ok-injective, traverse}
use dsql.Execute.Runtime.{Runtime}
use dsql.Execute.Defaults.{is_collection}
use dsql.Execute.Inputs.{ExecutionBindings}
use dsql.Execute.Emit.{BoundParameter}
use dsql.Execute.Dynamic.{provider_type_of}
use dsql.Execute.Materialize.{
  Dictionary, MaterializedOperation, declared_from, declared, declared_fields, materialized_value,
  bind_parameter, draft_query, materialize_query, materialize_kind, materialize, collect_values,
  replace_variants,
}
use dsql.Execute.Materialize.Parameters.{materialize_dynamic_inputs-Extends}
use dsql.Execute.Materialize.Declared.{ok_or-some, declared_from-In, IsRead, collect_values-IsRead}

-- The field's name of its type in the provider, spelled out.
abbrev NamesProviderType : WireMetadata → Option (String × String) → Type 0
NamesProviderType wire none = wire.provider_type ≡ none
NamesProviderType wire (some (schema, name)) =
    (p : ProviderTypeMetadata) × (wire.provider_type ≡ some p)
    × (p.schema ≡ schema)
    × (p.name ≡ name)

provider_type_of-NamesProviderType :
    (wire : WireMetadata) → NamesProviderType wire (provider_type_of wire)
unfolding provider_type_of
provider_type_of-NamesProviderType wire = elim (Option-cases wire.provider_type) [
  | inl e ↦ rw e refl
  | inr (p, e) ↦ rw e (p, refl, refl, refl)
]

is_collection_iff :
    (field : InputField) → (is_collection field ≡ true) ↔ (field.collection ≡ some true)
is_collection_iff field = elim (Option-cases field.collection) [
  | inl e ↦ rw e (λ h. cc, λ h. cc)
  | inr (b, e) ↦ rw e (λ h. ap some h, λ h. cc)
]

module _ (rt : Runtime) (bindings : ExecutionBindings rt) (operation : OperationMetadata) where
  -- A bind for a parameter of the SQL text: the type, the encoding, the provider type and the
  -- cardinality of a declared field of its path, and the input value of a declared field of its path.
  pub record IsStatic (parameter : SqlParameterMetadata) (p : BoundParameter rt) : Type 0 where
    pub field : InputField
    pub listed : In field (declared_fields operation)
    pub named : field.path ≡ parameter.path
    pub path : p.path ≡ parameter.path
    pub data_type : p.data_type ≡ field.data_type
    pub wire : p.wire ≡ field.wire.encoding
    pub provider_type : NamesProviderType field.wire p.provider_type
    pub collection : (p.collection ≡ true) ↔ (field.collection ≡ some true)
    pub value : IsRead rt bindings (declared_fields operation) parameter.path p.value

  abbrev known : Dictionary InputField
  known = declared_from [] (declared_fields operation)

  bind_parameter-IsStatic :
      (values : Dictionary rt.Value) (parameter : SqlParameterMetadata) (p : BoundParameter rt)
      → collect_values rt bindings [] (declared_fields operation) ≡ ok values
      → bind_parameter rt known values parameter ≡ ok p
      → IsStatic parameter p
  unfolding bind_parameter declared materialized_value
  bind_parameter-IsStatic values parameter p collected e =
      let (field, found, e₁) = >>=-eq-ok (declared known parameter.path) _ e in
      let (v, valued, last) = >>=-eq-ok (materialized_value rt values parameter.path) _ e₁ in
      let (listed, named) = absent_before (
        declared_from-In [] (declared_fields operation) parameter.path field
          (ok_or-some _ _ _ found)) in
      let read = absent_before (
        collect_values-IsRead rt bindings [] (declared_fields operation) parameter.path v collected
          (ok_or-some _ _ _ valued)) in
      subst (IsStatic parameter) (ok-injective last) (record {
        field = field;
        listed = listed;
        named = named;
        path = refl;
        data_type = refl;
        wire = refl;
        provider_type = provider_type_of-NamesProviderType field.wire;
        collection = is_collection_iff field;
        value = read;
      })
    where
      absent_before : {A B : Type 0} {a : A} → (none ≡ some a) ⊎ B → B
      absent_before (inl h) = cc
      absent_before (inr b) = b

  abbrev Found : List (BoundParameter rt) → ℕ → SqlParameterMetadata → Type 0
  Found ps n parameter = (p : BoundParameter rt) × (get_elem? ps n ≡ some p) × IsStatic parameter p

  traverse-IsStatic :
      (values : Dictionary rt.Value) (parameters : List SqlParameterMetadata) (n : ℕ)
      (parameter : SqlParameterMetadata) (ps : List (BoundParameter rt))
      → collect_values rt bindings [] (declared_fields operation) ≡ ok values
      → traverse (bind_parameter rt known values) parameters ≡ ok ps
      → get_elem? parameters n ≡ some parameter
      → Found ps n parameter
  traverse-IsStatic values [] n parameter ps collected e h = cc
  traverse-IsStatic values (first ∷ parameters) zero parameter ps collected e h =
      let (p, bound, e₁) = >>=-eq-ok (bind_parameter rt known values first) _ e in
      let (rest, later, last) =
        >>=-eq-ok (traverse (bind_parameter rt known values) parameters) _ e₁ in
      let same : first ≡ parameter = cc in
      let static : IsStatic parameter p =
        subst (λ q. IsStatic q p) same (bind_parameter-IsStatic values first p collected bound) in
      subst (λ qs. Found qs zero parameter) (ok-injective last) (p, refl, static)
  traverse-IsStatic values (first ∷ parameters) (suc n) parameter ps collected e h =
      let (p, bound, e₁) = >>=-eq-ok (bind_parameter rt known values first) _ e in
      let (rest, later, last) =
        >>=-eq-ok (traverse (bind_parameter rt known values) parameters) _ e₁ in
      subst (λ qs. Found qs (suc n) parameter) (ok-injective last)
        (traverse-IsStatic values parameters n parameter rest collected later h)

  query-IsStatic :
      ((v : rt.Value) → rt.same_value v v ≡ true)
      → (fuel : ℕ) (m : MaterializedOperation rt) (n : ℕ) (parameter : SqlParameterMetadata)
      → materialize_query rt fuel operation bindings ≡ ok m
      → get_elem? operation.sql.parameters n ≡ some parameter
      → (p : BoundParameter rt) × (get_elem? m.parameters n ≡ some p) × IsStatic parameter p
  unfolding materialize_query draft_query
  query-IsStatic same_refl fuel m n parameter e h =
      let (values, collected, e₁) =
        >>=-eq-ok (collect_values rt bindings [] (declared_fields operation)) _ e in
      let (draft, made, e₂) = >>=-eq-ok (draft_query rt operation values) _ e₁ in
      let (sql, _, e₃) =
        >>=-eq-ok (replace_variants rt known values operation.sql.text operation.sql.variants) _
          made in
      let (ps, bound, last) =
        >>=-eq-ok (traverse (bind_parameter rt known values) operation.sql.parameters) _ e₃ in
      let (p, there, static) =
        traverse-IsStatic values operation.sql.parameters n parameter ps collected bound h in
      let drafted : ps ≡ draft.parameters =
        ap (λ (d : MaterializedOperation rt). d.parameters) (ok-injective last) in
      let (added, grown) =
        materialize_dynamic_inputs-Extends rt same_refl fuel values draft operation.dynamic_inputs
          e₂ in
      let in_draft : get_elem? draft.parameters n ≡ some p =
        ap (λ qs. get_elem? qs n) (sym drafted) ∙ there in
      (
        p,
        ap (λ qs. get_elem? qs n) grown ∙ get_elem?-append_left draft.parameters added n in_draft,
        static,
      )

  kind-IsStatic :
      ((v : rt.Value) → rt.same_value v v ≡ true)
      → (kind : DefinitionKind) (fuel : ℕ) (m : MaterializedOperation rt) (n : ℕ)
        (parameter : SqlParameterMetadata)
      → materialize_kind rt kind fuel operation bindings ≡ ok m
      → get_elem? operation.sql.parameters n ≡ some parameter
      → (kind ≡ DefinitionKind.query)
        × (p : BoundParameter rt) × (get_elem? m.parameters n ≡ some p)
        × IsStatic parameter p
  unfolding materialize_kind
  kind-IsStatic same_refl DefinitionKind.query fuel m n parameter e h =
      let (p, there, static) = query-IsStatic same_refl fuel m n parameter e h in
      (refl, p, there, static)
  kind-IsStatic same_refl DefinitionKind.fragment fuel m n parameter e h = cc

  -- A materialized operation is a query. For every position among the parameters that its SQL text
  -- numbers, the materialized parameter at the same position is bound for that parameter: it has its
  -- path, the type, the encoding, the provider type and the cardinality of a declared field of that
  -- path, and a value that `input_value` gives for a declared field of that path. No dynamic input
  -- moves or replaces it. The equality of values must be reflexive.
  pub materialize-IsStatic :
      ((v : rt.Value) → rt.same_value v v ≡ true)
      → (fuel : ℕ) (m : MaterializedOperation rt) (n : ℕ) (parameter : SqlParameterMetadata)
      → materialize rt fuel operation bindings ≡ ok m
      → get_elem? operation.sql.parameters n ≡ some parameter
      → (operation.kind ≡ DefinitionKind.query)
        × (p : BoundParameter rt) × (get_elem? m.parameters n ≡ some p)
        × IsStatic parameter p
  unfolding materialize
  materialize-IsStatic same_refl fuel m n parameter e h =
      kind-IsStatic same_refl operation.kind fuel m n parameter e h
