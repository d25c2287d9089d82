-- ===== src/Execute/Materialize/Declared.antt =====
-- crates/dsql-execute/src/lib.rs, `materialize`: the declared fields and the values collected for them.
use dsql.Prelude.{
  String, Option, none, some, List, [], ◌∷◌, In, ◌≡◌, ◌⊎◌, refl, sym, ap, ◌∙◌, arith, Bool-cases,
  inl, inr, ◌==◌, string_eq,
}
use dsql.Metadata.Input.{InputField}
use dsql.Execute.Error.{ok, ok_or, ExecuteError, >>=-eq-ok, ok-injective}
use dsql.Execute.Runtime.{Runtime}
use dsql.Execute.Inputs.{get, ExecutionBindings, input_value}
use dsql.Execute.Materialize.{Dictionary, declared_from, with_value, collect_values}

pub ok_or-some :
    {A : Type 0} (o : Option A) (e : ExecuteError) (a : A) → ok_or o e ≡ ok a → o ≡ some a
ok_or-some none e a h = cc
ok_or-some (some b) e a h = ap some (ok-injective h)

get-front :
    {A : Type 0} (key path : String) (a b : A) (rest : Dictionary A)
    → get ((key, a) ∷ rest) path ≡ some b
    → ((key ≡ path) × (a ≡ b)) ⊎ (get rest path ≡ some b)
get-front key path a b rest h = elim (Bool-cases (key == path)) [
  | inl e ↦ inl ((string_eq.beq_iff key path).0 e, let found : some a ≡ some b = rw e at h in cc)
  | inr e ↦ inr (ground (arith, h, e))
]

-- A field that is found under a path has that path and is among those declared.
pub declared_from-In :
    (known : Dictionary InputField) (fields : List InputField) (path : String) (f : InputField)
    → get (declared_from known fields) path ≡ some f
    → (get known path ≡ some f) ⊎ (In f fields × (f.path ≡ path))
unfolding declared_from
declared_from-In known [] path f h = inl h
declared_from-In known (field ∷ fields) path f h =
    elim (declared_from-In ((field.path, field) ∷ known) fields path f h) [
      | inr (there, same) ↦ inr (inr there, same)
      | inl early ↦ elim (get-front field.path path field f known early) [
        | inr older ↦ inl older
        | inl (named, same) ↦ inr (inl (sym same), ap (λ x. x.path) (sym same) ∙ named)
      ]
    ]

module _ (rt : Runtime) (bindings : ExecutionBindings rt) where
  -- A value that an operation is run with is the input value of a declared field of that path.
  pub record IsRead (fields : List InputField) (path : String) (v : rt.Value) : Type 0 where
    pub source : InputField
    pub listed : In source fields
    pub named : source.path ≡ path
    pub read : input_value rt source bindings ≡ ok (some v)

  later-IsRead :
      {field : InputField} {fields : List InputField} {path : String} {v : rt.Value}
      → IsRead fields path v
      → IsRead (field ∷ fields) path v
  later-IsRead r = record {
    source = r.source;
    listed = inr r.listed;
    named = r.named;
    read = r.read;
  }

  with_value-IsRead :
      (field : InputField) (fields : List InputField) (given : Option rt.Value)
      (values : Dictionary rt.Value) (path : String) (v : rt.Value)
      → input_value rt field bindings ≡ ok given
      → get (with_value rt field given values) path ≡ some v
      → (get values path ≡ some v) ⊎ IsRead (field ∷ fields) path v
  with_value-IsRead field fields none values path v read h = inl h
  with_value-IsRead field fields (some w) values path v read h =
      elim (get-front field.path path w v values h) [
        | inr older ↦ inl older
        | inl (named, same) ↦ inr (record {
          source = field;
          listed = inl refl;
          named = named;
          read = read ∙ ap (λ x. ok (some x)) same;
        })
      ]

  pub collect_values-IsRead :
      (values : Dictionary rt.Value) (fields : List InputField) (path : String) (v : rt.Value)
      {out : Dictionary rt.Value}
      → collect_values rt bindings values fields ≡ ok out
      → get out path ≡ some v
      → (get values path ≡ some v) ⊎ IsRead fields path v
  unfolding collect_values
  collect_values-IsRead values [] path v e h = inl (ap (λ d. get d path) (ok-injective e) ∙ h)
  collect_values-IsRead values (field ∷ fields) path v e h =
      let (given, first, rest) = >>=-eq-ok (input_value rt field bindings) _ e in
      elim (collect_values-IsRead (with_value rt field given values) fields path v rest h) [
        | inr later ↦ inr (later-IsRead later)
        | inl early ↦ with_value-IsRead field fields given values path v first early
      ]
