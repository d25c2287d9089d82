-- ===== src/Execute/Inputs/Context.antt =====
-- crates/dsql-execute/src/lib.rs, `input_value`: which envelope an input is read from.
use dsql.Prelude.{String, Option, none, some, ◌≡◌, refl, sym, strip_prefix, true}
use dsql.Metadata.Input.{InputField}
use dsql.Execute.Error.{ok, >>=-eq-ok}
use dsql.Execute.Runtime.{Runtime}
use dsql.Execute.Inputs.Accepted.{checked-eq-ok}
use dsql.Execute.Inputs.{ExecutionBindings, lookup_path, omitted, resolve, input_from, input_value}

-- The bindings hold the same envelope for the field: the trusted context for a path under
-- `context.`, the variables for any other.
abbrev pub SameFrom :
    (rt : Runtime) → Option String → ExecutionBindings rt → ExecutionBindings rt → Type 0
SameFrom rt none b c = b.variables ≡ c.variables
SameFrom rt (some _) b c = b.context ≡ c.context

abbrev pub SameEnvelope :
    (rt : Runtime) → InputField → ExecutionBindings rt → ExecutionBindings rt → Type 0
SameEnvelope rt field b c = SameFrom rt (strip_prefix "context." field.path) b c

module _ (rt : Runtime) where
  from-envelope :
      (field : InputField) (b c : ExecutionBindings rt) (o : Option String)
      → SameFrom rt o b c
      → input_from rt field b o ≡ input_from rt field c o
  unfolding input_from
  from-envelope field b c none same = rw same refl
  from-envelope field b c (some path) same = rw same refl

  -- An input depends on the envelope that its path names and on nothing else: variables never
  -- reach a field under `context.`, and the trusted context never reaches another field.
  pub input_value-envelope :
      (field : InputField) (b c : ExecutionBindings rt)
      → SameEnvelope rt field b c
      → input_value rt field b ≡ input_value rt field c
  unfolding input_value
  input_value-envelope field b c same = from-envelope field b c _ same

  trusted-resolve :
      (field : InputField) (found : Option rt.Value) {r : Option rt.Value}
      → resolve rt field true found ≡ ok r
      → (v : rt.Value) × (r ≡ some v) × (found ≡ some v)
  unfolding resolve omitted
  trusted-resolve field none h = cc
  trusted-resolve field (some v) h = (v, (checked-eq-ok rt field v h).0, refl)

  -- A field under `context.` that has a value has the one that stands at its path in the trusted
  -- context; a default never replaces it, and it is never left out.
  pub input_value-trusted :
      (field : InputField) (b : ExecutionBindings rt) (path : String) (r : Option rt.Value)
      → strip_prefix "context." field.path ≡ some path
      → input_value rt field b ≡ ok r
      → (v : rt.Value) × (r ≡ some v) × (lookup_path rt b.context path field.path ≡ ok (some v))
  unfolding input_value input_from
  input_value-trusted field b path r e h =
      let (found, looked, later) =
        >>=-eq-ok (lookup_path rt b.context path field.path) (resolve rt field true) (rw e at h) in
      let (v, given, there) = trusted-resolve field found later in (v, given, rw (sym there) looked)
