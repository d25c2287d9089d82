-- ===== src/Execute/Bind/Total.antt =====
-- crates/dsql-execute/src/lib.rs: every input that the checks accept has an argument to bind.
use dsql.Prelude.{
  String, Bool, true, false, ◌||◌, Option, List, [], ◌∷◌, all, ◌≡◌, ◌≢◌, refl, arith,
}
use dsql.Metadata.Wire.{
  WireEncoding, wire_eq, uuid, text, timestamptz, integer, big_integer, numeric, float, boolean,
  json, text_cast, unsupported,
}
use dsql.Execute.Error.{ExecuteError, Result, ok, err, exhausted, traverse}
use dsql.Execute.Runtime.{Runtime}
use dsql.Execute.Scalars.{is_some, integer_value, input_wire_accepts}
use dsql.Execute.Emit.{BoundParameter}
use dsql.Execute.Bind.{
  json_raw_value, null_scalar, present_scalar, null_collection, elements, read_first, json_element,
}

abbrev pub is_ok {ℓ} : {A : Type ℓ} → Result A → Bool
is_ok (ok _) = true
is_ok _ = false

pub is_ok-value {ℓ} : {A : Type ℓ} (r : Result A) → is_ok r ≡ true → (a : A) × (r ≡ ok a)
is_ok-value (ok a) h = (a, refl)
is_ok-value (err e) h = cc
is_ok-value exhausted h = cc

pub all_mono {ℓ} :
    {A : Type ℓ} (xs : List A) (p q : A → Bool)
    → ((x : A) → p x ≡ true → q x ≡ true)
    → all xs p ≡ true
    → all xs q ≡ true
all_mono [] p q h k = refl
all_mono (x ∷ xs) p q h k = ground (arith, h x, all_mono xs p q h)

module _ (rt : Runtime) where
  open rt use {
    Value, Raw, is_null, as_array, as_bool, to_raw, parse_uuid, parse_timestamp, parse_decimal,
  }

  pub null_scalar-ok :
      (w : WireEncoding) (p : BoundParameter rt)
      → w ≢ unsupported
      → is_ok (null_scalar rt w p) ≡ true
  unfolding null_scalar
  null_scalar-ok uuid p h = refl
  null_scalar-ok text p h = refl
  null_scalar-ok text_cast p h = refl
  null_scalar-ok timestamptz p h = refl
  null_scalar-ok integer p h = refl
  null_scalar-ok big_integer p h = refl
  null_scalar-ok numeric p h = refl
  null_scalar-ok float p h = refl
  null_scalar-ok boolean p h = refl
  null_scalar-ok json p h = refl
  null_scalar-ok unsupported p h = absurd (h refl)

  pub null_collection-ok :
      (w : WireEncoding) (p : BoundParameter rt)
      → w ≢ unsupported
      → is_ok (null_collection rt w p) ≡ true
  unfolding null_collection
  null_collection-ok uuid p h = refl
  null_collection-ok text p h = refl
  null_collection-ok text_cast p h = refl
  null_collection-ok timestamptz p h = refl
  null_collection-ok integer p h = refl
  null_collection-ok big_integer p h = refl
  null_collection-ok numeric p h = refl
  null_collection-ok float p h = refl
  null_collection-ok boolean p h = refl
  null_collection-ok json p h = refl
  null_collection-ok unsupported p h = absurd (h refl)

  -- Every value has raw JSON.
  abbrev pub HasRaw : Type 0
  HasRaw = (v : Value) → is_some (to_raw v) ≡ true

  -- What the checks of an input ask of a present scalar.
  abbrev pub fits : WireEncoding → Value → Bool
  fits integer v = is_some (integer_value rt v)
  fits w v = input_wire_accepts rt w v

  pub present_scalar-ok :
      HasRaw
      → (w : WireEncoding) (p : BoundParameter rt) (e : ExecuteError) → fits w p.value ≡ true
      → is_ok (present_scalar rt w p e) ≡ true
  unfolding present_scalar input_wire_accepts json_raw_value
  present_scalar-ok raw uuid p e h = ground arith
  present_scalar-ok raw text p e h = ground arith
  present_scalar-ok raw text_cast p e h = ground arith
  present_scalar-ok raw timestamptz p e h = ground arith
  present_scalar-ok raw integer p e h = ground arith
  present_scalar-ok raw big_integer p e h = ground arith
  present_scalar-ok raw numeric p e h = ground arith
  present_scalar-ok raw float p e h = ground arith
  present_scalar-ok raw boolean p e h = ground arith
  present_scalar-ok raw json p e h = ground (arith, raw p.value)
  present_scalar-ok raw unsupported p e h = cc

  module _ {ℓ} {A : Type ℓ} (read : Value → Option A) where
    pub elements-total :
        (vs : List Value)
        → all vs (λ v. is_null v || is_some (read v)) ≡ true
        → is_some (elements rt read vs) ≡ true
    unfolding elements
    elements-total [] h = refl
    elements-total (v ∷ vs) h = ground (arith, elements-total vs)

    pub read_first-total :
        (vs : List Value)
        → all vs (λ v. is_null v || is_some (read v)) ≡ true
        → is_some (read_first rt read vs) ≡ true
    unfolding read_first
    read_first-total [] h = refl
    read_first-total (v ∷ vs) h = ground (arith, read_first-total vs)

  pub json-total :
      HasRaw → (path : String) (vs : List Value) → is_ok (traverse (json_element rt path) vs) ≡ true
  unfolding json_element json_raw_value
  json-total raw path [] = refl
  json-total raw path (v ∷ vs) = ground (arith, raw v, json-total raw path vs)
