-- ===== src/Execute/Bind/Accepted.antt =====
-- crates/dsql-execute/src/lib.rs: an input that the checks accept is bound.
use dsql.Prelude.{
  String, Bool, true, false, ◌||◌, Option, some, List, [], ◌∷◌, all, ◌≡◌, ◌≢◌, refl, inl, inr, ◌⊎◌,
  Bool-cases, Option-cases, arith, ◌==◌, format,
}
use dsql.Metadata.Wire.{
  WireEncoding, wire_eq, uuid, text, timestamptz, integer, big_integer, numeric, float, boolean,
  json, text_cast, unsupported,
}
use dsql.Metadata.Input.{InputField}
use dsql.Execute.Error.{invalid_input, ExecuteError, ok}
use dsql.Execute.Runtime.{Runtime}
use dsql.Execute.Scalars.{
  is_some, is_some_and, string_value, integer_value, big_integer_value, float_value,
  input_wire_accepts, input_scalar_is_valid,
}
use dsql.Execute.Defaults.{is_collection}
use dsql.Execute.Inputs.{
  is_dynamic, is_safe_value, validate_safe_integer, validate_input_wire, checked,
}
use dsql.Execute.Inputs.Accepted.{checked-eq-ok}
use dsql.Execute.Emit.{BoundParameter}
use dsql.Execute.Dynamic.{provider_type_of}
use dsql.Execute.Bind.{
  Argument, bind_scalar, string_as, elements, present_collection, bind_collection, bind,
}
use dsql.Execute.Bind.Total.{
  is_ok, all_mono, null_scalar-ok, null_collection-ok, HasRaw, fits, present_scalar-ok,
  elements-total, read_first-total, json-total,
}

module _ (rt : Runtime) where
  open rt use {Value, is_null, as_array, as_bool, to_raw}

  -- Null, or an element that fits.
  abbrev pub fits_or_null : WireEncoding → Value → Bool
  fits_or_null w v = is_null v || fits rt w v

  parse-total {ℓ} :
      {A : Type ℓ} (parse : String → Option A) (vs : List Value)
      → all vs (λ v. is_null v || is_some_and (string_value rt v) (λ s. is_some (parse s))) ≡ true
      → is_some (elements rt (string_as rt parse) vs) ≡ true
  parse-total parse vs h =
      elements-total rt (string_as rt parse) vs (all_mono vs _ _ (λ v accepted. ground arith) h)

  present_collection-ok :
      HasRaw rt
      → (w : WireEncoding) (p : BoundParameter rt) (vs : List Value) (e : ExecuteError)
      → w ≢ unsupported
      → all vs (fits_or_null w) ≡ true
      → is_ok (present_collection rt w p vs e) ≡ true
  unfolding present_collection input_wire_accepts big_integer_value
  present_collection-ok raw uuid p vs e n h = ground (arith, parse-total rt.parse_uuid vs h)
  present_collection-ok raw text p vs e n h =
      ground (arith, elements-total rt (string_value rt) vs h)
  present_collection-ok raw text_cast p vs e n h =
      ground (arith, elements-total rt (string_value rt) vs h)
  present_collection-ok raw timestamptz p vs e n h =
      ground (arith, parse-total rt.parse_timestamp vs h)
  present_collection-ok raw integer p vs e n h =
      ground (arith, read_first-total rt (integer_value rt) vs h)
  present_collection-ok raw big_integer p vs e n h =
      ground (arith, elements-total rt (big_integer_value rt) vs h)
  present_collection-ok raw numeric p vs e n h = ground (arith, parse-total rt.parse_decimal vs h)
  present_collection-ok raw float p vs e n h =
      ground (arith, read_first-total rt (float_value rt) vs h)
  present_collection-ok raw boolean p vs e n h = ground (arith, read_first-total rt as_bool vs h)
  present_collection-ok raw json p vs e n h = ground (arith, json-total rt raw p.path vs)
  present_collection-ok raw unsupported p vs e n h = absurd (n refl)

  -- What the checks have established of a field's value.
  abbrev pub ValueFits : InputField → Value → Type 0
  ValueFits field v =
      (is_null v ≡ true)
      ⊎ ((is_collection field ≡ false) × (fits rt field.wire.encoding v ≡ true))
      ⊎ ((is_collection field ≡ true)
          × (vs : List Value) × (as_array v ≡ some vs)
          × (all vs (fits_or_null field.wire.encoding) ≡ true))

  all-safe :
      (vs : List Value)
      → all vs (λ x. is_null x || is_safe_value rt x) ≡ true
      → all vs (fits_or_null integer) ≡ true
  unfolding is_safe_value
  all-safe vs h = all_mono vs _ _ (λ v safe. ground arith) h

  integer-fits :
      (field : InputField) (v : Value)
      → field.wire.encoding ≡ integer
      → validate_safe_integer rt field v ≡ ok tt
      → ValueFits field v
  unfolding validate_safe_integer is_safe_value
  integer-fits field v e h = elim (Bool-cases (is_null v)) [
    | inl n ↦ inl n
    | inr p ↦ elim (Bool-cases (is_collection field)) [
      | inr single ↦ inr (inl (single, rw e (ground arith)))
      | inl many ↦ elim (Option-cases (as_array v)) [
        | inl a ↦ absurd (ground arith)
        | inr (vs, a) ↦ inr (inr (many, vs, a, rw e (all-safe vs (ground arith))))
      ]
    ]
  ]

  fits-other :
      (w : WireEncoding) (v : Value)
      → (w == integer) ≡ false
      → input_wire_accepts rt w v ≡ true
      → fits rt w v ≡ true
  fits-other uuid v n h = h
  fits-other text v n h = h
  fits-other text_cast v n h = h
  fits-other timestamptz v n h = h
  fits-other integer v n h = ground (arith, (wire_eq.beq_iff integer integer).1 refl)
  fits-other big_integer v n h = h
  fits-other numeric v n h = h
  fits-other float v n h = h
  fits-other boolean v n h = h
  fits-other json v n h = h
  fits-other unsupported v n h = h

  scalar-fits :
      (field : InputField) (v : Value)
      → (field.wire.encoding == integer) ≡ false
      → input_scalar_is_valid rt field v ≡ true
      → fits rt field.wire.encoding v ≡ true
  unfolding input_scalar_is_valid
  scalar-fits field v n h = fits-other field.wire.encoding v n (ground arith)

  all-fit :
      (field : InputField) (vs : List Value)
      → (field.wire.encoding == integer) ≡ false
      → all vs (λ x. is_null x || input_scalar_is_valid rt field x) ≡ true
      → all vs (fits_or_null field.wire.encoding) ≡ true
  all-fit field vs n h = all_mono vs _ _ (λ v valid. ground (arith, scalar-fits field v n)) h

  other-fits :
      (field : InputField) (v : Value)
      → (field.wire.encoding == integer) ≡ false
      → is_dynamic field.data_type ≡ false
      → validate_input_wire rt field v ≡ ok tt
      → ValueFits field v
  unfolding validate_input_wire
  other-fits field v n d h = elim (Bool-cases (is_null v)) [
    | inl e ↦ inl e
    | inr p ↦ elim (Bool-cases (is_collection field)) [
      | inr single ↦ inr (inl (single, scalar-fits field v n (ground arith)))
      | inl many ↦ elim (Option-cases (as_array v)) [
        | inl a ↦ absurd (ground arith)
        | inr (vs, a) ↦ inr (inr (many, vs, a, all-fit field vs n (ground arith)))
      ]
    ]
  ]

  pub checked-fits :
      (field : InputField) (v : Value) {r : Option Value}
      → is_dynamic field.data_type ≡ false
      → checked rt field v ≡ ok r
      → ValueFits field v
  checked-fits field v d h =
      let (_, _, safe, wire) = checked-eq-ok rt field v h in
      elim (Bool-cases (field.wire.encoding == integer)) [
        | inl e ↦ integer-fits field v ((wire_eq.beq_iff _ _).0 e) safe
        | inr n ↦ other-fits field v n d wire
      ]

  -- The parameter that an accepted value becomes.
  abbrev pub parameter_of : InputField → Value → BoundParameter rt
  parameter_of field v = record {
    path = field.path;
    data_type = field.data_type;
    wire = field.wire.encoding;
    provider_type = provider_type_of field.wire;
    collection = is_collection field;
    value = v;
  }

  pub fitting-binds :
      HasRaw rt
      → (field : InputField) (v : Value) (query : List (Argument rt))
      → field.wire.encoding ≢ unsupported
      → ValueFits field v
      → is_ok (bind rt query (parameter_of field v)) ≡ true
  unfolding bind bind_scalar bind_collection
  fitting-binds raw field v query n (inl null) = ground (
    arith,
    null_scalar-ok rt field.wire.encoding (parameter_of field v) n,
    null_collection-ok rt field.wire.encoding (parameter_of field v) n,
  )
  fitting-binds raw field v query n (inr (inl (single, f))) =
      let p = parameter_of field v in
      ground (
        arith,
        null_scalar-ok rt field.wire.encoding p n,
        present_scalar-ok rt raw field.wire.encoding p (invalid_input p.path p.data_type) f,
      )
  fitting-binds raw field v query n (inr (inr (many, vs, a, f))) =
      let p = parameter_of field v in
      ground (
        arith,
        null_collection-ok rt field.wire.encoding p n,
        present_collection-ok raw field.wire.encoding p vs
            (invalid_input p.path (format ("an array of " ∷ p.data_type ∷ []))) n f,
      )
