-- ===== src/Execute/Bind.antt =====
-- crates/dsql-execute/src/lib.rs, `bind`: the typed argument that each parameter becomes. A query is
-- the list of arguments bound so far.
pub mod Total
pub mod Accepted
pub mod Inputs
pub mod Tests
use dsql.Prelude.{
  String, Bool, true, false, Option, none, some, List, [], ◌∷◌, ◌++◌, if◌then◌else◌, format,
}
use dsql.Prelude.Int.{ℤ, parse_i64}
use dsql.Metadata.Wire.{WireEncoding}
use dsql.Execute.Error.{
  ExecuteError, invalid_input, unsupported_type, invalid_json_parameter, Result, ok, err, ◌>>=◌,
  ok_or, traverse,
}
use dsql.Execute.Runtime.{Runtime}
use dsql.Execute.Scalars.{and_then, string_value, integer_value, big_integer_value, float_value}
use dsql.Execute.Emit.{BoundParameter}

module _ (rt : Runtime) where
  open rt use {
    Value, Float, Uuid, Timestamp, Decimal, Raw, is_null, as_bool, as_array, parse_uuid,
    parse_timestamp, parse_decimal, to_raw, raw_error,
  }

  -- What is sent for one placeholder; `none` is SQL null.
  pub data Argument : Type 0 where
    uuid : Option Uuid → Argument
    text : Option String → Argument
    timestamptz : Option Timestamp → Argument
    integer : Option ℤ → Argument
    numeric : Option Decimal → Argument
    float : Option Float → Argument
    boolean : Option Bool → Argument
    json : Option Raw → Argument
    uuids : Option (List (Option Uuid)) → Argument
    texts : Option (List (Option String)) → Argument
    timestamps : Option (List (Option Timestamp)) → Argument
    integers : Option (List (Option ℤ)) → Argument
    numerics : Option (List (Option Decimal)) → Argument
    floats : Option (List (Option Float)) → Argument
    booleans : Option (List (Option Bool)) → Argument
    jsons : Option (List (Option Raw)) → Argument

  abbrev pub Query : Type 0
  Query = List Argument

  abbrev unsupported_bind : BoundParameter rt → Result Argument
  unsupported_bind p = err (unsupported_type p.path p.data_type)

  unfoldable pub json_raw_value : String → Value → Result Raw
  json_raw_value path v = ok_or (to_raw v) (invalid_json_parameter path (raw_error v))

  unfoldable pub null_scalar : WireEncoding → BoundParameter rt → Result Argument
  null_scalar WireEncoding.uuid p = ok (uuid none)
  null_scalar WireEncoding.text p = ok (text none)
  null_scalar WireEncoding.text_cast p = ok (text none)
  null_scalar WireEncoding.timestamptz p = ok (timestamptz none)
  null_scalar WireEncoding.integer p = ok (integer none)
  null_scalar WireEncoding.big_integer p = ok (integer none)
  null_scalar WireEncoding.numeric p = ok (numeric none)
  null_scalar WireEncoding.float p = ok (float none)
  null_scalar WireEncoding.boolean p = ok (boolean none)
  null_scalar WireEncoding.json p = ok (json none)
  null_scalar WireEncoding.unsupported p = unsupported_bind p

  -- Parses a string value; the error is one for every failure.
  abbrev parsed {ℓ} : {A : Type ℓ} → (String → Option A) → Value → ExecuteError → Result A
  parsed parse v e = ok_or (and_then (string_value rt v) parse) e

  pub present_scalar : WireEncoding → BoundParameter rt → ExecuteError → Result Argument
  present_scalar WireEncoding.uuid p e = do x ← parsed parse_uuid p.value e; ok (uuid (some x))
  present_scalar WireEncoding.text p e = do
    x ← ok_or (string_value rt p.value) e
    ok (text (some x))
  present_scalar WireEncoding.text_cast p e = do
    x ← ok_or (string_value rt p.value) e
    ok (text (some x))
  present_scalar WireEncoding.timestamptz p e = do
    x ← parsed parse_timestamp p.value e
    ok (timestamptz (some x))
  present_scalar WireEncoding.integer p e = do
    x ← ok_or (integer_value rt p.value) e
    ok (integer (some x))
  present_scalar WireEncoding.big_integer p e = do
    x ← ok_or (big_integer_value rt p.value) e
    ok (integer (some x))
  present_scalar WireEncoding.numeric p e = do
    x ← parsed parse_decimal p.value e
    ok (numeric (some x))
  present_scalar WireEncoding.float p e = do
    x ← ok_or (float_value rt p.value) e
    ok (float (some x))
  present_scalar WireEncoding.boolean p e = do x ← ok_or (as_bool p.value) e; ok (boolean (some x))
  present_scalar WireEncoding.json p e = do x ← json_raw_value p.path p.value; ok (json (some x))
  present_scalar WireEncoding.unsupported p e = unsupported_bind p

  unfoldable pub bind_scalar : BoundParameter rt → Result Argument
  unfolding null_scalar present_scalar
  bind_scalar p =
      if is_null p.value
      then null_scalar p.wire p
      else present_scalar p.wire p (invalid_input p.path p.data_type)

  unfoldable pub null_collection : WireEncoding → BoundParameter rt → Result Argument
  null_collection WireEncoding.uuid p = ok (uuids none)
  null_collection WireEncoding.text p = ok (texts none)
  null_collection WireEncoding.text_cast p = ok (texts none)
  null_collection WireEncoding.timestamptz p = ok (timestamps none)
  null_collection WireEncoding.integer p = ok (integers none)
  null_collection WireEncoding.big_integer p = ok (integers none)
  null_collection WireEncoding.numeric p = ok (numerics none)
  null_collection WireEncoding.float p = ok (floats none)
  null_collection WireEncoding.boolean p = ok (booleans none)
  null_collection WireEncoding.json p = ok (jsons none)
  null_collection WireEncoding.unsupported p = unsupported_bind p

  -- `map` and `collect` of elements that may be null; `none` when one does not fit.
  unfoldable pub elements {ℓ} :
      {A : Type ℓ} → (Value → Option A) → List Value → Option (List (Option A))
  elements read [] = some []
  elements read (v ∷ vs) =
      let rest = elements read vs in
      and_then (if is_null v then some none else and_then (read v) (λ a. some (some a)))
        (λ x. and_then rest (λ xs. some (x ∷ xs)))

  -- Integers, floats and booleans are read before the null test, with the same result where a null
  -- value has no such reading.
  unfoldable pub read_first {ℓ} :
      {A : Type ℓ} → (Value → Option A) → List Value → Option (List (Option A))
  read_first read [] = some []
  read_first read (v ∷ vs) =
      let rest = read_first read vs in
      let or_null = if is_null v then some none else none in
      and_then (elim (read v) [ none ↦ or_null | some a ↦ some (some a) ])
        (λ x. and_then rest (λ xs. some (x ∷ xs)))

  abbrev pub string_as {ℓ} : {A : Type ℓ} → (String → Option A) → Value → Option A
  string_as parse v = and_then (string_value rt v) parse

  pub json_element : String → Value → Result (Option Raw)
  json_element path v = if is_null v then ok none else (do x ← json_raw_value path v; ok (some x))

  pub present_collection :
      WireEncoding → BoundParameter rt → List Value → ExecuteError → Result Argument
  unfolding json_element
  present_collection WireEncoding.uuid p vs e = do
    xs ← ok_or (elements (string_as parse_uuid) vs) e
    ok (uuids (some xs))
  present_collection WireEncoding.text p vs e = do
    xs ← ok_or (elements (string_value rt) vs) e
    ok (texts (some xs))
  present_collection WireEncoding.text_cast p vs e = do
    xs ← ok_or (elements (string_value rt) vs) e
    ok (texts (some xs))
  present_collection WireEncoding.timestamptz p vs e = do
    xs ← ok_or (elements (string_as parse_timestamp) vs) e
    ok (timestamps (some xs))
  present_collection WireEncoding.integer p vs e = do
    xs ← ok_or (read_first (integer_value rt) vs) e
    ok (integers (some xs))
  present_collection WireEncoding.big_integer p vs e = do
    xs ← ok_or (elements (string_as parse_i64) vs) e
    ok (integers (some xs))
  present_collection WireEncoding.numeric p vs e = do
    xs ← ok_or (elements (string_as parse_decimal) vs) e
    ok (numerics (some xs))
  present_collection WireEncoding.float p vs e = do
    xs ← ok_or (read_first (float_value rt) vs) e
    ok (floats (some xs))
  present_collection WireEncoding.boolean p vs e = do
    xs ← ok_or (read_first as_bool vs) e
    ok (booleans (some xs))
  present_collection WireEncoding.json p vs e = do
    xs ← traverse (json_element p.path) vs
    ok (jsons (some xs))
  present_collection WireEncoding.unsupported p vs e = unsupported_bind p

  unfoldable pub bind_collection : BoundParameter rt → Result Argument
  unfolding null_collection present_collection
  bind_collection p = if is_null p.value then null_collection p.wire p else do
    vs ←
        ok_or (as_array p.value) (invalid_input p.path (format ("an array of " ∷ p.data_type ∷ [])))
    present_collection p.wire p vs
        (invalid_input p.path (format ("an array of " ∷ p.data_type ∷ [])))

  unfoldable pub bind : Query → BoundParameter rt → Result Query
  unfolding bind_scalar bind_collection
  bind query p = do
    argument ← (if p.collection then bind_collection p else bind_scalar p)
    ok (query ++ argument ∷ [])

  -- The loop of `execute_materialized` over the parameters.
  unfoldable pub bind_all : Query → List (BoundParameter rt) → Result Query
  unfolding bind
  bind_all query [] = ok query
  bind_all query (p ∷ ps) = bind query p >>= λ next. bind_all next ps
