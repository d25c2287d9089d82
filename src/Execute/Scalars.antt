-- ===== src/Execute/Scalars.antt =====
-- crates/dsql-execute/src/lib.rs: scalar accessors and the validity of one value for a wire encoding.
use dsql.Prelude.{ℕ, String, Bool, true, false, ◌&&◌, Option, none, some, ltb, leb, if◌then◌else◌}
use dsql.Prelude.Int.{ℤ, pos, negsuc, parse_i64}
use dsql.Metadata.Wire.{
  WireEncoding, uuid, text, timestamptz, integer, big_integer, numeric, float, boolean, json,
  text_cast, unsupported,
}
use dsql.Metadata.Input.{InputField}
use dsql.Execute.Runtime.{Runtime}

abbrev pub max_safe_integer : ℕ
max_safe_integer = 9007199254740991

-- `MIN_SAFE_INTEGER..=MAX_SAFE_INTEGER`; `negsuc n` is -(n + 1).
unfoldable pub is_safe_integer : ℤ → Bool
is_safe_integer (pos n) = leb n max_safe_integer
is_safe_integer (negsuc n) = ltb n max_safe_integer

-- `Option::is_some_and`
abbrev pub is_some_and {ℓ} : {A : Type ℓ} → Option A → (A → Bool) → Bool
is_some_and none p = false
is_some_and (some a) p = p a

abbrev pub is_some {ℓ} : {A : Type ℓ} → Option A → Bool
is_some none = false
is_some (some a) = true

abbrev pub and_then {ℓ κ} : {A : Type ℓ} {B : Type κ} → Option A → (A → Option B) → Option B
and_then none f = none
and_then (some a) f = f a

module _ (rt : Runtime) where
  open rt use {
    Value, Float, as_bool, as_string, as_number, is_integer, to_i64, to_float, is_finite,
    parse_uuid, parse_timestamp, parse_decimal, compile, is_match,
  }

  unfoldable pub string_value : Value → Option String
  string_value v = as_string v

  unfoldable pub integer_value : Value → Option ℤ
  integer_value v = and_then (as_number v) (λ n. if is_integer n then to_i64 n else none)

  unfoldable pub big_integer_value : Value → Option ℤ
  unfolding string_value
  big_integer_value v = and_then (string_value v) parse_i64

  unfoldable pub float_value : Value → Option Float
  float_value v =
      and_then (as_number v) (λ n. let x = to_float n in if is_finite x then some x else none)

  -- The cache of compiled patterns changes no result.
  unfoldable pub pattern_is_valid : Option String → Value → Bool
  unfolding string_value
  pattern_is_valid none v = true
  pattern_is_valid (some pattern) v =
      is_some_and (string_value v) (λ s. is_some_and (compile pattern) (λ r. is_match r s))

  -- The `match` of `input_scalar_is_valid`.
  unfoldable pub input_wire_accepts : WireEncoding → Value → Bool
  unfolding string_value big_integer_value float_value
  input_wire_accepts uuid v = is_some_and (string_value v) (λ s. is_some (parse_uuid s))
  input_wire_accepts text v = is_some (string_value v)
  input_wire_accepts text_cast v = is_some (string_value v)
  input_wire_accepts timestamptz v = is_some_and (string_value v) (λ s. is_some (parse_timestamp s))
  input_wire_accepts big_integer v = is_some (big_integer_value v)
  input_wire_accepts numeric v = is_some_and (string_value v) (λ s. is_some (parse_decimal s))
  input_wire_accepts float v = is_some (float_value v)
  input_wire_accepts boolean v = is_some (as_bool v)
  input_wire_accepts json v = true
  input_wire_accepts integer v = false
  input_wire_accepts unsupported v = false

  unfoldable pub input_scalar_is_valid : InputField → Value → Bool
  unfolding input_wire_accepts pattern_is_valid
  input_scalar_is_valid field v =
      input_wire_accepts field.wire.encoding v && pattern_is_valid field.validation.pattern v
