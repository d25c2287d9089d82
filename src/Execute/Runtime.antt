-- ===== src/Execute/Runtime.antt =====
-- What crates/dsql-execute takes from other packages: the JSON value of `facet_value`, the parsers
-- of `uuid`, `chrono` and `bigdecimal`, IEEE doubles, `regex`, and raw JSON. They are parameters of
-- the model; a value's object is read as its entries in iteration order.
use dsql.Prelude.{String, Bool, Option, List}
use dsql.Prelude.Int.{ℤ}

pub record Runtime : Type 1 where
  pub Value : Type 0
  pub Number : Type 0
  pub Float : Type 0
  pub Uuid : Type 0
  pub Timestamp : Type 0
  pub Decimal : Type 0
  pub Regex : Type 0
  pub Raw : Type 0
  pub null : Value
  pub empty_object : Value
  pub of_string : String → Value
  pub of_bool : Bool → Value
  pub of_i64 : ℤ → Value
  pub of_float : Float → Value
  pub of_array : List Value → Value
  pub is_null : Value → Bool
  pub as_bool : Value → Option Bool
  pub as_string : Value → Option String
  pub as_number : Value → Option Number
  pub as_array : Value → Option (List Value)
  pub as_object : Value → Option (List (String × Value))
  pub same_value : Value → Value → Bool
  pub is_integer : Number → Bool
  pub to_i64 : Number → Option ℤ
  pub to_float : Number → Float
  pub parse_float : String → Option Float
  pub is_finite : Float → Bool
  pub parse_uuid : String → Option Uuid
  pub parse_timestamp : String → Option Timestamp
  pub parse_decimal : String → Option Decimal
  pub compile : String → Option Regex
  pub is_match : Regex → String → Bool
  -- The raw JSON of a value, or the message of the failure.
  pub to_raw : Value → Option Raw
  pub raw_error : Value → String
