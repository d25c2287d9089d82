-- ===== src/Execute/Defaults.antt =====
-- crates/dsql-execute/src/lib.rs, `materialize_default`: the value of an omitted input.
pub mod Ends
use dsql.Prelude.{
  String, Bool, true, false, not, ◌&&◌, ◌||◌, Option, none, some, List, [], ◌∷◌, any, if◌then◌else◌,
  ◌==◌, string_eq, format,
}
use dsql.Prelude.Int.{parse_i64}
use dsql.Metadata.Wire.{WireEncoding, wire_eq, ClosedValueSetMetadata}
use dsql.Metadata.Input.{
  InputDefault, input_default, default_kind, DefaultItems, absent, present, Defaults, nil, cons,
  InputField,
}
use dsql.Execute.Error.{ExecuteError, invalid_input, Result, ok, err, ◌>>=◌, ◌>>◌, ok_or, ensure}
use dsql.Execute.Runtime.{Runtime}
use dsql.Execute.Scalars.{and_then, is_safe_integer, pattern_is_valid}

-- `field.collection == Some(true)`
abbrev pub is_collection : InputField → Bool
is_collection field = elim field.collection [ none ↦ false | some b ↦ b ]

abbrev pub invalid : InputField → String → ExecuteError
invalid field expected = invalid_input field.path expected

-- An empty set of values is open.
abbrev pub is_closed_out : ClosedValueSetMetadata → String → Bool
is_closed_out set value = elim set.values [
  | [] ↦ false
  | c ∷ cs ↦ not (any (c ∷ cs) (λ closed. closed.value == value))
]

abbrev is_empty : Defaults → Bool
is_empty nil = true
is_empty (cons _ _) = false

-- A default of a known kind that does not fit the field, and one of an unknown kind.
incompatible : String → String
incompatible kind =
    if kind == "string"
    then "a compatible string default"
    else if kind == "boolean"
    then "a compatible boolean default"
    else if kind == "collection"
    then "a compatible collection default"
    else if kind == "empty_object"
    then "a dynamic predicate default"
    else "a recognized input default"

is_item_kind : String → Bool
is_item_kind kind = not (kind == "null" || kind == "collection" || kind == "empty_object")

module _ (rt : Runtime) where
  open rt use {
    Value, null, empty_object, of_string, of_bool, of_i64, of_float, of_array, parse_float,
    is_finite, parse_decimal,
  }

  unfoldable pub string_default : InputField → Option String → Result Value
  string_default field value = do
    text ← ok_or value (invalid field "a valid string default")
    ensure (not (is_closed_out field.closed_values text))
        (invalid field "a declared string default")
    ensure (pattern_is_valid rt field.validation.pattern (of_string text))
        (invalid field (format ("a valid " ∷ field.data_type ∷ " default" ∷ [])))
    ok (of_string text)

  number_for : WireEncoding → InputField → String → Result Value
  number_for WireEncoding.integer field text =
      ok_or (and_then (parse_i64 text) (λ n. if is_safe_integer n then some (of_i64 n) else none))
        (invalid field "a safe integer default")
  number_for WireEncoding.float field text =
      ok_or (and_then (parse_float text) (λ x. if is_finite x then some (of_float x) else none))
        (invalid field "a finite float default")
  number_for WireEncoding.numeric field text =
      ok_or (and_then (parse_decimal text) (λ _. some (of_string text)))
        (invalid field "a numeric default")
  number_for _ field text = err (invalid field "a compatible number default")

  unfoldable pub number_default : InputField → Option String → Result Value
  unfolding number_for
  number_default field value = do
    ensure (not (is_collection field)) (invalid field "a compatible number default")
    text ← ok_or value (invalid field "a valid number default")
    number_for field.wire.encoding field text

  unfoldable mutual
    unfolding incompatible is_item_kind string_default number_default

    pub materialize_default : InputField → InputDefault → Result Value
    materialize_default field (input_default kind value boolean items) =
        let collected = materialize_items field items in
        if kind == "string" && not (is_collection field)
        then string_default field value
        else if kind == "number"
        then number_default field value
        else if kind == "boolean"
            && (not (is_collection field) && field.wire.encoding == WireEncoding.boolean)
        then (do b ← ok_or boolean (invalid field "a valid boolean default"); ok (of_bool b))
        else if kind == "null"
        then ok null
        else if kind == "collection" && (is_collection field || field.data_type == "dynamic_order")
        then collected
        else if kind == "empty_object"
            && (not (is_collection field) && field.data_type == "dynamic_predicate")
        then ok empty_object
        else err (invalid field (incompatible kind))

    pub materialize_items : InputField → DefaultItems → Result Value
    materialize_items field absent = err (invalid field "a valid collection default")
    materialize_items field (present items) =
        let values = materialize_list field items in
        if field.data_type == "dynamic_order" && not (is_empty items)
        then err (invalid field "an empty dynamic order default")
        else do vs ← values; ok (of_array vs)

    -- Every item is read against the field without its collection mark.
    pub materialize_list : InputField → Defaults → Result (List Value)
    materialize_list field nil = ok []
    materialize_list field (cons item items) =
        let value = materialize_default (record field { collection = none }) item in
        let rest = materialize_list field items in
        do
          ensure (is_item_kind (default_kind item)) (invalid field "a valid collection default")
          v ← value
          vs ← rest
          ok (v ∷ vs)
