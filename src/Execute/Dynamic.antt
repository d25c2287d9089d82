-- ===== src/Execute/Dynamic.antt =====
-- crates/dsql-execute/src/lib.rs: bounded dynamic predicates and orders, and the markers that they
-- replace. Fuel bounds the nesting of a predicate.
pub mod Operands
pub mod Replay
pub mod Terminates
pub mod Tests
use dsql.Prelude.{
  ℕ, zero, suc, ◌+◌, String, Bool, true, false, not, ◌&&◌, Option, none, some, List, [], ◌∷◌, ◌++◌,
  map, find, any, get_elem?, length, eqb, if◌then◌else◌, ◌==◌, string_eq, option_beq, format, join,
  decimal, sort_texts,
}
use dsql.Metadata.Wire.{wire_eq, WireMetadata}
use dsql.Metadata.Operation.{
  DynamicInputField, DynamicPredicateOperatorMetadata, DynamicInputSiteField, DynamicInputSite,
  DynamicInputMetadata,
}
use dsql.Execute.Error.{
  ExecuteError, invalid_input, invalid_dynamic_metadata, Result, ok, err, ok_or,
}
use dsql.Execute.Runtime.{Runtime}
use dsql.Execute.Checks.{validate_dynamic_scalar, validate_dynamic_collection}
use dsql.Execute.Inputs.{get}
use dsql.Execute.Emit.{or_continue, BoundParameter, Emit, ◌>>=◌, ◌>>◌, pure, raise, stop, lift}

-- `unwrap_or_default` of an optional text.
abbrev text_or_empty : Option String → String
text_or_empty none = ""
text_or_empty (some s) = s

unfoldable pub provider_type_of : WireMetadata → Option (String × String)
provider_type_of wire = elim wire.provider_type [ none ↦ none | some p ↦ some (p.schema, p.name) ]

abbrev same_names : String × String → String × String → Bool
same_names (a, b) (c, d) = a == c && b == d

unfoldable pub parenthesized_join : List String → String → String
parenthesized_join items separator = format ("(" ∷ join items separator ∷ ")" ∷ [])

abbrev bool_eq : Bool → Bool → Bool
bool_eq true b = b
bool_eq false b = not b

abbrev is_empty {ℓ} : {A : Type ℓ} → List A → Bool
is_empty [] = true
is_empty (_ ∷ _) = false

-- `(!items.is_empty()).then(|| …)`
abbrev then_join : List String → (List String → String) → Option String
then_join [] f = none
then_join (x ∷ xs) f = some (f (x ∷ xs))

abbrev pub metadata_error : List String → ExecuteError
metadata_error pieces = invalid_dynamic_metadata (format pieces)

unfoldable pub dynamic_site_field :
    DynamicInputMetadata → DynamicInputSite → String → String → Result DynamicInputSiteField
dynamic_site_field input site key path =
    if any input.fields (λ field. field.key == key)
    then ok_or (find site.fields (λ field. field.key == key))
        (metadata_error ("site `" ∷ site.marker ∷ "` has no lowering for field `" ∷ key ∷ "`" ∷ []))
    else err (invalid_input (format (path ∷ "." ∷ key ∷ [])) "a selected dynamic field")

unfoldable pub dynamic_field : DynamicInputMetadata → String → Result DynamicInputField
dynamic_field input key =
    ok_or (find input.fields (λ field. field.key == key))
      (metadata_error ("input `" ∷ input.path ∷ "` has no field `" ∷ key ∷ "`" ∷ []))

module _ (rt : Runtime) where
  open rt use {Value, as_bool, as_array, as_object, same_value}

  unfoldable pub bound : String → DynamicInputField → Bool → Value → BoundParameter rt
  bound path field collection v = record {
    path = path;
    data_type = field.data_type;
    wire = field.wire.encoding;
    provider_type = provider_type_of field.wire;
    collection = collection;
    value = v;
  }

  -- A reused operand may differ in its path only.
  unfoldable pub agrees : BoundParameter rt → BoundParameter rt → Bool
  agrees p q =
      p.data_type == q.data_type
      && p.wire == q.wire
      && option_beq same_names p.provider_type q.provider_type
      && bool_eq p.collection q.collection
      && same_value p.value q.value

  unfoldable pub allocate : String → BoundParameter rt → Emit rt (Unit {0})
  allocate path wanted s =
      if eqb s.operand_index (length s.parameters)
      then ok (tt, record s { parameters = s.parameters ++ wanted ∷ [] })
      else elim (get_elem? s.parameters s.operand_index) [
        | none ↦ err (invalid_dynamic_metadata "dynamic operand allocation is not contiguous")
        | some existing ↦
            if agrees existing wanted
            then ok (tt, s)
            else err
                (metadata_error ("reused dynamic site disagrees at operand `" ∷ path ∷ "`" ∷ []))
      ]

  -- The placeholder is one more than the index that the operand was given.
  unfoldable pub placeholder : Emit rt String
  placeholder s = ok (
    format ("$" ∷ decimal (s.operand_index + 1) ∷ []),
    record s { operand_index = s.operand_index + 1 },
  )

  unfoldable pub dynamic_parameter : String → DynamicInputField → Bool → Value → Emit rt String
  dynamic_parameter path field collection v = do
    allocate path (bound path field collection v)
    placeholder

  unfoldable pub around : DynamicPredicateOperatorMetadata → String → String
  around operator placed =
      format
        (text_or_empty operator.before_value ∷ placed ∷ text_or_empty operator.after_value ∷ [])

  -- The three kinds of operand.
  unfoldable pub scalar_operand :
      DynamicInputMetadata
      → String
      → DynamicPredicateOperatorMetadata
      → Value
      → String
      → Emit rt String
  scalar_operand input field_key operator operand operand_path = do
    field ← lift (dynamic_field input field_key)
    lift (validate_dynamic_scalar rt field operand operand_path)
    placed ← dynamic_parameter operand_path field false operand
    pure (around operator placed)

  pub collection_operand :
      DynamicInputMetadata
      → String
      → DynamicPredicateOperatorMetadata
      → Value
      → String
      → Emit rt String
  collection_operand input field_key operator operand operand_path = do
    field ← lift (dynamic_field input field_key)
    lift (validate_dynamic_collection rt field operand operand_path)
    items ← lift (ok_or (as_array operand) (invalid_input operand_path "a collection"))
    if is_empty items then pure (if operator.name == "in" then "FALSE" else "TRUE") else (do
      placed ← dynamic_parameter operand_path field true operand
      pure (around operator placed))

  pub boolean_operand : DynamicPredicateOperatorMetadata → Value → String → Emit rt String
  boolean_operand operator operand operand_path = do
    b ← lift (ok_or (as_bool operand) (invalid_input operand_path "a boolean"))
    let spelled = if b then "true" else "false"
    case ← lift (
        ok_or (find operator.cases (λ case. case.value == spelled)) (
          metadata_error
            ("operator `" ∷ operator.name ∷ "` has no `" ∷ spelled ∷ "` lowering" ∷ [])))
    pure case.text

  unfoldable pub render_operand :
      DynamicInputMetadata
      → String
      → DynamicPredicateOperatorMetadata
      → Value
      → String
      → Emit rt String
  render_operand input field_key operator operand operand_path =
      if operator.value_kind == "scalar"
      then scalar_operand input field_key operator operand operand_path
      else if operator.value_kind == "collection"
      then collection_operand input field_key operator operand operand_path
      else if operator.value_kind == "boolean"
      then boolean_operand operator operand operand_path
      else raise (
          metadata_error (
            "operator `" ∷ operator.name ∷ "` has unknown value kind `" ∷ operator.value_kind ∷ "`"
            ∷ []))

  -- The operators of one field, in the order of their names.
  unfoldable pub render_operators :
      DynamicInputMetadata
      → DynamicInputSiteField
      → List (String × Value)
      → List String
      → String
      → Emit rt (List String)
  render_operators input field operators [] path = pure []
  render_operators input field operators (name ∷ names) path =
      let later = render_operators input field operators names path in
      or_continue (get operators name) later λ operand. do
        let operand_path = format (path ∷ "." ∷ field.key ∷ "." ∷ name ∷ [])
        operator ← lift (
            ok_or (find field.operators (λ operator. operator.name == name))
              (invalid_input operand_path "a declared dynamic predicate operator"))
        predicate ← render_operand input field.key operator operand operand_path
        rest ← later
        pure (predicate ∷ rest)

  unfoldable pub render_field :
      DynamicInputMetadata → DynamicInputSite → String → Value → String → Emit rt (List String)
  render_field input site field_key v path = do
    field ← lift (dynamic_site_field input site field_key path)
    operators ← lift (
        ok_or (as_object v)
          (invalid_input (format (path ∷ "." ∷ field_key ∷ [])) "a dynamic field-operator object"))
    render_operators input field operators (sort_texts (map (λ (k, _). k) operators)) path

  abbrev Child : Type 0
  Child = Value → String → Emit rt (Option String)

  pub gathered : Option String → List String → List String
  gathered none rest = rest
  gathered (some shown) rest = shown ∷ rest

  -- The children of `and` and `or` that render to something.
  pub render_items : Child → List Value → ℕ → String → Emit rt (List String)
  render_items child [] index path = pure []
  render_items child (item ∷ items) index path =
      let later = render_items child items (suc index) path in
      do
        rendered ← child item (format (path ∷ "[" ∷ decimal index ∷ "]" ∷ []))
        rest ← later
        pure (gathered rendered rest)

  abbrev conjoined : List String → List String
  conjoined [] = []
  conjoined (x ∷ xs) = parenthesized_join (x ∷ xs) " AND " ∷ []

  abbrev disjoined : List String → String
  disjoined [] = "FALSE"
  disjoined (x ∷ xs) = parenthesized_join (x ∷ xs) " OR "

  abbrev negated : Option String → List String
  negated none = []
  negated (some shown) = format ("NOT (" ∷ shown ∷ ")" ∷ []) ∷ []

  unfoldable pub array_at : Value → String → Emit rt (List Value)
  array_at v path = lift (ok_or (as_array v) (invalid_input path "an array of predicates"))

  unfoldable pub render_entry :
      Child
      → DynamicInputMetadata
      → DynamicInputSite
      → String
      → Value
      → String
      → Emit rt (List String)
  render_entry child input site key v path =
      if key == "and"
      then (do
        items ← array_at v (format (path ∷ ".and" ∷ []))
        children ← render_items child items 0 (format (path ∷ ".and" ∷ []))
        pure (conjoined children))
      else if key == "or"
      then (do
        items ← array_at v (format (path ∷ ".or" ∷ []))
        children ← render_items child items 0 (format (path ∷ ".or" ∷ []))
        pure (disjoined children ∷ []))
      else if key == "not"
      then (do rendered ← child v (format (path ∷ ".not" ∷ [])); pure (negated rendered))
      else render_field input site key v path

  unfoldable pub render_entries :
      Child
      → DynamicInputMetadata
      → DynamicInputSite
      → List (String × Value)
      → List String
      → String
      → Emit rt (List String)
  render_entries child input site object [] path = pure []
  render_entries child input site object (key ∷ keys) path =
      let later = render_entries child input site object keys path in
      or_continue (get object key) later λ v. do
        predicates ← render_entry child input site key v path
        rest ← later
        pure (predicates ++ rest)

  unfoldable pub render_dynamic_predicate : ℕ → DynamicInputMetadata → DynamicInputSite → Child
  render_dynamic_predicate zero input site v path = stop
  render_dynamic_predicate (suc fuel) input site v path =
      let child : Child = λ w p. render_dynamic_predicate fuel input site w p in
      do
        object ← lift (ok_or (as_object v) (invalid_input path "a dynamic predicate object"))
        predicates ←
            render_entries child input site object (sort_texts (map (λ (k, _). k) object)) path
        pure (then_join predicates (λ items. parenthesized_join items " AND "))
