-- ===== src/Execute/Dynamic/Terminates.antt =====
-- Enough fuel: a predicate that is nested less deep than the fuel is rendered or refused.
use dsql.Prelude.{
  ℕ, zero, suc, ◌<◌, String, Bool, some, List, [], ◌∷◌, ◌≡◌, ◌≢◌, refl, inl, inr, In, Bool-cases,
  arith, ◌==◌, string_eq,
}
use dsql.Metadata.Operation.{
  DynamicInputField, DynamicPredicateOperatorMetadata, DynamicInputSiteField, DynamicInputSite,
  DynamicInputMetadata,
}
use dsql.Execute.Error.{exhausted, ok_or-ends}
use dsql.Execute.Runtime.{Runtime}
use dsql.Execute.Inputs.{get}
use dsql.Execute.Checks.{validate_dynamic_scalar-ends, validate_dynamic_collection-ends}
use dsql.Execute.Emit.{BoundParameter, Operands, Emit, ◌>>=◌}
use dsql.Execute.Emit.Ends.{
  Ends, ends_rules, Ends-pure, Ends-lift, Ends-bind, Ends-read, Ends-or_continue,
}
use dsql.Execute.Dynamic.{
  Child, allocate, placeholder, dynamic_parameter, dynamic_field, dynamic_site_field,
  scalar_operand, collection_operand, boolean_operand, render_operand, render_operators,
  render_field, render_items, render_entry, render_entries, render_dynamic_predicate, array_at,
}

-- `facet_value` values are finite trees: what stands in a value is nested less deep.
pub record IsNested (rt : Runtime) (depth : rt.Value → ℕ) : Type 0 where
  pub element :
      (v : rt.Value) (xs : List rt.Value) (x : rt.Value)
      → rt.as_array v ≡ some xs
      → In x xs
      → depth x < depth v
  pub member :
      (v : rt.Value) (object : List (String × rt.Value)) (key : String) (x : rt.Value)
      → rt.as_object v ≡ some object
      → In (key, x) object
      → depth x < depth v

pub get-In :
    {A : Type 0} (object : List (String × A)) (key : String) {x : A}
    → get object key ≡ some x
    → (k : String) × In (k, x) object
get-In [] key h = cc
get-In ((k, v) ∷ object) key {x} h = elim (Bool-cases (k == key)) [
  | inl e ↦ (k, inl (ground arith))
  | inr e ↦ let (j, i) = get-In object key (rw e at h) in (j, inr i)
]

pub dynamic_site_field-ends :
    (input : DynamicInputMetadata) (site : DynamicInputSite) (key path : String)
    → dynamic_site_field input site key path ≢ exhausted
unfolding dynamic_site_field
dynamic_site_field-ends input site key path = ground arith

dynamic_field-ends :
    (input : DynamicInputMetadata) (key : String) → dynamic_field input key ≢ exhausted
unfolding dynamic_field
dynamic_field-ends input key = ok_or-ends _ _

module _ (rt : Runtime) where
  Ends-placeholder : Ends (placeholder rt)
  unfolding placeholder
  Ends-placeholder = record { at = λ s h. cc }

  Ends-allocate : (path : String) (wanted : BoundParameter rt) → Ends (allocate rt path wanted)
  unfolding allocate
  Ends-allocate path wanted = record { at = λ s. ground arith }

  Ends-dynamic_parameter :
      (path : String) (field : DynamicInputField) (collection : Bool) (v : rt.Value)
      → Ends (dynamic_parameter rt path field collection v)
  unfolding dynamic_parameter
  Ends-dynamic_parameter path field collection v =
      Ends-bind _ _ (Ends-allocate _ _) λ _. Ends-placeholder

  ruleset operand_rules = (
    ends_rules, Ends-dynamic_parameter, dynamic_field-ends, validate_dynamic_scalar-ends,
    validate_dynamic_collection-ends,
  )

  Ends-scalar_operand :
      (input : DynamicInputMetadata) (key : String) (operator : DynamicPredicateOperatorMetadata)
      (operand : rt.Value) (path : String)
      → Ends (scalar_operand rt input key operator operand path)
  unfolding scalar_operand
  Ends-scalar_operand input key operator operand path = search operand_rules depth 7

  Ends-collection_operand :
      (input : DynamicInputMetadata) (key : String) (operator : DynamicPredicateOperatorMetadata)
      (operand : rt.Value) (path : String)
      → Ends (collection_operand rt input key operator operand path)
  unfolding collection_operand
  Ends-collection_operand input key operator operand path = search operand_rules depth 8

  Ends-boolean_operand :
      (operator : DynamicPredicateOperatorMetadata) (operand : rt.Value) (path : String)
      → Ends (boolean_operand rt operator operand path)
  unfolding boolean_operand
  Ends-boolean_operand operator operand path = search operand_rules

  ruleset kind_rules =
      (ends_rules, Ends-scalar_operand, Ends-collection_operand, Ends-boolean_operand)

  Ends-render_operand :
      (input : DynamicInputMetadata) (key : String) (operator : DynamicPredicateOperatorMetadata)
      (operand : rt.Value) (path : String)
      → Ends (render_operand rt input key operator operand path)
  unfolding render_operand
  Ends-render_operand input key operator operand path = search kind_rules

  Ends-render_operators :
      (input : DynamicInputMetadata) (field : DynamicInputSiteField)
      (operators : List (String × rt.Value)) (names : List String) (path : String)
      → Ends (render_operators rt input field operators names path)
  unfolding render_operators
  Ends-render_operators input field operators [] path = Ends-pure []
  Ends-render_operators input field operators (name ∷ names) path =
      let later = Ends-render_operators input field operators names path in
      Ends-or_continue _ _ _ later λ operand _.
        Ends-bind _ _ (Ends-lift _ (ok_or-ends _ _)) λ operator.
          Ends-bind _ _ (Ends-render_operand _ _ _ _ _)
            λ predicate. Ends-bind _ _ later λ rest. Ends-pure _

  Ends-render_field :
      (input : DynamicInputMetadata) (site : DynamicInputSite) (key : String) (v : rt.Value)
      (path : String)
      → Ends (render_field rt input site key v path)
  unfolding render_field
  Ends-render_field input site key v path =
      Ends-bind _ _ (Ends-lift _ (dynamic_site_field-ends input site key path)) λ field.
        Ends-bind _ _ (Ends-lift _ (ok_or-ends _ _)) λ operators. Ends-render_operators _ _ _ _ _

module _ (rt : Runtime) (depth : rt.Value → ℕ) (nested : IsNested rt depth) (child : Child rt)
    (d : ℕ) (ends : (v : rt.Value) (path : String) → depth v < d → Ends (child v path)) where
  Ends-render_items :
      (items : List rt.Value) (index : ℕ) (path : String)
      → ((x : rt.Value) → In x items → depth x < d)
      → Ends (render_items rt child items index path)
  unfolding render_items
  Ends-render_items [] index path h = Ends-pure []
  Ends-render_items (item ∷ items) index path h =
      Ends-bind _ _ (ends _ _ (h item (inl refl))) λ rendered.
        Ends-bind _ _ (Ends-render_items items (suc index) path (λ x i. h x (inr i)))
          λ rest. Ends-pure _

  Ends-branch :
      (v : rt.Value) (path at_path : String) (f : List String → Emit rt (List String))
      → depth v < d
      → ((children : List String) → Ends (f children))
      → Ends (array_at rt v path >>= λ items. render_items rt child items 0 at_path >>= f)
  unfolding array_at
  Ends-branch v path at_path f h kf = Ends-read (rt.as_array v) _ _ λ items e.
      Ends-bind _ _
        (Ends-render_items items 0 at_path (λ x i. omega (arith, nested.element v items x e i))) kf

  Ends-render_entry :
      (input : DynamicInputMetadata) (site : DynamicInputSite) (key : String) (v : rt.Value)
      (path : String)
      → depth v < d
      → Ends (render_entry rt child input site key v path)
  unfolding render_entry
  Ends-render_entry input site key v path h =
      search (ends_rules, Ends-branch, ends, Ends-render_field rt) depth 7

  Ends-render_entries :
      (input : DynamicInputMetadata) (site : DynamicInputSite) (object : List (String × rt.Value))
      (keys : List String) (path : String)
      → ((key : String) (x : rt.Value) → In (key, x) object → depth x < d)
      → Ends (render_entries rt child input site object keys path)
  unfolding render_entries
  Ends-render_entries input site object [] path h = Ends-pure []
  Ends-render_entries input site object (key ∷ keys) path h =
      let later = Ends-render_entries input site object keys path h in
      Ends-or_continue _ _ _ later λ v found.
        let (k, i) = get-In object key found in
        Ends-bind _ _ (Ends-render_entry input site key v path (h k v i))
          λ predicates. Ends-bind _ _ later λ rest. Ends-pure _

pub render_dynamic_predicate-Ends :
    (rt : Runtime) (depth : rt.Value → ℕ)
    → IsNested rt depth
    → (fuel : ℕ) (input : DynamicInputMetadata) (site : DynamicInputSite) (v : rt.Value)
      (path : String)
    → depth v < fuel
    → Ends (render_dynamic_predicate rt fuel input site v path)
unfolding render_dynamic_predicate
render_dynamic_predicate-Ends rt depth nested zero input site v path h = absurd (omega arith)
render_dynamic_predicate-Ends rt depth nested (suc fuel) input site v path h =
    let below : (w : rt.Value) (p : String)
        → depth w < depth v
        → Ends (render_dynamic_predicate rt fuel input site w p) =
      λ w p lt. render_dynamic_predicate-Ends rt depth nested fuel input site w p (omega arith) in
    Ends-read _ _ _ λ object e.
      Ends-bind _ _
        (Ends-render_entries rt depth nested (render_dynamic_predicate rt fuel input site) (depth v)
          below input site object _ path (λ key x i. nested.member v object key x e i))
        λ predicates. Ends-pure _

-- A value that is nested less deep than the fuel is rendered or refused with an error of the
-- program: the fuel does not run out, whatever operands are there. Values are finite trees whose
-- elements and members are nested less deep than they are.
pub render_dynamic_predicate-ends :
    (rt : Runtime) (depth : rt.Value → ℕ)
    → IsNested rt depth
    → (fuel : ℕ) (input : DynamicInputMetadata) (site : DynamicInputSite) (v : rt.Value)
      (path : String) (s : Operands rt)
    → depth v < fuel
    → render_dynamic_predicate rt fuel input site v path s ≢ exhausted
render_dynamic_predicate-ends rt depth nested fuel input site v path s h =
    (render_dynamic_predicate-Ends rt depth nested fuel input site v path h).at s
