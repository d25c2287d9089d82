-- ===== src/Execute/Dynamic/Replay.antt =====
-- Rendering a predicate only adds binds, and rendering it again at its first operand adds none.
use dsql.Prelude.{ℕ, zero, suc, String, true, List, [], ◌∷◌, ◌≡◌}
use dsql.Metadata.Operation.{
  DynamicPredicateOperatorMetadata, DynamicInputSiteField, DynamicInputSite, DynamicInputMetadata,
}
use dsql.Execute.Runtime.{Runtime}
use dsql.Execute.Emit.Steady.{
  Steady, steady_rules, Steady-pure, Steady-lift, Steady-bind, Steady-stop, Steady-or_continue,
}
use dsql.Execute.Dynamic.{
  Child, render_operand, render_operators, render_field, render_items, render_entry, render_entries,
  render_dynamic_predicate, array_at, scalar_operand, collection_operand, boolean_operand,
}
use dsql.Execute.Dynamic.Operands.{Steady-dynamic_parameter}

module _ (rt : Runtime) (same_refl : (v : rt.Value) → rt.same_value v v ≡ true) where
  Steady-scalar_operand :
      (input : DynamicInputMetadata) (key : String) (operator : DynamicPredicateOperatorMetadata)
      (operand : rt.Value) (path : String)
      → Steady (scalar_operand rt input key operator operand path)
  unfolding scalar_operand
  Steady-scalar_operand input key operator operand path =
      search (steady_rules, Steady-dynamic_parameter rt same_refl)

  Steady-collection_operand :
      (input : DynamicInputMetadata) (key : String) (operator : DynamicPredicateOperatorMetadata)
      (operand : rt.Value) (path : String)
      → Steady (collection_operand rt input key operator operand path)
  unfolding collection_operand
  Steady-collection_operand input key operator operand path =
      search (steady_rules, Steady-dynamic_parameter rt same_refl) depth 7

  Steady-boolean_operand :
      (operator : DynamicPredicateOperatorMetadata) (operand : rt.Value) (path : String)
      → Steady (boolean_operand rt operator operand path)
  unfolding boolean_operand
  Steady-boolean_operand operator operand path = search steady_rules

  ruleset operand_rules =
      (steady_rules, Steady-scalar_operand, Steady-collection_operand, Steady-boolean_operand)

  Steady-render_operand :
      (input : DynamicInputMetadata) (key : String) (operator : DynamicPredicateOperatorMetadata)
      (operand : rt.Value) (path : String)
      → Steady (render_operand rt input key operator operand path)
  unfolding render_operand
  Steady-render_operand input key operator operand path = search operand_rules

  Steady-render_operators :
      (input : DynamicInputMetadata) (field : DynamicInputSiteField)
      (operators : List (String × rt.Value)) (names : List String) (path : String)
      → Steady (render_operators rt input field operators names path)
  unfolding render_operators
  Steady-render_operators input field operators [] path = Steady-pure []
  Steady-render_operators input field operators (name ∷ names) path =
      let later = Steady-render_operators input field operators names path in
      Steady-or_continue _ _ _ later λ operand. Steady-bind _ _ (Steady-lift _) λ operator.
        Steady-bind _ _ (Steady-render_operand _ _ _ _ _)
          λ predicate. Steady-bind _ _ later λ rest. Steady-pure _

  Steady-render_field :
      (input : DynamicInputMetadata) (site : DynamicInputSite) (key : String) (v : rt.Value)
      (path : String)
      → Steady (render_field rt input site key v path)
  unfolding render_field
  Steady-render_field input site key v path = search (steady_rules, Steady-render_operators) depth 7

  module _ (child : Child rt) (keeps : (v : rt.Value) (path : String) → Steady (child v path)) where
    Steady-render_items :
        (items : List rt.Value) (index : ℕ) (path : String)
        → Steady (render_items rt child items index path)
    unfolding render_items
    Steady-render_items [] index path = Steady-pure []
    Steady-render_items (item ∷ items) index path = Steady-bind _ _ (keeps _ _) λ rendered.
        Steady-bind _ _ (Steady-render_items items (suc index) path) λ rest. Steady-pure _

    Steady-render_entry :
        (input : DynamicInputMetadata) (site : DynamicInputSite) (key : String) (v : rt.Value)
        (path : String)
        → Steady (render_entry rt child input site key v path)
    unfolding render_entry array_at
    Steady-render_entry input site key v path =
        search (steady_rules, keeps, Steady-render_items, Steady-render_field) depth 7

    Steady-render_entries :
        (input : DynamicInputMetadata) (site : DynamicInputSite) (object : List (String × rt.Value))
        (keys : List String) (path : String)
        → Steady (render_entries rt child input site object keys path)
    unfolding render_entries
    Steady-render_entries input site object [] path = Steady-pure []
    Steady-render_entries input site object (key ∷ keys) path =
        let later = Steady-render_entries input site object keys path in
        Steady-or_continue _ _ _ later λ v.
          Steady-bind _ _ (Steady-render_entry _ _ _ _ _)
            λ predicates. Steady-bind _ _ later λ rest. Steady-pure _

  pub Steady-render_dynamic_predicate :
      (fuel : ℕ) (input : DynamicInputMetadata) (site : DynamicInputSite) (v : rt.Value)
      (path : String)
      → Steady (render_dynamic_predicate rt fuel input site v path)
  unfolding render_dynamic_predicate
  Steady-render_dynamic_predicate zero input site v path = Steady-stop
  Steady-render_dynamic_predicate (suc fuel) input site v path =
      search
        (
          steady_rules,
          Steady-render_entries (render_dynamic_predicate rt fuel input site)
              (Steady-render_dynamic_predicate fuel input site),
        )
        depth 7
