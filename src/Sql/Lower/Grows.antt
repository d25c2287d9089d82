-- ===== src/Sql/Lower/Grows.antt =====
-- crates/dsql-core/src/sql/postgres.rs, `conditional_filter_expr`: lowering a filter, whatever it holds,
-- only adds parameters.
use dsql.Prelude.{Option, none, some, List, [], ◌∷◌, Bool-cases, inl, inr, ◌==◌}
use dsql.Plan.Filter.{FilterColumnScope, PolicyFieldTarget, target_eq}
use dsql.Sql.Template.Grows.{Grows, >>=-Grows, require_policy_context-Grows}
use dsql.Sql.View.{
  FieldGuard, SqlRowView, FilterSqlScope, filter_column_source, policy_field_filter,
  render_policy_field_filter, or_view,
}

module _ {Expr : Type 0} where
  -- The guards of a view only add parameters.
  abbrev pub GuardsGrow : List (FieldGuard Expr) → Type 0
  GuardsGrow [] = Unit {0}
  GuardsGrow (guard ∷ guards) = Grows guard.render × GuardsGrow guards

  abbrev pub ParentGrows : Option (SqlRowView Expr) → Type 0
  ParentGrows none = Unit {0}
  ParentGrows (some view) = GuardsGrow view.field_filters

  pub record ScopeGrows (scope : FilterSqlScope Expr) : Type 0 where
    pub current : GuardsGrow scope.current.field_filters
    pub root : GuardsGrow scope.root.field_filters
    pub predicate_source : GuardsGrow scope.predicate_source.field_filters
    pub parent : ParentGrows scope.parent

  pub source_grows :
      (scope : FilterSqlScope Expr) (s : FilterColumnScope)
      → ScopeGrows scope
      → GuardsGrow (filter_column_source scope s).field_filters
  unfolding filter_column_source
  source_grows scope FilterColumnScope.current g = g.current
  source_grows scope FilterColumnScope.root g = g.root
  source_grows scope FilterColumnScope.predicate_source g = g.predicate_source
  source_grows scope FilterColumnScope.parent g = parent_grows scope.parent g.parent
    where
      parent_grows :
          (o : Option (SqlRowView Expr))
          → ParentGrows o
          → GuardsGrow (or_view o scope.current).field_filters
      parent_grows none h = g.current
      parent_grows (some view) h = h

  abbrev pub FoundGrows : Option (FieldGuard Expr) → Type 0
  FoundGrows none = Unit {0}
  FoundGrows (some guard) = Grows guard.render

  pub found_grows :
      (guards : List (FieldGuard Expr)) (target : PolicyFieldTarget)
      → GuardsGrow guards
      → FoundGrows (policy_field_filter guards target)
  unfolding policy_field_filter
  found_grows [] target g = tt
  found_grows (guard ∷ guards) target g = elim (Bool-cases (guard.target == target)) [
    | inl same ↦ rw same (g.0)
    | inr other ↦ rw other (found_grows guards target g.1)
  ]

  pub render_policy_field_filter-Grows :
      (guard : FieldGuard Expr) → Grows guard.render → Grows (render_policy_field_filter guard)
  unfolding render_policy_field_filter
  render_policy_field_filter-Grows guard g =
      >>=-Grows _ _ (require_policy_context-Grows guard.context) (λ _. g)
