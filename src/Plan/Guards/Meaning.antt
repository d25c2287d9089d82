-- ===== src/Plan/Guards/Meaning.antt =====
-- crates/dsql-core/src/plan/build.rs: what the constructors of guards mean. An atom is a filter that
-- is no Boolean literal, negation, conjunction or disjunction.
use dsql.Prelude.{Bool, true, false, Option, none, some, ◌≡◌, refl, sym, ap, ◌∙◌}
use dsql.Plan.Filter.{FilterOp, FilterLiteral, FilterExpr, literal, binary, negation}
use dsql.Plan.Truth.{
  Truth, of_bool, negate, both, either, both-fails, both-holds, either-holds, either-fails,
  negate-negate,
}
use dsql.Plan.Guards.{
  boolean_filter, filter_boolean, not_filter, disjoin, or_filter, conjoin, and_filter, guarded,
  active_policy_guard,
}

abbrev connect : FilterOp → Truth → Truth → Truth → Truth
connect FilterOp.and a b other = both a b
connect FilterOp.or a b other = either a b
connect _ a b other = other

-- The truth of a guard for a row, given the truth of its atoms.
unfoldable pub truth : (FilterExpr → Truth) → FilterExpr → Truth
truth atom (literal (FilterLiteral.bool value)) = of_bool value
truth atom (negation operand) = negate (truth atom operand)
truth atom (binary left op right) =
    connect op (truth atom left) (truth atom right) (atom (binary left op right))
truth atom filter = atom filter

module _ (atom : FilterExpr → Truth) where
  pub truth-filter_boolean :
      (filter : FilterExpr) (value : Bool)
      → filter_boolean filter ≡ some value
      → truth atom filter ≡ of_bool value
  unfolding truth filter_boolean
  truth-filter_boolean (literal (FilterLiteral.bool v)) value h = ap of_bool (some-eq h)
    where
      some-eq : some v ≡ some value → v ≡ value
      some-eq e = cc
  truth-filter_boolean _ value h = cc

  truth-not_filter :
      (filter : FilterExpr) → truth atom (not_filter filter) ≡ negate (truth atom filter)
  unfolding truth not_filter boolean_filter
  truth-not_filter (literal (FilterLiteral.bool true)) = refl
  truth-not_filter (literal (FilterLiteral.bool false)) = refl
  truth-not_filter (negation operand) = sym (negate-negate (truth atom operand))
  truth-not_filter filter = refl

  truth-disjoin :
      (left right : FilterExpr) (l r : Option Bool)
      → filter_boolean left ≡ l
      → filter_boolean right ≡ r
      → truth atom (disjoin left right l r) ≡ either (truth atom left) (truth atom right)
  unfolding truth
  truth-disjoin left right (some true) r e f = rw (truth-filter_boolean left true e)
  truth-disjoin left right (some false) (some true) e f =
      rw (truth-filter_boolean left false e, truth-filter_boolean right true f)
  truth-disjoin left right none (some true) e f =
      rw (truth-filter_boolean right true f) (sym (either-holds (truth atom left)))
  truth-disjoin left right (some false) (some false) e f = rw (truth-filter_boolean left false e)
  truth-disjoin left right (some false) none e f = rw (truth-filter_boolean left false e)
  truth-disjoin left right none (some false) e f =
      rw (truth-filter_boolean right false f) (sym (either-fails (truth atom left)))
  truth-disjoin left right none none e f = refl

  -- A disjunction has the truth value of a disjunction, whatever it was simplified to.
  pub truth-or_filter :
      (left right : FilterExpr)
      → truth atom (or_filter left right) ≡ either (truth atom left) (truth atom right)
  unfolding or_filter
  truth-or_filter left right =
      truth-disjoin left right (filter_boolean left) (filter_boolean right) refl refl

  truth-conjoin :
      (left right : FilterExpr) (l r : Option Bool)
      → filter_boolean left ≡ l
      → filter_boolean right ≡ r
      → truth atom (conjoin left right l r) ≡ both (truth atom left) (truth atom right)
  unfolding truth
  truth-conjoin left right (some false) r e f = rw (truth-filter_boolean left false e)
  truth-conjoin left right (some true) (some false) e f =
      rw (truth-filter_boolean left true e, truth-filter_boolean right false f)
  truth-conjoin left right none (some false) e f =
      rw (truth-filter_boolean right false f) (sym (both-fails (truth atom left)))
  truth-conjoin left right (some true) (some true) e f = rw (truth-filter_boolean left true e)
  truth-conjoin left right (some true) none e f = rw (truth-filter_boolean left true e)
  truth-conjoin left right none (some true) e f =
      rw (truth-filter_boolean right true f) (sym (both-holds (truth atom left)))
  truth-conjoin left right none none e f = refl

  pub truth-and_filter :
      (left right : FilterExpr)
      → truth atom (and_filter left right) ≡ both (truth atom left) (truth atom right)
  unfolding and_filter
  truth-and_filter left right =
      truth-conjoin left right (filter_boolean left) (filter_boolean right) refl refl

  truth-guarded :
      (active condition : FilterExpr) (value : Option Bool)
      → filter_boolean active ≡ value
      → truth atom (guarded active condition value)
        ≡ either (negate (truth atom active)) (truth atom condition)
  truth-guarded active condition (some true) e = rw (truth-filter_boolean active true e)
  truth-guarded active condition (some false) e =
      truth-or_filter (not_filter active) condition
      ∙ ap (λ t. either t (truth atom condition)) (truth-not_filter active)
  truth-guarded active condition none e =
      truth-or_filter (not_filter active) condition
      ∙ ap (λ t. either t (truth atom condition)) (truth-not_filter active)

  -- A guard has the truth value of the implication from "the policy is active" to its rule.
  pub truth-active_policy_guard :
      (active condition : FilterExpr)
      → truth atom (active_policy_guard active condition)
        ≡ either (negate (truth atom active)) (truth atom condition)
  unfolding active_policy_guard
  truth-active_policy_guard active condition =
      truth-guarded active condition (filter_boolean active) refl
