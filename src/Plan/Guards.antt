-- ===== src/Plan/Guards.antt =====
-- crates/dsql-core/src/plan/build.rs: the constructors of policy guards.
pub mod Meaning
use dsql.Prelude.{Bool, true, false, not, Option, none, some}
use dsql.Plan.Filter.{FilterOp, FilterLiteral, FilterExpr, literal, binary, negation}

unfoldable pub boolean_filter : Bool → FilterExpr
boolean_filter value = literal (FilterLiteral.bool value)

unfoldable pub filter_boolean : FilterExpr → Option Bool
filter_boolean (literal (FilterLiteral.bool value)) = some value
filter_boolean _ = none

unfoldable pub not_filter : FilterExpr → FilterExpr
unfolding boolean_filter
not_filter (literal (FilterLiteral.bool value)) = boolean_filter (not value)
not_filter (negation operand) = operand
not_filter filter = negation filter

abbrev pub disjoin : FilterExpr → FilterExpr → Option Bool → Option Bool → FilterExpr
disjoin left right (some true) _ = literal (FilterLiteral.bool true)
disjoin left right _ (some true) = literal (FilterLiteral.bool true)
disjoin left right (some false) _ = right
disjoin left right _ (some false) = left
disjoin left right none none = binary left FilterOp.or right

unfoldable pub or_filter : FilterExpr → FilterExpr → FilterExpr
unfolding filter_boolean
or_filter left right = disjoin left right (filter_boolean left) (filter_boolean right)

abbrev pub conjoin : FilterExpr → FilterExpr → Option Bool → Option Bool → FilterExpr
conjoin left right (some false) _ = literal (FilterLiteral.bool false)
conjoin left right _ (some false) = literal (FilterLiteral.bool false)
conjoin left right (some true) _ = right
conjoin left right _ (some true) = left
conjoin left right none none = binary left FilterOp.and right

unfoldable pub and_filter : FilterExpr → FilterExpr → FilterExpr
unfolding filter_boolean
and_filter left right = conjoin left right (filter_boolean left) (filter_boolean right)

abbrev pub guarded : FilterExpr → FilterExpr → Option Bool → FilterExpr
guarded active condition (some true) = condition
guarded active condition (some false) = or_filter (not_filter active) condition
guarded active condition none = or_filter (not_filter active) condition

unfoldable pub active_policy_guard : FilterExpr → FilterExpr → FilterExpr
unfolding filter_boolean or_filter not_filter
active_policy_guard active condition = guarded active condition (filter_boolean active)
