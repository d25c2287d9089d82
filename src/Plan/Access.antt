-- ===== src/Plan/Access.antt =====
-- crates/dsql-core/src/plan/types.rs, `PolicyAccess`: how far a guard depends on rows.
use dsql.Prelude.{Bool, true, false, ◌||◌}
use dsql.Plan.Filter.{
  PolicyAccess, FilterLiteral, FilterExpr, FilterCollection, Filters, absent, optional, literal,
  dynamic_predicate, binary, negation, null_test, membership, variant_binary, exists,
  relation_aggregate, items, bound, none_left, next,
}

unfoldable mutual
  pub filter_observes_rows : FilterExpr → Bool
  filter_observes_rows (FilterExpr.column _ _) = true
  filter_observes_rows (exists _ _ _ _ _ _ _) = true
  filter_observes_rows (relation_aggregate _ _ _ _ _ _) = true
  filter_observes_rows (dynamic_predicate _ _ _) = true
  filter_observes_rows (binary left _ right) =
      filter_observes_rows left || filter_observes_rows right
  filter_observes_rows (variant_binary left _ _ right) =
      filter_observes_rows left || filter_observes_rows right
  filter_observes_rows (optional _ operand) = filter_observes_rows operand
  filter_observes_rows (negation operand) = filter_observes_rows operand
  filter_observes_rows (null_test operand _) = filter_observes_rows operand
  filter_observes_rows (membership operand collection _) =
      filter_observes_rows operand || collection_observes_rows collection
  filter_observes_rows absent = false
  filter_observes_rows (literal _) = false
  filter_observes_rows (FilterExpr.parameter _) = false

  pub collection_observes_rows : FilterCollection → Bool
  collection_observes_rows (items filters) = any_observes_rows filters
  collection_observes_rows (bound _) = false

  pub any_observes_rows : Filters → Bool
  any_observes_rows none_left = false
  any_observes_rows (next filter filters) = filter_observes_rows filter || any_observes_rows filters

abbrev pub observed_access : Bool → PolicyAccess
observed_access true = PolicyAccess.row_dependent
observed_access false = PolicyAccess.context_only

unfoldable pub for_guard : FilterExpr → PolicyAccess
unfolding filter_observes_rows
for_guard (literal (FilterLiteral.bool true)) = PolicyAccess.unconditional
for_guard filter = observed_access (filter_observes_rows filter)

-- `Ord::max`, in the order of the declaration.
unfoldable pub combine : PolicyAccess → PolicyAccess → PolicyAccess
combine PolicyAccess.unconditional other = other
combine PolicyAccess.context_only PolicyAccess.row_dependent = PolicyAccess.row_dependent
combine PolicyAccess.context_only _ = PolicyAccess.context_only
combine PolicyAccess.row_dependent _ = PolicyAccess.row_dependent
