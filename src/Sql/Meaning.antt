-- ===== src/Sql/Meaning.antt =====
-- crates/dsql-core/src/sql/postgres.rs: what a lowered filter means, in the three-valued logic of SQL.
pub mod Guarded
pub mod Combine
pub mod Filters
pub mod Returns
pub mod Tests
use dsql.Prelude.{String, Bool, true, false, Option, none, some, List, [], ◌∷◌, if◌then◌else◌, ◌≡◌}
use dsql.Plan.Filter.{
  FilterOp, FilterLiteral, FilterColumnScope, SqlParameter, FilterExpr, absent, optional, literal,
  binary, negation,
}
use dsql.Plan.Truth.{Truth, both, either, negate}
use dsql.Sql.Builder.{Builder}

module _ (b : Builder) where
  open b use {Expr, and_expr, or_expr, cust, cust_with_exprs}

  -- What PostgreSQL makes of the expressions that the connectives are built with.
  pub record Reading : Type 0 where
    pub value : Expr → Truth
    pub value-and : (x y : Expr) → value (and_expr x y) ≡ both (value x) (value y)
    pub value-or : (x y : Expr) → value (or_expr x y) ≡ either (value x) (value y)
    pub value-not : (x : Expr) → value (cust_with_exprs "NOT ($1)" (x ∷ [])) ≡ negate (value x)
    pub value_true : value (cust "TRUE") ≡ Truth.holds
    pub value_false : value (cust "FALSE") ≡ Truth.fails

-- A connective of two conditions that can be absent: an absent one is left out.
abbrev pub joined : (Truth → Truth → Truth) → Option Truth → Option Truth → Option Truth
joined f none d = d
joined f (some x) none = some x
joined f (some x) (some y) = some (f x y)

abbrev pub negated_meaning : Option Truth → Option Truth
negated_meaning none = none
negated_meaning (some x) = some (negate x)

-- An absent condition excludes nothing.
abbrev pub or_holds : Option Truth → Truth
or_holds none = Truth.holds
or_holds (some x) = x

-- What a filter means where `present` tells the parameters that have a value: an optional condition
-- without its parameter is absent, a connective leaves out its absent sides, and is absent without both.
module _ (present : SqlParameter → Bool) (atom : FilterExpr → Truth) where
  unfoldable pub filter_meaning : FilterExpr → Option Truth
  filter_meaning absent = none
  filter_meaning (optional parameter operand) =
      let meaning = filter_meaning operand in if present parameter then meaning else none
  filter_meaning (binary left FilterOp.and right) =
      joined both (filter_meaning left) (filter_meaning right)
  filter_meaning (binary left FilterOp.or right) =
      joined either (filter_meaning left) (filter_meaning right)
  filter_meaning (negation operand) = negated_meaning (filter_meaning operand)
  filter_meaning filter = some (atom filter)
