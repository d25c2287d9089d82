-- ===== src/Sql/Meaning/Returns.antt =====
-- crates/dsql-core/src/sql/postgres.rs, `conditional_filter_expr` and `filter_expr`: lowering a filter
-- fails only where an atom of it fails.
use dsql.Prelude.{ℕ, String, ◌≡◌, refl, ap, ◌∙◌, Option, none, some}
use dsql.Catalog.Types.{Catalog}
use dsql.Plan.Filter.{
  FilterOp, SqlParameter, FilterExpr, absent, optional, literal, dynamic_predicate, binary,
  negation, null_test, membership, variant_binary, exists, relation_aggregate,
}
use dsql.Sql.Builder.{Builder}
use dsql.Sql.Error.{done}
use dsql.Sql.Template.{
  SqlTemplateContext, M, give, ◌>>=◌, continue, parameter_text, position, numbered,
}
use dsql.Sql.View.{FilterSqlScope}
use dsql.Sql.Lower.{conditional_filter_expr, filter_expr}

-- A step gives a result from every template.
pub record Returns {A : Type 0} (step : M A) : Type 0 where
  pub returns :
      (before : SqlTemplateContext)
      → (a : A) × (after : SqlTemplateContext) × (step before ≡ done (a, after))

give-Returns : {A : Type 0} (a : A) → Returns (give a)
give-Returns a = record { returns = λ before. (a, before, refl) }

>>=-Returns :
    {A B : Type 0} (step : M A) (next : A → M B)
    → Returns step
    → ((a : A) → Returns (next a))
    → Returns (step >>= next)
>>=-Returns step next r k = record {
  returns = λ before.
      let (a, middle, first) = r.returns before in
      let (x, after, second) = (k a).returns middle in
      (x, after, ap (continue next) first ∙ second);
}

parameter_text-Returns : (parameter : SqlParameter) → Returns (parameter_text parameter)
unfolding parameter_text
parameter_text-Returns parameter = record {
  returns = λ before. numbered_returns before (position before.parameters parameter.path);
}
  where
    numbered_returns :
        (before : SqlTemplateContext) (found : Option ℕ)
        → (text : String) × (after : SqlTemplateContext) × (numbered parameter found before
            ≡ done (text, after))
    numbered_returns before (some index) = (_, _, refl)
    numbered_returns before none = (_, _, refl)

module _ (b : Builder) (catalog : Catalog) (scope : FilterSqlScope (b.Expr)) where
  -- Each filter among the atoms of a filter is lowered from every template.
  abbrev pub AtomsReturn : FilterExpr → Type 0
  AtomsReturn absent = Unit {0}
  AtomsReturn (optional parameter operand) = AtomsReturn operand
  AtomsReturn (binary left FilterOp.and right) = AtomsReturn left × AtomsReturn right
  AtomsReturn (binary left FilterOp.or right) = AtomsReturn left × AtomsReturn right
  AtomsReturn (negation operand) = AtomsReturn operand
  AtomsReturn filter = Returns (conditional_filter_expr b catalog scope filter)

  lowering-Returns :
      (filter : FilterExpr)
      → AtomsReturn filter
      → Returns (conditional_filter_expr b catalog scope filter)
  unfolding conditional_filter_expr
  lowering-Returns absent r = give-Returns _
  lowering-Returns (optional parameter operand) r =
      >>=-Returns _ _ (lowering-Returns operand r) (λ inner.
        >>=-Returns _ _ (parameter_text-Returns parameter) (λ placeholder. give-Returns _))
  lowering-Returns (FilterExpr.column column_scope column) r = r
  lowering-Returns (literal value) r = r
  lowering-Returns (FilterExpr.parameter parameter) r = r
  lowering-Returns (dynamic_predicate path surface fields) r = r
  lowering-Returns (binary left FilterOp.and right) r =
      >>=-Returns _ _ (lowering-Returns left r.0)
        (λ x. >>=-Returns _ _ (lowering-Returns right r.1) (λ y. give-Returns _))
  lowering-Returns (binary left FilterOp.or right) r =
      >>=-Returns _ _ (lowering-Returns left r.0)
        (λ x. >>=-Returns _ _ (lowering-Returns right r.1) (λ y. give-Returns _))
  lowering-Returns (binary left FilterOp.eq right) r = r
  lowering-Returns (binary left FilterOp.ne right) r = r
  lowering-Returns (binary left FilterOp.gt right) r = r
  lowering-Returns (binary left FilterOp.ge right) r = r
  lowering-Returns (binary left FilterOp.lt right) r = r
  lowering-Returns (binary left FilterOp.le right) r = r
  lowering-Returns (binary left FilterOp.like right) r = r
  lowering-Returns (negation operand) r =
      >>=-Returns _ _ (lowering-Returns operand r) (λ inner. give-Returns _)
  lowering-Returns (null_test operand negated) r = r
  lowering-Returns (membership operand collection negated) r = r
  lowering-Returns (variant_binary left path variants right) r = r
  lowering-Returns (exists relation table kind source_scope policy_filter field_filters inner) r = r
  lowering-Returns (relation_aggregate relation table function operand policy_filter field_filters)
        r =
      r

  -- If every atom of a filter is lowered from every template, `filter_expr` gives an expression for the
  -- filter from every template: connectives, negation, optional and absent conditions never fail.
  pub filter_expr-returns :
      (filter : FilterExpr)
      → AtomsReturn filter
      → (before : SqlTemplateContext)
      → (e : b.Expr) × (after : SqlTemplateContext) × (filter_expr b catalog scope filter before
          ≡ done (e, after))
  unfolding filter_expr
  filter_expr-returns filter r =
      (>>=-Returns _ _ (lowering-Returns filter r) (λ rendered. give-Returns _)).returns
