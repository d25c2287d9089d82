-- ===== src/Sql/Meaning/Filters.antt =====
-- crates/dsql-core/src/sql/postgres.rs, `conditional_filter_expr` and `filter_expr`: the SQL of a filter
-- means what the filter means.
use dsql.Prelude.{
  ℕ, String, Bool, true, false, Option, none, some, List, [], ◌∷◌, ◌≡◌, refl, ap, sym, ◌∙◌, format,
  get_elem?, get_elem?-append_left, Extends, subst, if◌then◌else◌,
}
use dsql.Catalog.Types.{Catalog}
use dsql.Plan.Filter.{
  FilterOp, SqlParameter, FilterExpr, absent, optional, literal, dynamic_predicate, binary,
  negation, null_test, membership, variant_binary, exists, relation_aggregate,
}
use dsql.Plan.Truth.{Truth, of_bool}
use dsql.Sql.Builder.{Builder}
use dsql.Sql.Error.{done}
use dsql.Sql.Sites.{GeneratedSqlParameter}
use dsql.Sql.Template.{SqlTemplateContext, give, ◌>>=◌, parameter_text, placeholder_text}
use dsql.Sql.Template.Grows.{
  Later, Later-refl, Later-trans, continue-eq-done, parameter_of, parameter_text-Numbers,
  done-injective,
}
use dsql.Sql.View.{FilterSqlScope, ConditionalFilter, combine_conditional, not_expr}
use dsql.Sql.Atoms.{Lowered, connect_filters}
use dsql.Sql.Lower.{conditional_filter_expr, filter_expr}
use dsql.Sql.Lower.Grows.{ScopeGrows}
use dsql.Sql.Lower.Whole.{conditional_filter_expr-Grows}
use dsql.Sql.Lower.Never.{is_atom, atom-Never}
use dsql.Sql.Meaning.{Reading, joined, negated_meaning, or_holds, filter_meaning}
use dsql.Sql.Meaning.Combine.{
  Represents, combine_conditional-Represents, negation-Represents, guard_with-Represents,
  guard_with, absent-Represents, or_absent-Represents,
}
use dsql.Sql.Meaning.Guarded.{connective}

get_elem?-Extends :
    (xs : List GeneratedSqlParameter) {ys : List GeneratedSqlParameter}
    → Extends xs ys
    → (i : ℕ) {a : GeneratedSqlParameter} → get_elem? xs i ≡ some a
    → get_elem? ys i ≡ some a
get_elem?-Extends xs (added, e) i h = rw e (get_elem?-append_left xs added i h)

module _ (b : Builder) (catalog : Catalog) (reading : Reading b)
    (scope : FilterSqlScope (b.Expr)) where
  open b use {Expr, cust}

  -- The SQL of a filter that is no connective, no negation and not optional means `meaning`, where
  -- what it refers to is in the final template.
  pub record AtomReads (final : SqlTemplateContext) (filter : FilterExpr) (meaning : Truth)
      : Type 0 where
    pub lowered :
        (before after : SqlTemplateContext) (c : ConditionalFilter Expr)
        → conditional_filter_expr b catalog scope filter before ≡ done (c, after)
        → Later after final
        → reading.value c.value ≡ meaning

  module _ (final : SqlTemplateContext) (present : SqlParameter → Bool) where
    abbrev is_not_null : String → Expr
    is_not_null placeholder = cust (format (placeholder ∷ " IS NOT NULL" ∷ []))

    -- A placeholder for a parameter among the final ones is not null exactly where the parameter has a
    -- value.
    abbrev pub PresenceRead : SqlParameter → Type 0
    PresenceRead parameter =
        (index : ℕ)
        → get_elem? final.parameters index ≡ some (parameter_of parameter)
        → reading.value (is_not_null (placeholder_text index parameter))
          ≡ of_bool (present parameter)

    -- What `AtomReads` says of each atom of a filter, and `PresenceRead` of each optional parameter.
    module _ (atom : FilterExpr → Truth) where
      abbrev pub AtomsRead : FilterExpr → Type 0
      AtomsRead absent = Unit {0}
      AtomsRead (optional parameter operand) = PresenceRead parameter × AtomsRead operand
      AtomsRead (binary left FilterOp.and right) = AtomsRead left × AtomsRead right
      AtomsRead (binary left FilterOp.or right) = AtomsRead left × AtomsRead right
      AtomsRead (negation operand) = AtomsRead operand
      AtomsRead filter = AtomReads final filter (atom filter)

    -- A lowering that means `meaning` wherever its parameters are among the final ones.
    pub record Means (lowered : Lowered b catalog) (meaning : Option Truth) : Type 0 where
      pub means :
          (before after : SqlTemplateContext) (c : ConditionalFilter Expr)
          → lowered before ≡ done (c, after)
          → Later after final
          → Later before after × Represents b reading c meaning

    atom-Means :
        (filter : FilterExpr) (meaning : Truth)
        → ScopeGrows scope
        → is_atom filter ≡ true
        → AtomReads final filter meaning
        → Means (conditional_filter_expr b catalog scope filter) (some meaning)
    atom-Means filter meaning grows is reads = record {
      means = λ before after c h up.
          let never = (atom-Never b catalog scope grows filter is).never before after c h in
          (
            (conditional_filter_expr-Grows b catalog scope filter grows).extends before c after h,
            record {
              guard_sure = rw never refl;
              stands_for = rw never (ap some (reads.lowered before after c h up));
            },
          );
    }

    absent-Means : Means (conditional_filter_expr b catalog scope absent) none
    unfolding conditional_filter_expr
    absent-Means = record {
      means = λ before after c h up.
          let same = done-injective h in
          (
            subst (λ p. Later before p.1) same (Later-refl before),
            rw (sym (ap (λ p. p.0) same)) (absent-Represents b reading),
          );
    }

    connect_filters-Means :
        (conjunction : Bool) (left right : Lowered b catalog) (d e : Option Truth)
        → Means left d
        → Means right e
        → Means
            (connect_filters b catalog conjunction left right)
            (joined (connective conjunction) d e)
    connect_filters-Means conjunction left right d e l r = record {
      means = λ before after c h up.
          let (x, middle, first, rest) = continue-eq-done _ (left before) h in
          let (y, last, second, end) = continue-eq-done _ (right middle) rest in
          let same = done-injective end in
          let same_c : combine_conditional b x conjunction y ≡ c = ap (λ p. p.0) same in
          let same_end : last ≡ after = ap (λ p. p.1) same in
          let second_after = second ∙ ap (λ t. done (y, t)) same_end in
          let (grown_right, represents_right) = r.means middle after y second_after up in
          let (grown_left, represents_left) =
            l.means before middle x first (Later-trans grown_right up) in
          (
            Later-trans grown_left grown_right,
            rw (sym same_c) (
                combine_conditional-Represents b reading x y conjunction d e represents_left
                  represents_right),
          );
    }

    negation-Means :
        (operand : Lowered b catalog) (d : Option Truth)
        → Means operand d
        → Means
            (operand >>= λ inner.
              give (record { present = inner.present; value = not_expr b inner.value }))
            (negated_meaning d)
    negation-Means operand d m = record {
      means = λ before after c h up.
          let (x, last, first, end) = continue-eq-done _ (operand before) h in
          let same = done-injective end in
          let same_end : last ≡ after = ap (λ p. p.1) same in
          let (grown, represents) =
            m.means before after x (first ∙ ap (λ t. done (x, t)) same_end) up in
          (grown, rw (sym (ap (λ p. p.0) same)) (negation-Represents b reading x d represents));
    }

    optional-Means :
        (parameter : SqlParameter) (operand : Lowered b catalog) (d : Option Truth)
        → PresenceRead parameter
        → Means operand d
        → Means
            (operand >>= λ inner. parameter_text parameter >>= λ placeholder. give (record {
              present = some (guard_with b reading (is_not_null placeholder) inner.present);
              value = inner.value;
            }))
            (if present parameter then d else none)
    optional-Means parameter operand d presence m = record {
      means = λ before after c h up.
          let (x, middle, first, rest) = continue-eq-done _ (operand before) h in
          let (placeholder, last, second, end) =
            continue-eq-done _ (parameter_text parameter middle) rest in
          let same = done-injective end in
          let same_end : last ≡ after = ap (λ p. p.1) same in
          let second_after = second ∙ ap (λ t. done (placeholder, t)) same_end in
          let (grown_after, numbers) =
            parameter_text-Numbers parameter middle placeholder after second_after in
          let (grown, represents) = m.means before middle x first (Later-trans grown_after up) in
          let guard_read : reading.value (is_not_null placeholder) ≡ of_bool (present parameter) =
            rw numbers.reads (
              presence numbers.index (
                get_elem?-Extends after.parameters up.parameters numbers.index numbers.at_index)) in
          (
            Later-trans grown grown_after,
            rw (sym (ap (λ p. p.0) same)) (
                guard_with-Represents b reading (is_not_null placeholder) x d (present parameter)
                  guard_read represents),
          );
    }

  module _ (final : SqlTemplateContext) (present : SqlParameter → Bool) (atom : FilterExpr → Truth)
      (grows : ScopeGrows scope) where
    lowering-Means :
        (filter : FilterExpr)
        → AtomsRead final present atom filter
        → Means final present
            (conditional_filter_expr b catalog scope filter)
            (filter_meaning present atom filter)
    unfolding conditional_filter_expr filter_meaning
    lowering-Means absent reads = absent-Means final present
    lowering-Means (optional parameter operand) reads =
        optional-Means final present parameter _ _ reads.0 (lowering-Means operand reads.1)
    lowering-Means (FilterExpr.column column_scope column) reads =
        atom-Means final present _ _ grows refl reads
    lowering-Means (literal value) reads = atom-Means final present _ _ grows refl reads
    lowering-Means (FilterExpr.parameter parameter) reads =
        atom-Means final present _ _ grows refl reads
    lowering-Means (dynamic_predicate path surface fields) reads =
        atom-Means final present _ _ grows refl reads
    lowering-Means (binary left FilterOp.and right) reads =
        connect_filters-Means final present true _ _ _ _ (lowering-Means left reads.0)
          (lowering-Means right reads.1)
    lowering-Means (binary left FilterOp.or right) reads =
        connect_filters-Means final present false _ _ _ _ (lowering-Means left reads.0)
          (lowering-Means right reads.1)
    lowering-Means (binary left FilterOp.eq right) reads =
        atom-Means final present _ _ grows refl reads
    lowering-Means (binary left FilterOp.ne right) reads =
        atom-Means final present _ _ grows refl reads
    lowering-Means (binary left FilterOp.gt right) reads =
        atom-Means final present _ _ grows refl reads
    lowering-Means (binary left FilterOp.ge right) reads =
        atom-Means final present _ _ grows refl reads
    lowering-Means (binary left FilterOp.lt right) reads =
        atom-Means final present _ _ grows refl reads
    lowering-Means (binary left FilterOp.le right) reads =
        atom-Means final present _ _ grows refl reads
    lowering-Means (binary left FilterOp.like right) reads =
        atom-Means final present _ _ grows refl reads
    lowering-Means (negation operand) reads =
        negation-Means final present _ _ (lowering-Means operand reads)
    lowering-Means (null_test operand negated) reads = atom-Means final present _ _ grows refl reads
    lowering-Means (membership operand collection negated) reads =
        atom-Means final present _ _ grows refl reads
    lowering-Means (variant_binary left path variants right) reads =
        atom-Means final present _ _ grows refl reads
    lowering-Means (exists relation table kind source_scope policy_filter field_filters inner)
          reads =
        atom-Means final present _ _ grows refl reads
    lowering-Means (relation_aggregate relation table function operand policy_filter field_filters)
          reads =
        atom-Means final present _ _ grows refl reads

    -- Let each atom of a filter, wherever its SQL is part of the final template, mean what `atom` says
    -- of it, let placeholders of the final parameters be non-null exactly where their parameters have a
    -- value, and let the guards of the scope only add to the template. If a filter is lowered to an
    -- expression, and the final template is that of this lowering or a later one, the expression has
    -- the truth value of the filter with its absent conditions left out, and is true where the whole
    -- filter is absent; and the lowering kept the number of every parameter, every sentinel, every
    -- dynamic marker and every dynamic site.
    pub filter_expr-means :
        (filter : FilterExpr)
        → AtomsRead final present atom filter
        → (before after : SqlTemplateContext) (e : Expr)
        → filter_expr b catalog scope filter before ≡ done (e, after)
        → Later after final
        → Later before after × (reading.value e ≡ or_holds (filter_meaning present atom filter))
    unfolding filter_expr
    filter_expr-means filter reads before after e h up =
        let (x, last, first, end) =
          continue-eq-done _ (conditional_filter_expr b catalog scope filter before) h in
        let same = done-injective end in
        let same_end : last ≡ after = ap (λ p. p.1) same in
        let (grown, represents) =
          (lowering-Means filter reads).means before after x
            (first ∙ ap (λ t. done (x, t)) same_end) up in
        (
          grown,
          rw (sym (ap (λ p. p.0) same)) (
              or_absent-Represents b reading catalog x (filter_meaning present atom filter)
                represents),
        )
