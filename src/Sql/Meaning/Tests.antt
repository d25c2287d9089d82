-- ===== src/Sql/Meaning/Tests.antt =====
-- Tests on a builder whose expressions are truth values, and on a filter by an optional tenant.
use dsql.Prelude.{
  ℕ, zero, suc, String, Bool, true, false, Option, none, some, List, [], ◌∷◌, ◌≡◌, refl, ap, sym,
  ◌==◌, string_eq, if◌then◌else◌, format, decimal, get_elem?, Extends,
}
use dsql.Catalog.Types.{Catalog}
use dsql.Plan.Filter.{
  FilterOp, FilterLiteral, SqlParameter, FilterExpr, absent, optional, literal, binary, negation,
}
use dsql.Plan.Truth.{Truth, both, either, negate, of_bool}
use dsql.Sql.Builder.{Builder}
use dsql.Sql.Error.{done}
use dsql.Sql.Sites.{GeneratedSqlParameter}
use dsql.Sql.Template.{SqlTemplateContext, new_template, parameter_text, placeholder_text}
use dsql.Sql.Template.Grows.{
  done-injective, continue-eq-done, parameter_of, Numbers, Numbers-Later, parameter_text-Numbers,
  Later, Later-refl,
}
use dsql.Sql.View.{
  FilterSqlScope, raw_scope, combine_conditional, not_expr, value_or_absent, value_if_present,
}
use dsql.Sql.Lower.{conditional_filter_expr, filter_expr}
use dsql.Sql.Lower.Whole.{raw_grows, conditional_filter_expr-Extends}
use dsql.Sql.Meaning.{Reading, or_holds, filter_meaning}
use dsql.Sql.Meaning.Filters.{AtomReads, AtomsRead, filter_expr-means}
use dsql.Sql.Meaning.Returns.{Returns, filter_expr-returns}

-- The first parameter has a value, which is true; the second is null.
abbrev truth_of_text : String → Truth
truth_of_text text =
    if text == "FALSE"
    then Truth.fails
    else if text == "$2"
    then Truth.unknown
    else if text == "$2 IS NOT NULL"
    then Truth.fails
    else Truth.holds

abbrev truth_of_call : String → List Truth → Truth
truth_of_call text (x ∷ []) = if text == "NOT ($1)" then negate x else Truth.unknown
truth_of_call text _ = Truth.unknown

abbrev pub truths : Builder
truths = record {
  Expr = Truth;
  Condition = Unit;
  Select = Unit;
  col = λ _ _. Truth.unknown;
  and_expr = both;
  or_expr = either;
  eq_expr = λ _ _. Truth.unknown;
  ne_expr = λ _ _. Truth.unknown;
  gt_expr = λ _ _. Truth.unknown;
  gte_expr = λ _ _. Truth.unknown;
  lt_expr = λ _ _. Truth.unknown;
  lte_expr = λ _ _. Truth.unknown;
  cust = truth_of_text;
  cust_with_exprs = truth_of_call;
  value_text = λ _. Truth.unknown;
  value_i64 = λ _. Truth.unknown;
  value_u64 = λ _. Truth.unknown;
  value_bool = of_bool;
  case_or_null = λ _ _. Truth.unknown;
  exists_query = λ _. Truth.unknown;
  sub_query = λ _. Truth.unknown;
  asterisk = Truth.unknown;
  count_of = λ _. Truth.unknown;
  min_of = λ _. Truth.unknown;
  max_of = λ _. Truth.unknown;
  sum_of = λ _. Truth.unknown;
  avg_of = λ _. Truth.unknown;
  all_conditions = tt;
  add_equals = λ _ _ _. tt;
  select = tt;
  select_expr = λ _ _. tt;
  from_as = λ _ _ _. tt;
  cond_where = λ _ _. tt;
  and_where = λ _ _. tt;
  column_asterisk = λ _. tt;
  order_by_expr = λ _ _ _. tt;
  order_by = λ _ _ _. tt;
  limit = λ _ _. tt;
  offset = λ _ _. tt;
  to_text = λ _. "";
}

abbrev truths_reading : Reading truths
truths_reading = record {
  value = λ x. x;
  value-and = λ x y. refl;
  value-or = λ x y. refl;
  value-not = λ x. refl;
  value_true = refl;
  value_false = refl;
}

abbrev pub no_tables : Catalog
no_tables = record {
  default_schema = "public";
  tables = [];
  types = [];
  columns = [];
  relations = [];
}

abbrev rows : FilterSqlScope Truth
rows = raw_scope (record { table_alias = "t"; json_alias = "j"; result_alias = "r" })

abbrev tenant : SqlParameter
tenant = record { path = "tenant"; text_cast = none; collection = false }

abbrev constant : Bool → FilterExpr
constant value = literal (FilterLiteral.bool value)

abbrev tenant_filter : FilterExpr
tenant_filter =
    binary (optional tenant (constant false)) FilterOp.and
      (binary (negation (constant false)) FilterOp.or absent)

abbrev tenant_only : List GeneratedSqlParameter
tenant_only = (record { path = "tenant" }) ∷ []

abbrev before_tenant : SqlTemplateContext
before_tenant = new_template 1 1

abbrev after_tenant : SqlTemplateContext
after_tenant = record before_tenant { parameters = tenant_only }

-- A parameter that a second condition needs besides the tenant.
abbrev admin : SqlParameter
admin = record { path = "admin"; text_cast = none; collection = false }

-- The tenant has a value, so its condition counts; that on the admin is left out, and the negation of
-- an unknown value does not decide.
abbrev access_filter : FilterExpr
access_filter = binary (optional tenant (FilterExpr.parameter tenant)) FilterOp.and (
    binary (optional admin (negation (FilterExpr.parameter admin))) FilterOp.or
      (negation (negation (FilterExpr.parameter tenant))))

abbrev access_truth : FilterExpr → Truth
access_truth (FilterExpr.parameter parameter) =
    if parameter.path == "tenant" then Truth.holds else Truth.unknown
access_truth _ = Truth.unknown

abbrev has_value : SqlParameter → Bool
has_value parameter = parameter.path == "tenant"

abbrev after_access : SqlTemplateContext
after_access = record before_tenant {
  parameters = (record { path = "tenant" }) ∷ (record { path = "admin" }) ∷ [];
}

parameter-AtomReads :
    (parameter : SqlParameter) (meaning : Truth)
    → ((index : ℕ)
        → get_elem? after_access.parameters index ≡ some (parameter_of parameter)
        → truth_of_text (placeholder_text index parameter) ≡ meaning)
    → AtomReads truths no_tables truths_reading rows after_access
        (FilterExpr.parameter parameter)
        meaning
unfolding conditional_filter_expr
parameter-AtomReads parameter meaning read = record {
  lowered = λ before after c h up.
      let (text, middle, first, last) = continue-eq-done _ (parameter_text parameter before) h in
      let same = done-injective last in
      let same_end : middle ≡ after = ap (λ p. p.1) same in
      let numbers : Numbers after.parameters parameter text =
        rw (sym same_end) (parameter_text-Numbers parameter before text middle first).1 in
      let at_end = Numbers-Later up numbers in
      rw (sym (ap (λ p. p.0.value) same), at_end.reads) (read at_end.index at_end.at_index);
}

tenant_is_no_admin : some (parameter_of admin) ≡ some (parameter_of tenant) → ⊥
tenant_is_no_admin h =
    let same : "admin" ≡ "tenant" = ap path_of h in
    let equal : ◌==◌ {A = String} "admin" "tenant" ≡ true =
      (string_eq.beq_iff "admin" "tenant").1 same in
    cc
  where
    path_of : Option GeneratedSqlParameter → String
    path_of none = ""
    path_of (some parameter) = parameter.path

tenant_read :
    (index : ℕ)
    → get_elem? after_access.parameters index ≡ some (parameter_of tenant)
    → (truth_of_text (placeholder_text index tenant) ≡ Truth.holds)
      × (truth_of_text (format (placeholder_text index tenant ∷ " IS NOT NULL" ∷ [])) ≡ Truth.holds)
unfolding placeholder_text decimal
tenant_read zero h = (refl, refl)
tenant_read (suc zero) h = absurd (tenant_is_no_admin h)
tenant_read (suc (suc index)) h = cc

admin_read :
    (index : ℕ)
    → get_elem? after_access.parameters index ≡ some (parameter_of admin)
    → (truth_of_text (placeholder_text index admin) ≡ Truth.unknown)
      × (truth_of_text (format (placeholder_text index admin ∷ " IS NOT NULL" ∷ [])) ≡ Truth.fails)
unfolding placeholder_text decimal
admin_read zero h = absurd (tenant_is_no_admin (sym h))
admin_read (suc zero) h = (refl, refl)
admin_read (suc (suc index)) h = cc

access_reads :
    AtomsRead truths no_tables truths_reading rows after_access has_value access_truth access_filter
access_reads = (
  (λ index h. (tenant_read index h).1, tenant_atom),
  (
    (
      λ index h. (admin_read index h).1,
      parameter-AtomReads admin Truth.unknown (λ index h. (admin_read index h).0),
    ),
    tenant_atom,
  ),
)
  where
    tenant_atom :
        AtomReads truths no_tables truths_reading rows after_access
          (FilterExpr.parameter tenant)
          Truth.holds
    tenant_atom = parameter-AtomReads tenant Truth.holds (λ index h. (tenant_read index h).0)

access_lowered :
    filter_expr truths no_tables rows access_filter before_tenant ≡ done (Truth.holds, after_access)
unfolding filter_expr conditional_filter_expr new_template combine_conditional not_expr
    value_or_absent value_if_present parameter_text placeholder_text decimal
access_lowered = refl

-- The meaning, computed: the filter holds.
access_means : filter_meaning has_value access_truth access_filter ≡ some Truth.holds
unfolding filter_meaning
access_means = refl

filter_expr-means_example :
    Later before_tenant after_access
    × (Truth.holds ≡ or_holds (filter_meaning has_value access_truth access_filter))
filter_expr-means_example =
    filter_expr-means truths no_tables truths_reading rows after_access has_value access_truth
      (raw_grows truths no_tables rows.current.context) access_filter access_reads before_tenant
      after_access Truth.holds access_lowered (Later-refl after_access)

constant-Returns :
    (value : Bool) → Returns (conditional_filter_expr truths no_tables rows (constant value))
unfolding conditional_filter_expr
constant-Returns value = record { returns = λ before. (_, before, refl) }

filter_expr-returns_example :
    (e : Truth) × (after : SqlTemplateContext) × (filter_expr truths no_tables rows tenant_filter
        before_tenant
      ≡ done (e, after))
filter_expr-returns_example =
    filter_expr-returns truths no_tables rows tenant_filter
      (constant-Returns false, (constant-Returns false, tt)) before_tenant

tenant_conditional :
    conditional_filter_expr truths no_tables rows tenant_filter before_tenant
    ≡ done (record { present = none; value = Truth.fails }, after_tenant)
unfolding filter_expr conditional_filter_expr new_template combine_conditional not_expr
    value_or_absent value_if_present parameter_text placeholder_text decimal
tenant_conditional = refl

conditional_filter_expr-Extends_example : Extends before_tenant.parameters after_tenant.parameters
conditional_filter_expr-Extends_example =
    conditional_filter_expr-Extends truths no_tables rows tenant_filter
      (raw_grows truths no_tables rows.current.context) before_tenant after_tenant
      (record { present = none; value = Truth.fails }) tenant_conditional
