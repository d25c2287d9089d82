-- ===== src/Sql/Paging/Tests.antt =====
-- Tests on a limit that a parameter gives, under a limit of 100 on collections.
use dsql.Prelude.{ℕ, false, some, none, [], ◌∷◌, decimal, ◌≡◌, refl}
use dsql.Plan.Filter.{SqlParameter, SqlValue}
use dsql.Sql.Error.{done}
use dsql.Sql.Template.{
  SqlTemplateContext, new_template, parameter_text, placeholder_text, numeric_sentinel,
  checked_next,
}
use dsql.Sql.Paging.{
  SelectionClauses, PostgresSqlOptions, effective_limit, should_use_source_subquery, sql_value_u64,
  guarded_numeric_parameter_sentinel, apply_limit,
}
use dsql.Sql.Paging.Limit.{LimitedTo, apply_limit_bound}
use dsql.Sql.Meaning.Tests.{truths, no_tables}

abbrev wanted : SqlParameter
wanted = record { path = "limit"; text_cast = none; collection = false }

abbrev page_clauses : SelectionClauses
page_clauses = record {
  filter = none;
  order_by = [];
  limit = some (SqlValue.parameter wanted);
  offset = none;
}

abbrev at_most_100 : PostgresSqlOptions
at_most_100 = record { collection_limit = some 100 }

limit_of_page : effective_limit page_clauses at_most_100 ≡ some 100
unfolding effective_limit sql_value_u64
limit_of_page = refl

limit_of_literal :
    effective_limit (record page_clauses { limit = some (SqlValue.literal 20) }) at_most_100
    ≡ some 20
unfolding effective_limit sql_value_u64
limit_of_literal = refl

source_of_page :
    should_use_source_subquery page_clauses (record { collection_limit = none }) ≡ false
unfolding should_use_source_subquery effective_limit sql_value_u64
source_of_page = refl

abbrev before_page : SqlTemplateContext
before_page = new_template 9000 0

abbrev after_page : SqlTemplateContext
after_page = record before_page {
  parameters = (record { path = "limit" }) ∷ [];
  numeric_replacements = ("9000", "LEAST(COALESCE($1, 100), 100)") ∷ [];
  next_sentinel = 9001;
}

page_limited :
    apply_limit truths no_tables page_clauses.limit
      (effective_limit page_clauses at_most_100)
      tt
      before_page
    ≡ done (tt, after_page)
unfolding effective_limit sql_value_u64 guarded_numeric_parameter_sentinel parameter_text
    placeholder_text numeric_sentinel checked_next new_template decimal
page_limited = refl

apply_limit_bound_example :
    (n : ℕ) × (tt ≡ truths.limit n tt) × LimitedTo page_clauses.limit 100 n after_page
apply_limit_bound_example =
    apply_limit_bound truths no_tables page_clauses 100 tt tt before_page after_page page_limited
