-- ===== src/Execute/Materialize/Tests.antt =====
-- Tests of materializing the sample operation.
use dsql.Prelude.{
  String, ◌<◌, sym, ◌∙◌, none, some, [], ◌∷◌, ◌≡◌, ◌≢◌, refl, get_elem?, inl, inr, arith, false,
  sort_texts, decimal, join, strip_prefix, split_dots, occurs_once, replace_first,
}
use dsql.Prelude.Int.{pos}
use dsql.Metadata.Wire.{DefinitionKind, WireEncoding}
use dsql.Execute.Error.{ok, exhausted, ok-injective}
use dsql.Prelude.Text.Split.{some-injective}
use dsql.Execute.Emit.{BoundParameter, Operands}
use dsql.Execute.Sample.{
  same_json, obj, end, arr, nil, sample, num, depth, same_json_refl, sample-IsNested,
}
use dsql.Execute.Samples.{
  gt, site, filter, people, bindings, filter_field, limit_field, over_thirty,
}
use dsql.Execute.Inputs.{input_value, is_dynamic}
use dsql.Execute.Order.{replace_dynamic_marker}
use dsql.Execute.Emit.{◌>>=◌, or_continue, lift, pure}
use dsql.Execute.Scalars.{
  is_safe_integer, pattern_is_valid, string_value, integer_value, big_integer_value, float_value,
}
use dsql.Execute.Checks.{validate_dynamic_scalar, dynamic_wire_accepts}
use dsql.Execute.Dynamic.{
  render_entries, render_entry, render_field, render_operators, render_operand, scalar_operand,
  allocate, agrees, around, array_at, placeholder, dynamic_parameter, render_dynamic_predicate,
  dynamic_site_field, dynamic_field, parenthesized_join, provider_type_of, bound,
}
use dsql.Execute.Materialize.{
  MaterializedOperation, materialize, materialize_query, materialize_kind, draft_query,
  collect_values, materialize_dynamic_inputs, materialize_input, materialize_sites,
  materialize_site, render_site, predicate_site, dynamic_value, materialized_value, bind_parameter,
  replace_variants, declared, declared_from,
}
use dsql.Execute.Materialize.Sharing.{materialize_sites-render_site}
use dsql.Metadata.Operation.{DynamicInputSite}
use native.Mathlib.Nat.{le_refl}
use dsql.Execute.Materialize.Static.{IsStatic, materialize-IsStatic}
use dsql.Execute.Materialize.Enough.{InputsBelow, materialize-ends}

abbrev limit_parameter : BoundParameter sample
limit_parameter = record {
  path = "limit";
  data_type = "int";
  wire = WireEncoding.integer;
  provider_type = none;
  collection = false;
  value = num (pos 5);
}

abbrev age_parameter : BoundParameter sample
age_parameter = record limit_parameter { path = "filter.age.gt"; value = num (pos 30) }

abbrev materialized : MaterializedOperation sample
materialized = record {
  sql = "select * from people t where (t.age > $2) limit $1";
  parameters = limit_parameter ∷ age_parameter ∷ [];
}

materialize-people : materialize sample 3 people bindings ≡ ok materialized
unfolding materialize materialize_query materialize_kind draft_query collect_values
    materialize_dynamic_inputs materialize_input materialize_sites materialize_site render_site
    predicate_site dynamic_value materialized_value bind_parameter replace_variants declared
    declared_from render_entries render_entry render_field render_operators render_operand
    scalar_operand allocate agrees around array_at placeholder dynamic_parameter
    render_dynamic_predicate dynamic_site_field dynamic_field parenthesized_join provider_type_of
    bound ◌>>=◌ or_continue lift pure sort_texts decimal join strip_prefix split_dots occurs_once
    replace_first is_safe_integer pattern_is_valid string_value integer_value big_integer_value
    float_value validate_dynamic_scalar dynamic_wire_accepts input_value replace_dynamic_marker
    is_dynamic
materialize-people = refl

materialize-IsStatic_example :
    (DefinitionKind.query ≡ DefinitionKind.query)
    × (p : BoundParameter sample) × (get_elem? (limit_parameter ∷ age_parameter ∷ []) 0 ≡ some p)
    × IsStatic sample bindings people (record { path = "limit" }) p
materialize-IsStatic_example =
    materialize-IsStatic sample bindings people same_json_refl 3 materialized 0
      (record { path = "limit" }) materialize-people refl

-- A second use of the filter, in a query that names the table otherwise.
abbrev other_site : DynamicInputSite
other_site = record {
  marker = "/*elsewhere*/";
  identity_sql = "TRUE";
  fields =
      (record {
        key = "age";
        operators = record gt { before_value = some "u.years > " } ∷ [];
        directions = [];
      })
      ∷ [];
}

abbrev two_uses : MaterializedOperation sample
two_uses = record {
  sql = "select * from people t where /*where*/ and exists (select 1 from u where /*elsewhere*/)";
  parameters = limit_parameter ∷ [];
}

abbrev both_replaced : MaterializedOperation sample
both_replaced = record {
  sql =
      "select * from people t where (t.age > $2) and exists (select 1 from u where (u.years > $2))";
  parameters = limit_parameter ∷ age_parameter ∷ [];
}

abbrev both_bound : Operands sample
both_bound = record { parameters = limit_parameter ∷ age_parameter ∷ []; operand_index = 2 }

abbrev from_one : Operands sample
from_one = record { parameters = limit_parameter ∷ []; operand_index = 1 }

uses_materialized :
    materialize_sites sample 3 filter over_thirty 1 none two_uses (site ∷ other_site ∷ [])
    ≡ ok both_replaced
unfolding materialize_sites materialize_site render_site predicate_site render_entries render_entry
    render_field render_operators render_operand scalar_operand allocate agrees around array_at
    placeholder dynamic_parameter render_dynamic_predicate dynamic_site_field dynamic_field
    parenthesized_join provider_type_of bound ◌>>=◌ or_continue lift pure sort_texts decimal join
    strip_prefix split_dots occurs_once replace_first is_safe_integer pattern_is_valid string_value
    integer_value big_integer_value float_value validate_dynamic_scalar dynamic_wire_accepts
    replace_dynamic_marker same_json
uses_materialized = refl

first_rendered :
    render_site sample 3 filter site over_thirty from_one ≡ ok ("(t.age > $2)", both_bound)
unfolding materialize_sites materialize_site render_site predicate_site render_entries render_entry
    render_field render_operators render_operand scalar_operand allocate agrees around array_at
    placeholder dynamic_parameter render_dynamic_predicate dynamic_site_field dynamic_field
    parenthesized_join provider_type_of bound ◌>>=◌ or_continue lift pure sort_texts decimal join
    strip_prefix split_dots occurs_once replace_first is_safe_integer pattern_is_valid string_value
    integer_value big_integer_value float_value validate_dynamic_scalar dynamic_wire_accepts
    replace_dynamic_marker
first_rendered = refl

materialize_sites-render_site_example :
    ((limit_parameter ∷ age_parameter ∷ []) ≡ (limit_parameter ∷ age_parameter ∷ []))
    × (text : String) × (render_site sample 3 filter other_site over_thirty
          (record { parameters = limit_parameter ∷ age_parameter ∷ []; operand_index = 1 })
        ≡ ok (text, both_bound))
materialize_sites-render_site_example =
    materialize_sites-render_site sample same_json_refl 3 filter over_thirty 1 two_uses site
      (other_site ∷ []) both_replaced "(t.age > $2)" both_bound (le_refl 1) uses_materialized
      first_rendered other_site (inr (inl refl))

limit_read : input_value sample limit_field bindings ≡ ok (some (num (pos 5)))
unfolding input_value strip_prefix split_dots is_safe_integer integer_value
limit_read = refl

filter_read : input_value sample filter_field bindings ≡ ok (some over_thirty)
unfolding input_value strip_prefix split_dots is_safe_integer integer_value is_dynamic
filter_read = refl

below : InputsBelow sample depth 3 bindings (limit_field ∷ filter_field ∷ [])
unfolding depth
below field v (inl e) got =
    let same : num (pos 5) ≡ v = some-injective (ok-injective (sym limit_read ∙ rw e at got)) in
    rw (sym same) (omega arith)
below field v (inr (inl e)) got =
    let same : over_thirty ≡ v = some-injective (ok-injective (sym filter_read ∙ rw e at got)) in
    rw (sym same) (omega arith)
below field v (inr (inr e)) got = absurd e

empty_object_below : depth (obj end) < 3
unfolding depth
empty_object_below = omega arith

empty_array_below : depth (arr nil) < 3
unfolding depth
empty_array_below = omega arith

materialize-ends_example : materialize sample 3 people bindings ≢ exhausted
materialize-ends_example =
    materialize-ends sample depth sample-IsNested 3 empty_object_below empty_array_below people
      bindings below
