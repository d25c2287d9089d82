-- ===== src/Execute/Dynamic/Tests.antt =====
-- Tests of dynamic predicates on the sample operation.
use dsql.Prelude.{◌<◌, none, some, [], ◌∷◌, ◌≡◌, ◌≢◌, refl, false, arith, sort_texts, decimal, join}
use dsql.Prelude.Int.{pos}
use dsql.Metadata.Wire.{WireEncoding}
use dsql.Execute.Error.{ok, exhausted}
use dsql.Execute.Emit.{BoundParameter, Operands, ◌>>=◌, or_continue, lift, pure, raise, stop}
use dsql.Execute.Sample.{same_json, sample, num, depth, same_json_refl, sample-IsNested}
use dsql.Execute.Samples.{age, filter, site, over_thirty}
use dsql.Execute.Dynamic.{
  render_entries, render_entry, render_field, dynamic_site_field, render_operators, render_operand,
  scalar_operand, dynamic_field, allocate, agrees, around, array_at, boolean_operand,
  collection_operand, gathered, parenthesized_join, placeholder, provider_type_of, render_items,
  bound, dynamic_parameter, render_dynamic_predicate,
}
use dsql.Execute.Checks.{validate_dynamic_scalar, validate_dynamic_collection, dynamic_wire_accepts}
use dsql.Execute.Scalars.{
  is_safe_integer, pattern_is_valid, string_value, integer_value, big_integer_value, float_value,
}
use dsql.Execute.Dynamic.Operands.{Placed, dynamic_parameter-Placed}
use dsql.Execute.Dynamic.Terminates.{render_dynamic_predicate-ends}

abbrev nothing : Operands sample
nothing = record { parameters = []; operand_index = 0 }

abbrev thirty : BoundParameter sample
thirty = record {
  path = "filter.age.gt";
  data_type = "int";
  wire = WireEncoding.integer;
  provider_type = none;
  collection = false;
  value = num (pos 30);
}

abbrev one : Operands sample
one = record { parameters = thirty ∷ []; operand_index = 1 }

rendered :
    render_dynamic_predicate sample 2 filter site over_thirty "filter" nothing
    ≡ ok (some "(t.age > $1)", one)
unfolding render_entries render_entry render_field dynamic_site_field render_operators
    render_operand scalar_operand dynamic_field allocate agrees around array_at boolean_operand
    collection_operand gathered parenthesized_join placeholder provider_type_of render_items bound
    dynamic_parameter render_dynamic_predicate ◌>>=◌ or_continue lift pure raise stop sort_texts
    decimal join validate_dynamic_scalar validate_dynamic_collection dynamic_wire_accepts
    is_safe_integer pattern_is_valid string_value integer_value big_integer_value float_value
rendered = refl

abbrev again : Operands sample
again = record { parameters = thirty ∷ []; operand_index = 0 }

allocated :
    dynamic_parameter sample "filter.age.gt" age false (num (pos 30)) nothing ≡ ok ("$1", one)
unfolding allocate placeholder bound dynamic_parameter provider_type_of decimal ◌>>=◌
allocated = refl

-- A second site finds the bind of the first.
reused : dynamic_parameter sample "filter.age.gt" age false (num (pos 30)) again ≡ ok ("$1", one)
unfolding same_json agrees allocate placeholder bound dynamic_parameter provider_type_of decimal
    ◌>>=◌
reused = refl

dynamic_parameter-Placed_example : Placed sample thirty again "$1" one
unfolding provider_type_of
dynamic_parameter-Placed_example =
    dynamic_parameter-Placed sample same_json_refl "filter.age.gt" age false (num (pos 30)) again
      reused

deep_enough : depth over_thirty < 3
unfolding depth
deep_enough = omega arith

render_dynamic_predicate-ends_example :
    render_dynamic_predicate sample 3 filter site over_thirty "filter" nothing ≢ exhausted
render_dynamic_predicate-ends_example =
    render_dynamic_predicate-ends sample depth sample-IsNested 3 filter site over_thirty "filter"
      nothing deep_enough
