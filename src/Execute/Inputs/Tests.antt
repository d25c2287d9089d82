-- ===== src/Execute/Inputs/Tests.antt =====
-- Tests of the inputs of the sample operation.
use dsql.Prelude.{some, ◌≡◌, refl, strip_prefix, split_dots}
use dsql.Prelude.Int.{pos}
use dsql.Execute.Error.{ok}
use dsql.Execute.Scalars.{is_safe_integer, integer_value}
use dsql.Execute.Sample.{Json, sample, num, obj, end, field}
use dsql.Execute.Samples.{bindings, limit_field, tenant_field}
use dsql.Execute.Inputs.{ExecutionBindings, lookup_path, input_value}
use dsql.Execute.Inputs.Context.{input_value-envelope, input_value-trusted}

-- A caller that tries to pass a tenant.
abbrev forged : ExecutionBindings sample
forged = record bindings { variables = obj (field "tenant" (num (pos 1)) end) }

pub limit_given : input_value sample limit_field bindings ≡ ok (some (num (pos 5)))
unfolding input_value strip_prefix split_dots is_safe_integer integer_value
limit_given = refl

tenant_given : input_value sample tenant_field bindings ≡ ok (some (num (pos 9)))
unfolding input_value strip_prefix split_dots is_safe_integer integer_value
tenant_given = refl

under_context : strip_prefix "context." "context.tenant" ≡ some "tenant"
unfolding strip_prefix
under_context = refl

input_value-envelope_example :
    input_value sample tenant_field bindings ≡ input_value sample tenant_field forged
unfolding strip_prefix
input_value-envelope_example = input_value-envelope sample tenant_field bindings forged refl

input_value-trusted_example :
    (v : Json) × (some (num (pos 9)) ≡ some v)
    × (lookup_path sample bindings.context "tenant" "context.tenant" ≡ ok (some v))
input_value-trusted_example =
    input_value-trusted sample tenant_field bindings "tenant" (some (num (pos 9))) under_context
      tenant_given
