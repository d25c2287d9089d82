-- ===== src/Execute/Bind/Tests.antt =====
-- Tests of binding an input of the sample operation.
use dsql.Prelude.{[], ◌∷◌, ◌++◌, ◌≡◌, ◌≢◌, refl, false}
use dsql.Prelude.Int.{pos}
use dsql.Metadata.Wire.{integer, unsupported, wire_eq}
use dsql.Execute.Error.{ok}
use dsql.Execute.Sample.{sample, num}
use dsql.Execute.Samples.{bindings, limit_field}
use dsql.Execute.Inputs.{is_dynamic}
use dsql.Execute.Inputs.Tests.{limit_given}
use dsql.Execute.Bind.{Argument, bind}
use dsql.Execute.Bind.Total.{HasRaw}
use dsql.Execute.Bind.Accepted.{parameter_of}
use dsql.Execute.Bind.Inputs.{input_value-binds}

raw : HasRaw sample
raw v = refl

supported : integer ≢ unsupported
supported e = cc

static : is_dynamic "int" ≡ false
unfolding is_dynamic
static = refl

input_value-binds_example :
    (argument : Argument sample) × (bind sample [] (parameter_of sample limit_field (num (pos 5)))
      ≡ ok ([] ++ argument ∷ []))
input_value-binds_example =
    input_value-binds sample raw limit_field bindings (num (pos 5)) [] supported static limit_given
