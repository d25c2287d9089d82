-- ===== src/Execute/Order/Tests.antt =====
-- Tests of the place of a marker.
use dsql.Prelude.{none, String, ◌≡◌, ◌≢◌, refl, occurs_once, replace_first, split_once}
use dsql.Prelude.Text.Split.{around}
use dsql.Execute.Error.{ok}
use dsql.Execute.Samples.{site}
use dsql.Execute.Order.{replace_dynamic_marker}
use dsql.Execute.Order.Marker.{replace_dynamic_marker-place}

replaced : replace_dynamic_marker "a /*where*/ b" site "x = 1" ≡ ok "a x = 1 b"
unfolding replace_dynamic_marker occurs_once replace_first
replaced = refl

marked : site.marker ≢ ""
marked e = cc

replace_dynamic_marker-place_example :
    (w : String × String) × ("a /*where*/ b" ≡ around "/*where*/" w)
    × ("a x = 1 b" ≡ around "x = 1" w)
    × (split_once "/*where*/" w.1 ≡ none)
replace_dynamic_marker-place_example =
    replace_dynamic_marker-place "a /*where*/ b" site "x = 1" "a x = 1 b" marked replaced
