-- ===== src/Execute/Order.antt =====
-- crates/dsql-execute/src/lib.rs: dynamic orders, and the one place of a marker in the SQL text.
pub mod Marker
pub mod Ends
pub mod Tests
use dsql.Prelude.{
  ℕ, zero, suc, String, Bool, true, false, Option, none, some, List, [], ◌∷◌, find, if◌then◌else◌,
  ◌==◌, string_eq, format, join, decimal, replace_first, occurs_once,
}
use dsql.Metadata.Operation.{
  DynamicInputSiteField, DynamicInputSite, DynamicInputMetadata, SqlVariantCaseMetadata,
}
use dsql.Execute.Error.{invalid_input, Result, ok, err, ◌>>=◌, ok_or}
use dsql.Execute.Runtime.{Runtime}
use dsql.Execute.Scalars.{string_value}
use dsql.Execute.Dynamic.{dynamic_site_field, metadata_error}

unfoldable pub replace_dynamic_marker : String → DynamicInputSite → String → Result String
replace_dynamic_marker sql site rendered =
    if occurs_once site.marker sql
    then ok (replace_first sql site.marker rendered)
    else err (
        metadata_error ("marker `" ∷ site.marker ∷ "` does not identify exactly one SQL site" ∷ []))

abbrev pub some_joined : List String → Option String
some_joined [] = none
some_joined (x ∷ xs) = some (join (x ∷ xs) ", ")

module _ (rt : Runtime) where
  open rt use {Value, as_array, as_object}

  -- An entry is an object with one field.
  single_entry : Value → String → Result (String × Value)
  single_entry item item_path = elim (as_object item) [
    | some (entry ∷ []) ↦ ok entry
    | _ ↦ err (invalid_input item_path "a single-field order object")
  ]

  render_order_entry :
      DynamicInputMetadata → DynamicInputSite → Value → String → String → Result String
  unfolding single_entry
  render_order_entry input site item item_path path = do
    (field_key, wanted) ← single_entry item item_path
    field ← dynamic_site_field input site field_key path
    direction ← ok_or (string_value rt wanted) (invalid_input item_path "a dynamic order direction")
    case ←
        ok_or (find field.directions (λ case. case.value == direction))
          (invalid_input item_path "a declared dynamic order direction")
    ok case.text

  render_order_entries :
      DynamicInputMetadata → DynamicInputSite → List Value → ℕ → String → Result (List String)
  unfolding render_order_entry
  render_order_entries input site [] index path = ok []
  render_order_entries input site (item ∷ items) index path =
      let later = render_order_entries input site items (suc index) path in
      do
        shown ←
            render_order_entry input site item (format (path ∷ "[" ∷ decimal index ∷ "]" ∷ [])) path
        rest ← later
        ok (shown ∷ rest)

  unfoldable pub render_dynamic_order :
      DynamicInputMetadata → DynamicInputSite → Value → String → Result (Option String)
  unfolding render_order_entries
  render_dynamic_order input site v path = do
    items ← ok_or (as_array v) (invalid_input path "an array of dynamic order entries")
    rendered ← render_order_entries input site items 0 path
    ok (some_joined rendered)
