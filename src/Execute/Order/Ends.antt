-- ===== src/Execute/Order/Ends.antt =====
-- crates/dsql-execute/src/lib.rs: dynamic orders use no fuel.
use dsql.Prelude.{format, decimal, ℕ, suc, String, List, [], ◌∷◌, ◌≢◌, arith, string_eq}
use dsql.Metadata.Operation.{DynamicInputSite, DynamicInputMetadata}
use dsql.Execute.Error.{invalid_input, exhausted, ok_or, >>=-ends, ok-ends, ok_or-ends}
use dsql.Execute.Runtime.{Runtime}
use dsql.Execute.Dynamic.{dynamic_site_field}
use dsql.Execute.Dynamic.Terminates.{dynamic_site_field-ends}
use dsql.Execute.Order.{
  replace_dynamic_marker, single_entry, render_order_entry, render_order_entries,
  render_dynamic_order,
}

pub replace_dynamic_marker-ends :
    (sql : String) (site : DynamicInputSite) (rendered : String)
    → replace_dynamic_marker sql site rendered ≢ exhausted
unfolding replace_dynamic_marker
replace_dynamic_marker-ends sql site rendered = ground arith

module _ (rt : Runtime) where
  open rt use {Value}

  single_entry-ends : (v : Value) (path : String) → single_entry rt v path ≢ exhausted
  unfolding single_entry
  single_entry-ends v path = ground arith

  render_order_entry-ends :
      (input : DynamicInputMetadata) (site : DynamicInputSite) (v : Value) (item_path path : String)
      → render_order_entry rt input site v item_path path ≢ exhausted
  unfolding render_order_entry
  render_order_entry-ends input site v item_path path =
      >>=-ends (single_entry rt v item_path) _ (single_entry-ends v item_path) λ entry _.
        >>=-ends (dynamic_site_field input site entry.0 path) _
          (dynamic_site_field-ends input site entry.0 path) λ field _. ground arith

  render_order_entries-ends :
      (input : DynamicInputMetadata) (site : DynamicInputSite) (vs : List Value) (index : ℕ)
      (path : String)
      → render_order_entries rt input site vs index path ≢ exhausted
  unfolding render_order_entries
  render_order_entries-ends input site [] index path = ok-ends []
  render_order_entries-ends input site (v ∷ vs) index path =
      let item_path = format (path ∷ "[" ∷ decimal index ∷ "]" ∷ []) in
      >>=-ends (render_order_entry rt input site v item_path path) _
        (render_order_entry-ends input site v item_path path)
        λ shown _.
          >>=-ends (render_order_entries rt input site vs (suc index) path) _
            (render_order_entries-ends input site vs (suc index) path) λ rest _. ok-ends _

  pub render_dynamic_order-ends :
      (input : DynamicInputMetadata) (site : DynamicInputSite) (v : Value) (path : String)
      → render_dynamic_order rt input site v path ≢ exhausted
  unfolding render_dynamic_order
  render_dynamic_order-ends input site v path =
      >>=-ends (ok_or (rt.as_array v) (invalid_input path "an array of dynamic order entries")) _
        (ok_or-ends _ _)
        λ items _.
          >>=-ends (render_order_entries rt input site items 0 path) _
            (render_order_entries-ends input site items 0 path) λ rendered _. ok-ends _
