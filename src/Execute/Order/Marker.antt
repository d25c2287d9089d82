-- ===== src/Execute/Order/Marker.antt =====
-- crates/dsql-execute/src/lib.rs, `replace_dynamic_marker`: where the rendered text is put.
use Prim.Native.String.{String}
use dsql.Prelude.{
  none, some, true, ◌≡◌, Option-cases, Bool-cases, inl, inr, ◌==◌, string_eq, ◌≢◌, arith,
}
use dsql.Prelude.Text.{split_once, replace_first, occurs_once}
use dsql.Prelude.Text.Split.{around, split_once-eq}
use dsql.Metadata.Operation.{DynamicInputSite}
use dsql.Execute.Error.{ok}
use dsql.Execute.Order.{replace_dynamic_marker}

once-split :
    (p s : String)
    → p ≢ ""
    → occurs_once p s ≡ true
    → (w : String × String) × (split_once p s ≡ some w) × (split_once p w.1 ≡ none)
unfolding occurs_once
once-split p s n h = elim (Bool-cases (p == "")) [
  | inl e ↦ absurd (n ((string_eq.beq_iff _ _).0 e))
  | inr e ↦ elim (Option-cases (split_once p s)) [
    | inl f ↦ absurd (ground arith)
    | inr (w, f) ↦ elim (Option-cases (split_once p w.1)) [
      | inl g ↦ (w, f, g)
      | inr (v, g) ↦ absurd (ground arith)
    ]
  ]
]

-- A marker that is not empty is replaced at one place of the SQL text and nowhere else: the text
-- reads before, marker, after, the result reads before, rendered text, after, and the marker does
-- not occur after that place.
pub replace_dynamic_marker-place :
    (sql : String) (site : DynamicInputSite) (rendered out : String)
    → site.marker ≢ ""
    → replace_dynamic_marker sql site rendered ≡ ok out
    → (w : String × String) × (sql ≡ around site.marker w)
      × (out ≡ around rendered w)
      × (split_once site.marker w.1 ≡ none)
unfolding replace_dynamic_marker replace_first
replace_dynamic_marker-place sql site rendered out n h =
    elim (Bool-cases (occurs_once site.marker sql)) [
      | inr e ↦ absurd (ground arith)
      | inl e ↦
          let (w, found, last) = once-split site.marker sql n e in
          (w, split_once-eq site.marker sql found, ground arith, last)
    ]
