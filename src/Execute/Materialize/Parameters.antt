-- ===== src/Execute/Materialize/Parameters.antt =====
-- crates/dsql-execute/src/lib.rs, `materialize`: dynamic inputs only add parameters.
use native.Mathlib.Nat.{le_refl}
use dsql.Prelude.{
  Extends, Extends-refl, Extends-trans, Extends-length, ℕ, ◌≤◌, String, true, Option, none, some,
  List, [], ◌∷◌, length, ◌≡◌, sym, ap, arith, Bool-cases, inl, inr, ◌==◌, string_eq,
}
use dsql.Metadata.Operation.{DynamicInputSite, DynamicInputMetadata}
use dsql.Execute.Error.{ok, >>=-eq-ok, ok-injective}
use dsql.Execute.Runtime.{Runtime}
use dsql.Execute.Emit.{Operands}
use dsql.Execute.Dynamic.Replay.{Steady-render_dynamic_predicate}
use dsql.Execute.Materialize.{
  Dictionary, MaterializedOperation, materialized_value, predicate_site, order_site, render_site,
  materialize_site, materialize_sites, materialize_input, materialize_dynamic_inputs, or_text,
  same_end, first_end, has_sites, dynamic_value,
}

module _ (rt : Runtime) (same_refl : (v : rt.Value) → rt.same_value v v ≡ true) where
  predicate_site-Extends :
      (fuel : ℕ) (input : DynamicInputMetadata) (site : DynamicInputSite) (v : rt.Value)
      (s : Operands rt) (out : String × Operands rt)
      → s.operand_index ≤ length s.parameters
      → predicate_site rt fuel input site v s ≡ ok out
      → Extends s.parameters out.1.parameters
  unfolding predicate_site
  predicate_site-Extends fuel input site v s out h e =
      let ((rendered, after), first, last) =
        >>=-eq-ok _ (λ (r, a). ok (or_text r site.identity_sql, a)) e in
      let g =
        (Steady-render_dynamic_predicate rt same_refl fuel input site v input.path).at s rendered
          after h first in
      rw (sym (ok-injective last)) (g.added, g.extends)

  order_site-Extends :
      (input : DynamicInputMetadata) (site : DynamicInputSite) (v : rt.Value) (s : Operands rt)
      (out : String × Operands rt)
      → order_site rt input site v s ≡ ok out
      → Extends s.parameters out.1.parameters
  unfolding order_site
  order_site-Extends input site v s out e =
      let (rendered, _, last) = >>=-eq-ok _ (λ r. ok (or_text r site.identity_sql, s)) e in
      rw (sym (ok-injective last)) (Extends-refl s.parameters)

  render_site-Extends :
      (fuel : ℕ) (input : DynamicInputMetadata) (site : DynamicInputSite) (v : rt.Value)
      (s : Operands rt) {out : String × Operands rt}
      → s.operand_index ≤ length s.parameters
      → render_site rt fuel input site v s ≡ ok out
      → Extends s.parameters out.1.parameters
  unfolding render_site
  render_site-Extends fuel input site v s {out} h e =
      elim (Bool-cases (input.kind == "predicate")) [
        | inl k ↦ predicate_site-Extends fuel input site v s out h (ground arith)
        | inr k ↦ elim (Bool-cases (input.kind == "order")) [
          | inl j ↦ order_site-Extends input site v s out (ground arith)
          | inr j ↦ absurd (ground arith)
        ]
      ]

  materialize_site-Extends :
      (fuel : ℕ) (input : DynamicInputMetadata) (v : rt.Value) (start : ℕ) (expected : Option ℕ)
      (draft : MaterializedOperation rt) (site : DynamicInputSite)
      {next : MaterializedOperation rt × ℕ}
      → start ≤ length draft.parameters
      → materialize_site rt fuel input v start expected draft site ≡ ok next
      → Extends draft.parameters next.0.parameters
  unfolding materialize_site
  materialize_site-Extends fuel input v start expected draft site h e =
      let s : Operands rt = record { parameters = draft.parameters; operand_index = start } in
      let ((rendered, after), first, e₁) = >>=-eq-ok (render_site rt fuel input site v s) _ e in
      let (_, _, e₂) = >>=-eq-ok (same_end rt input expected after.operand_index) _ e₁ in
      let (sql, _, last) =
        >>=-eq-ok _
          (λ sql. ok (
            record { sql = sql; parameters = after.parameters },
            first_end rt expected after.operand_index,
          ))
          e₂ in
      let same : _ =
        ap (λ (n : MaterializedOperation rt × ℕ). n.0.parameters) (ok-injective last) in
      rw (sym same) (render_site-Extends fuel input site v s h first)

  materialize_sites-Extends :
      (fuel : ℕ) (input : DynamicInputMetadata) (v : rt.Value) (start : ℕ) (expected : Option ℕ)
      (draft : MaterializedOperation rt) (sites : List DynamicInputSite)
      {next : MaterializedOperation rt}
      → start ≤ length draft.parameters
      → materialize_sites rt fuel input v start expected draft sites ≡ ok next
      → Extends draft.parameters next.parameters
  unfolding materialize_sites
  materialize_sites-Extends fuel input v start expected draft [] h e =
      rw (sym (ok-injective e)) (Extends-refl _)
  materialize_sites-Extends fuel input v start expected draft (site ∷ sites) h e =
      let (next, first, later) =
        >>=-eq-ok _ (λ next. materialize_sites rt fuel input v start (some next.1) next.0 sites)
          e in
      let grown = materialize_site-Extends fuel input v start expected draft site h first in
      Extends-trans draft.parameters grown (
        materialize_sites-Extends fuel input v start (some next.1) next.0 sites
          (omega (arith, Extends-length draft.parameters grown)) later)

  materialize_input-Extends :
      (fuel : ℕ) (values : Dictionary rt.Value) (draft : MaterializedOperation rt)
      (input : DynamicInputMetadata) {next : MaterializedOperation rt}
      → materialize_input rt fuel values draft input ≡ ok next
      → Extends draft.parameters next.parameters
  unfolding materialize_input
  materialize_input-Extends fuel values draft input e =
      let (given, _, e₁) = >>=-eq-ok (materialized_value rt values input.path) _ e in
      let (v, _, e₂) = >>=-eq-ok (dynamic_value rt input given) _ e₁ in
      let (after, sites, e₃) =
        >>=-eq-ok
          (materialize_sites rt fuel input v (length draft.parameters) none draft input.sites) _
          e₂ in
      let (_, _, last) = >>=-eq-ok (has_sites rt input) (λ _. ok after) e₃ in
      rw (sym (ok-injective last))
        (materialize_sites-Extends fuel input v _ none draft input.sites (le_refl _) sites)

  pub materialize_dynamic_inputs-Extends :
      (fuel : ℕ) (values : Dictionary rt.Value) (draft : MaterializedOperation rt)
      (inputs : List DynamicInputMetadata) {next : MaterializedOperation rt}
      → materialize_dynamic_inputs rt fuel values draft inputs ≡ ok next
      → Extends draft.parameters next.parameters
  unfolding materialize_dynamic_inputs
  materialize_dynamic_inputs-Extends fuel values draft [] e =
      rw (sym (ok-injective e)) (Extends-refl _)
  materialize_dynamic_inputs-Extends fuel values draft (input ∷ inputs) e =
      let (next, first, later) =
        >>=-eq-ok _ (λ next. materialize_dynamic_inputs rt fuel values next inputs) e in
      Extends-trans draft.parameters (materialize_input-Extends fuel values draft input first)
        (materialize_dynamic_inputs-Extends fuel values next inputs later)
