-- ===== src/Execute/Materialize/Shares.antt =====
-- crates/dsql-execute/src/lib.rs, `materialize_dynamic_inputs`: the binds of one site.
use native.Mathlib.Nat.{le_refl}
use dsql.Prelude.{
  ℕ, ◌≤◌, String, true, false, Option, [], length, ◌≡◌, refl, sym, ap, ◌∙◌, subst, arith,
  Bool-cases, inl, inr, ◌==◌, string_eq,
}
use dsql.Metadata.Operation.{DynamicInputSite, DynamicInputMetadata}
use dsql.Execute.Error.{ok, ◌>>=◌, >>=-eq-ok, ok-injective}
use dsql.Execute.Runtime.{Runtime}
use dsql.Execute.Emit.{Operands}
use dsql.Execute.Dynamic.{render_dynamic_predicate}
use dsql.Execute.Dynamic.Replay.{Steady-render_dynamic_predicate}
use dsql.Execute.Materialize.{
  MaterializedOperation, predicate_site, order_site, render_site, materialize_site, or_text,
  same_end, first_end,
}
use mathlib.Core.List.{append-nil}

module _ (rt : Runtime) (same_refl : (v : rt.Value) → rt.same_value v v ≡ true) (fuel : ℕ)
    (input : DynamicInputMetadata) (v : rt.Value) where
  -- Rendering a site from `s` gave `text` and `after`: it consumed binds that are there, added none
  -- before it had passed the old ones, and gives the same over its own binds.
  pub record Shares (site : DynamicInputSite) (s : Operands rt) (text : String)
      (after : Operands rt) : Type 0 where
    pub forward : s.operand_index ≤ after.operand_index
    pub within : after.operand_index ≤ length after.parameters
    pub frugal : after.operand_index ≤ length s.parameters → after.parameters ≡ s.parameters
    pub again :
        render_site rt fuel input site v
          (record { parameters = after.parameters; operand_index = s.operand_index })
        ≡ ok (text, after)

  predicate_again :
      (site : DynamicInputSite) (start : ℕ) (rendered : Option String) (reached : Operands rt)
      → render_dynamic_predicate rt fuel input site v input.path
          (record { parameters = reached.parameters; operand_index = start })
        ≡ ok (rendered, reached)
      → predicate_site rt fuel input site v
          (record { parameters = reached.parameters; operand_index = start })
        ≡ ok (or_text rendered site.identity_sql, reached)
  unfolding predicate_site
  predicate_again site start rendered reached h =
      ap (λ r. r >>= λ (t, a). ok (or_text t site.identity_sql, a)) h

  predicate_site-Shares :
      (site : DynamicInputSite) (s : Operands rt) (text : String) (after : Operands rt)
      → (input.kind == "predicate") ≡ true
      → s.operand_index ≤ length s.parameters
      → predicate_site rt fuel input site v s ≡ ok (text, after)
      → Shares site s text after
  unfolding predicate_site render_site
  predicate_site-Shares site s text after kind h e =
      let ((rendered, reached), first, last) =
        >>=-eq-ok _ (λ (r, a). ok (or_text r site.identity_sql, a)) e in
      let same : (or_text rendered site.identity_sql, reached) ≡ (text, after) =
        ok-injective last in
      let g =
        (Steady-render_dynamic_predicate rt same_refl fuel input site v input.path).at s rendered
          reached h first in
      subst (λ (p : String × Operands rt). Shares site s p.0 p.1) same
        (record {
          forward = g.forward;
          within = g.within;
          frugal = g.frugal;
          again = rw kind (
              predicate_again site s.operand_index rendered reached (
                ap
                  (λ ps.
                    render_dynamic_predicate rt fuel input site v input.path
                      (record { parameters = ps; operand_index = s.operand_index }))
                  (sym (append-nil reached.parameters))
                ∙ g.replay []
                ∙ ap (λ ps. ok (rendered, record reached { parameters = ps }))
                    (append-nil reached.parameters)));
        })

  order_site-Shares :
      (site : DynamicInputSite) (s : Operands rt) (text : String) (after : Operands rt)
      → (input.kind == "predicate") ≡ false
      → (input.kind == "order") ≡ true
      → s.operand_index ≤ length s.parameters
      → order_site rt input site v s ≡ ok (text, after)
      → Shares site s text after
  unfolding order_site render_site
  order_site-Shares site s text after other kind h e =
      let (rendered, first, last) = >>=-eq-ok _ (λ r. ok (or_text r site.identity_sql, s)) e in
      let same : (or_text rendered site.identity_sql, s) ≡ (text, after) = ok-injective last in
      subst (λ (p : String × Operands rt). Shares site s p.0 p.1) same
        (record {
          forward = le_refl _;
          within = h;
          frugal = λ _. refl;
          again = rw (other, kind, first) refl;
        })

  pub render_site-Shares :
      (site : DynamicInputSite) (s : Operands rt) (text : String) (after : Operands rt)
      → s.operand_index ≤ length s.parameters
      → render_site rt fuel input site v s ≡ ok (text, after)
      → Shares site s text after
  unfolding render_site
  render_site-Shares site s text after h e = elim (Bool-cases (input.kind == "predicate")) [
    | inl k ↦ predicate_site-Shares site s text after k h (ground arith)
    | inr k ↦ elim (Bool-cases (input.kind == "order")) [
      | inl j ↦ order_site-Shares site s text after k j h (ground arith)
      | inr j ↦ absurd (ground arith)
    ]
  ]

  pub materialize_site-Shares :
      (start : ℕ) (expected : Option ℕ) (draft : MaterializedOperation rt) (site : DynamicInputSite)
      (next : MaterializedOperation rt × ℕ)
      → start ≤ length draft.parameters
      → materialize_site rt fuel input v start expected draft site ≡ ok next
      → (text : String) × (after : Operands rt) × (render_site rt fuel input site v
            (record { parameters = draft.parameters; operand_index = start })
          ≡ ok (text, after))
        × (same_end rt input expected after.operand_index ≡ ok tt)
        × (next.0.parameters ≡ after.parameters)
        × (next.1 ≡ first_end rt expected after.operand_index)
  unfolding materialize_site
  materialize_site-Shares start expected draft site next h e =
      let s : Operands rt = record { parameters = draft.parameters; operand_index = start } in
      let ((text, after), first, e₁) = >>=-eq-ok (render_site rt fuel input site v s) _ e in
      let (_, ended, e₂) = >>=-eq-ok (same_end rt input expected after.operand_index) _ e₁ in
      let (sql, _, last) =
        >>=-eq-ok _
          (λ sql. ok (
            record { sql = sql; parameters = after.parameters },
            first_end rt expected after.operand_index,
          ))
          e₂ in
      let same : _ = sym (ok-injective last) in
      (
        text,
        after,
        first,
        ended,
        ap (λ (n : MaterializedOperation rt × ℕ). n.0.parameters) same,
        ap (λ (n : MaterializedOperation rt × ℕ). n.1) same,
      )
