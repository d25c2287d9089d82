-- ===== src/Execute/Materialize/Sharing.antt =====
-- crates/dsql-execute/src/lib.rs, `materialize_dynamic_inputs`: the sites of one dynamic input share
-- their binds.
use dsql.Prelude.{
  ℕ, ◌≤◌, String, true, none, some, List, [], ◌∷◌, length, In, ◌≡◌, sym, ap, ◌∙◌, subst, arith,
  Bool-cases, inl, inr, string_eq, eqb, eqb_iff,
}
use dsql.Metadata.Operation.{DynamicInputSite, DynamicInputMetadata}
use dsql.Execute.Error.{ok, >>=-eq-ok, ok-injective}
use dsql.Execute.Runtime.{Runtime}
use dsql.Execute.Emit.{BoundParameter, Operands}
use dsql.Execute.Materialize.{
  MaterializedOperation, render_site, materialize_site, materialize_sites, same_end,
}
use dsql.Execute.Materialize.Shares.{render_site-Shares, materialize_site-Shares}

module _ (rt : Runtime) (same_refl : (v : rt.Value) → rt.same_value v v ≡ true) (fuel : ℕ)
    (input : DynamicInputMetadata) (v : rt.Value) where
  end_reached :
      (finish reached : ℕ) → same_end rt input (some finish) reached ≡ ok tt → reached ≡ finish
  end_reached finish reached e = elim (Bool-cases (eqb reached finish)) [
    | inl h ↦ (eqb_iff reached finish).0 h
    | inr h ↦ absurd (ground arith)
  ]

  module _ (start : ℕ) where
    abbrev pub operands : List (BoundParameter rt) → Operands rt
    operands ps = record { parameters = ps; operand_index = start }

    -- A site that is rendered over binds adds none, and ends at `finish`.
    abbrev Renders : List (BoundParameter rt) → ℕ → DynamicInputSite → Type 0
    Renders ps finish site =
        (text : String) × (render_site rt fuel input site v (operands ps)
          ≡ ok (text, record { parameters = ps; operand_index = finish }))

    later_site :
        (finish : ℕ) (draft : MaterializedOperation rt) (site : DynamicInputSite)
        (next : MaterializedOperation rt × ℕ)
        → start ≤ length draft.parameters
        → finish ≤ length draft.parameters
        → materialize_site rt fuel input v start (some finish) draft site ≡ ok next
        → (next.0.parameters ≡ draft.parameters)
          × (next.1 ≡ finish)
          × Renders draft.parameters finish site
    later_site finish draft site next h k e =
        let (text, after, rendered, ended, left, last) =
          materialize_site-Shares rt same_refl fuel input v start (some finish) draft site next h
            e in
        let shares =
          render_site-Shares rt same_refl fuel input v site (operands draft.parameters) text after h
            rendered in
        let reached : after.operand_index ≡ finish = end_reached finish after.operand_index ended in
        let unchanged : after.parameters ≡ draft.parameters =
          shares.frugal (omega (arith, reached, k)) in
        let same : after ≡ record { parameters = draft.parameters; operand_index = finish } =
          cc (unchanged, reached) in
        (left ∙ unchanged, last, (text, rendered ∙ ap (λ a. ok (text, a)) same))

    later_sites :
        (finish : ℕ) (draft : MaterializedOperation rt) (sites : List DynamicInputSite)
        (next : MaterializedOperation rt)
        → start ≤ length draft.parameters
        → finish ≤ length draft.parameters
        → materialize_sites rt fuel input v start (some finish) draft sites ≡ ok next
        → (next.parameters ≡ draft.parameters)
          × ((other : DynamicInputSite) → In other sites → Renders next.parameters finish other)
    unfolding materialize_sites
    later_sites finish draft [] next h k e = (
      ap (λ (m : MaterializedOperation rt). m.parameters) (sym (ok-injective e)),
      λ other i. absurd i,
    )
    later_sites finish draft (site ∷ sites) next h k e =
        let (mid, first, rest) =
          >>=-eq-ok _ (λ mid. materialize_sites rt fuel input v start (some mid.1) mid.0 sites) e in
        let (kept, same_finish, here) = later_site finish draft site mid h k first in
        let continued : materialize_sites rt fuel input v start (some finish) mid.0 sites
            ≡ ok next =
          ap (λ f. materialize_sites rt fuel input v start (some f) mid.0 sites) (sym same_finish)
          ∙ rest in
        let (kept_later, there) =
          later_sites finish mid.0 sites next (ground (arith, h, ap length kept))
            (ground (arith, k, ap length kept)) continued in
        let all_kept : next.parameters ≡ draft.parameters = kept_later ∙ kept in
        let at_end : Renders next.parameters finish site =
          subst (λ ps. Renders ps finish site) (sym all_kept) here in
        (
          all_kept,
          λ other. elim [
            | inl same ↦ subst (Renders next.parameters finish) (sym same) at_end
            | inr i ↦ there other i
          ],
        )

    -- Let the sites of a dynamic input be materialized from an operand that lies within the binds,
    -- and let the first site end at `after`. Then the binds in the end are those of the first site, and
    -- each of the sites, whatever its marker and its lowered operands, is rendered over these binds
    -- from the same operand, adds none to them and ends at the same operand: all sites of an input
    -- share one set of placeholders. The equality of values must be reflexive.
    pub materialize_sites-render_site :
        (draft : MaterializedOperation rt) (site : DynamicInputSite) (sites : List DynamicInputSite)
        (next : MaterializedOperation rt) (shown : String) (after : Operands rt)
        → start ≤ length draft.parameters
        → materialize_sites rt fuel input v start none draft (site ∷ sites) ≡ ok next
        → render_site rt fuel input site v (operands draft.parameters) ≡ ok (shown, after)
        → (other : DynamicInputSite) → In other (site ∷ sites)
        → (next.parameters ≡ after.parameters)
          × (text : String) × (render_site rt fuel input other v (operands next.parameters)
              ≡ ok (
                text,
                record { parameters = next.parameters; operand_index = after.operand_index },
              ))
    unfolding materialize_sites
    materialize_sites-render_site draft site sites next shown after h e rendered other i =
        let (mid, first, rest) =
          >>=-eq-ok _ (λ mid. materialize_sites rt fuel input v start (some mid.1) mid.0 sites) e in
        let (text, reached, again, _, left, last) =
          materialize_site-Shares rt same_refl fuel input v start none draft site mid h first in
        let same : (text, reached) ≡ (shown, after) = ok-injective (sym again ∙ rendered) in
        let shares =
          render_site-Shares rt same_refl fuel input v site (operands draft.parameters) shown after
            h rendered in
        let bound : mid.0.parameters ≡ after.parameters = left ∙ ap (λ p. p.1.parameters) same in
        let finish : mid.1 ≡ after.operand_index = last ∙ ap (λ p. p.1.operand_index) same in
        let continued : materialize_sites rt fuel input v start (some after.operand_index) mid.0
              sites
            ≡ ok next =
          ap (λ f. materialize_sites rt fuel input v start (some f) mid.0 sites) (sym finish)
          ∙ rest in
        let (kept, there) =
          later_sites after.operand_index mid.0 sites next
            (ground (arith, shares.forward, shares.within, ap length bound))
            (ground (arith, shares.within, ap length bound)) continued in
        let all_kept : next.parameters ≡ after.parameters = kept ∙ bound in
        let first_again : Renders after.parameters after.operand_index site =
          (shown, shares.again) in
        let at_end : Renders next.parameters after.operand_index site =
          subst (λ ps. Renders ps after.operand_index site) (sym all_kept) first_again in
        let renders : Renders next.parameters after.operand_index other = elim i [
          | inl same_site ↦
              subst (Renders next.parameters after.operand_index) (sym same_site) at_end
          | inr later ↦ there other later
        ] in
        let (spelled, over_binds) = renders in (all_kept, spelled, over_binds)
