-- ===== src/Prelude/Text/Split.antt =====
-- A prefix that is stripped and an occurrence that is split off stand in the text.
use Prim.Native.Char.{Char}
use Prim.Native.String.{String, ◌++◌}
use Prim.Native.String.append
use mathlib.Core.Option.{Option, none, some}
use mathlib.Core.Logic.{inl, inr}
use mathlib.Core.Path.{◌≡◌, sym, ap, ◌∙◌}
use text.Mathlib.TextEquality.{Char-path}
use native.Mathlib.Omega.{arith}
use dsql.Prelude.Tests.{eqb_iff, Bool-cases, Option-cases}
use dsql.Prelude.Text.{same, strip_prefix, split_once}

pub strip_prefix-eq : (p s : String) {r : String} → strip_prefix p s ≡ some r → s ≡ p ++ r
unfolding strip_prefix
strip_prefix-eq String.[] s {r} h = ap (elim [ none ↦ r | some t ↦ t ]) h ∙ sym (append.nil r)
strip_prefix-eq (String.◌∷◌ c p) String.[] h = cc
strip_prefix-eq (String.◌∷◌ c p) (String.◌∷◌ d s) {r} h = elim (Bool-cases (same c d)) [
  | inr e ↦ absurd (ground arith)
  | inl e ↦
      let one : d ≡ c = sym (Char-path c d ((eqb_iff _ _).0 e)) in
      let rest : s ≡ p ++ r = strip_prefix-eq p s (ground arith) in
      rw (one, rest) (sym (append.cons c p r))
]

abbrev from_some {ℓ} : {A : Type ℓ} → A → Option A → A
from_some d none = d
from_some d (some a) = a

pub some-injective {ℓ} : {A : Type ℓ} {a b : A} → some a ≡ some b → a ≡ b
some-injective {a} p = ap (from_some a) p

-- The text with its occurrence, or what replaced it, between the two parts.
abbrev pub around : String → String × String → String
around p w = w.0 ++ (p ++ w.1)

around-cons :
    (p : String) (c : Char) (v : String × String)
    → around p (String.◌∷◌ c v.0, v.1) ≡ String.◌∷◌ c (around p v)
around-cons p c v = append.cons c v.0 (p ++ v.1)

pub split_once-eq : (p s : String) {w : String × String} → split_once p s ≡ some w → s ≡ around p w
unfolding split_once
split_once-eq p String.[] {w} h = elim (Option-cases (strip_prefix p "")) [
  | inl e ↦ absurd (ground arith)
  | inr (r, e) ↦
      let same : ("", r) ≡ w = some-injective (rw e at h) in
      rw (sym same) (strip_prefix-eq p "" e ∙ sym (append.nil (p ++ r)))
]
split_once-eq p (String.◌∷◌ c s) {w} h = elim (Option-cases (strip_prefix p (String.◌∷◌ c s))) [
  | inr (r, e) ↦
      let same : ("", r) ≡ w = ground arith in
      rw (sym same) (strip_prefix-eq p _ e ∙ sym (append.nil (p ++ r)))
  | inl e ↦ elim (Option-cases (split_once p s)) [
    | inl n ↦ absurd (ground arith)
    | inr (v, found) ↦
        let same : (String.◌∷◌ c v.0, v.1) ≡ w = ground arith in
        rw (sym same) (ap (String.◌∷◌ c) (split_once-eq p s found) ∙ sym (around-cons p c v))
  ]
]
