-- ===== src/Execute/Emit/Steady.antt =====
-- Rendering steps that only add binds, and that find their own binds when they run again.
use mathlib.Core.Path.{subst}
use mathlib.Core.List.{append-nil, append_assoc}
use native.Mathlib.Nat.{le_refl}
use dsql.Prelude.{
  ◌≤◌, Bool, true, false, Option, none, some, List, [], ◌++◌, length, ◌≡◌, refl, sym, ◌∙◌, ap,
  arith, if◌then◌else◌,
}
use dsql.Execute.Error.{ExecuteError, Result, ok, err, exhausted, ok-injective}
use dsql.Execute.Runtime.{Runtime}
use dsql.Execute.Emit.{
  BoundParameter, Operands, Emit, ◌>>=◌, pure, raise, stop, lift, continue-eq-ok, or_continue,
}

module _ {rt : Runtime} where
  abbrev pub with_more : Operands rt → Operands rt → List (BoundParameter rt) → Operands rt
  with_more s s' more = record {
    parameters = s'.parameters ++ more;
    operand_index = s.operand_index;
  }

  -- From `s` the step reached `s'` and returned `a`.
  pub record Grows {A : Type 0} (m : Emit rt A) (s : Operands rt) (a : A) (s' : Operands rt)
      : Type 0 where
    pub added : List (BoundParameter rt)
    pub extends : s'.parameters ≡ s.parameters ++ added
    pub forward : s.operand_index ≤ s'.operand_index
    pub within : s'.operand_index ≤ length s'.parameters
    -- No bind is added before the operands have passed those that were there.
    pub frugal : s'.operand_index ≤ length s.parameters → s'.parameters ≡ s.parameters
    pub replay :
        (more : List (BoundParameter rt)) → m (with_more s s' more) ≡ ok (a, with_more s' s' more)

  pub record Steady {A : Type 0} (m : Emit rt A) : Type 0 where
    pub at :
        (s : Operands rt) (a : A) (s' : Operands rt)
        → s.operand_index ≤ length s.parameters
        → m s ≡ ok (a, s')
        → Grows m s a s'

module _ {rt : Runtime} {A : Type 0} where
  Grows-pure :
      (a : A) (s : Operands rt) → s.operand_index ≤ length s.parameters → Grows (pure a) s a s
  unfolding pure
  Grows-pure a s h = record {
    added = [];
    extends = sym (append-nil _);
    forward = le_refl _;
    within = h;
    frugal = λ _. refl;
    replay = λ more. refl;
  }

  pub Steady-pure : (a : A) → Steady (pure {rt = rt} a)
  unfolding pure
  Steady-pure a = record {
    at = λ s b s' h e.
        subst (λ (x : A × Operands rt). Grows (pure a) s x.0 x.1) (ok-injective e)
          (Grows-pure a s h);
  }

  pub Steady-raise : (e : ExecuteError) → Steady (raise {rt = rt} {A = A} e)
  unfolding raise
  Steady-raise e = record { at = λ s a s' h p. cc }

  pub Steady-stop : Steady (stop {rt = rt} {A = A})
  unfolding stop
  Steady-stop = record { at = λ s a s' h p. cc }

  pub Steady-lift : (r : Result A) → Steady (lift {rt = rt} r)
  unfolding pure lift
  Steady-lift (ok a) = Steady-pure a
  Steady-lift (err e) = record { at = λ s a s' h p. cc }
  Steady-lift exhausted = record { at = λ s a s' h p. cc }

  pub Steady-if : (b : Bool) (m n : Emit rt A) → Steady m → Steady n → Steady (if b then m else n)
  Steady-if true m n km kn = km
  Steady-if false m n km kn = kn

module _ {rt : Runtime} {A B : Type 0} where
  Grows-bind :
      (m : Emit rt A) (f : A → Emit rt B) {s s₁ s₂ : Operands rt} {a : A} {b : B}
      → Grows m s a s₁
      → Grows (f a) s₁ b s₂
      → Grows (m >>= f) s b s₂
  unfolding ◌>>=◌
  Grows-bind m f {s} {s₁} {s₂} {a} {b} g k = record {
    added = g.added ++ k.added;
    extends =
        k.extends ∙ ap (λ ps. ps ++ k.added) g.extends ∙ append_assoc s.parameters g.added k.added;
    forward = omega (arith, g.forward, k.forward);
    within = k.within;
    frugal = λ e.
        let first : s₁.parameters ≡ s.parameters = g.frugal (omega (arith, e, k.forward)) in
        k.frugal (rw first e) ∙ first;
    replay = λ more.
        let regroup : s₂.parameters ++ more ≡ s₁.parameters ++ (k.added ++ more) =
          ap (λ ps. ps ++ more) k.extends ∙ append_assoc s₁.parameters k.added more in
        rw (regroup, g.replay (k.added ++ more)) (rw regroup at (k.replay more));
  }

  pub Steady-bind :
      (m : Emit rt A) (f : A → Emit rt B) → Steady m → ((a : A) → Steady (f a)) → Steady (m >>= f)
  unfolding ◌>>=◌
  Steady-bind m f km kf = record {
    at = λ s b s₂ h e.
        let (a, s₁, first, second) = continue-eq-ok (m s) f e in
        let g = km.at s a s₁ h first in Grows-bind m f g ((kf a).at s₁ b s₂ g.within second);
  }

  pub Steady-or_continue :
      (o : Option A) (m : Emit rt B) (f : A → Emit rt B)
      → Steady m
      → ((a : A) → Steady (f a))
      → Steady (or_continue o m f)
  unfolding or_continue
  Steady-or_continue none m f km kf = km
  Steady-or_continue (some a) m f km kf = kf a

pub ruleset steady_rules = (
  Steady-pure, Steady-raise, Steady-stop, Steady-lift, Steady-if, Steady-bind, Steady-or_continue,
)
