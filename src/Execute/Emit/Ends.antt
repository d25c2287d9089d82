-- ===== src/Execute/Emit/Ends.antt =====
-- Rendering steps that never run out of fuel.
use dsql.Prelude.{Bool, true, false, Option, none, some, ◌≡◌, ◌≢◌, refl, if◌then◌else◌}
use dsql.Execute.Error.{ExecuteError, Result, ok, err, exhausted, ok_or, ok_or-ends}
use dsql.Execute.Runtime.{Runtime}
use dsql.Execute.Emit.{Operands, Emit, continue, ◌>>=◌, pure, raise, lift, or_continue}

pub record Ends {rt : Runtime} {A : Type 0} (m : Emit rt A) : Type 0 where
  pub at : (s : Operands rt) → m s ≢ exhausted

module _ {rt : Runtime} {A : Type 0} where
  pub Ends-pure : (a : A) → Ends (pure {rt = rt} a)
  unfolding pure
  Ends-pure a = record { at = λ s p. cc }

  pub Ends-raise : (e : ExecuteError) → Ends (raise {rt = rt} {A = A} e)
  unfolding raise
  Ends-raise e = record { at = λ s p. cc }

  pub Ends-lift : (r : Result A) → r ≢ exhausted → Ends (lift {rt = rt} r)
  unfolding lift
  Ends-lift (ok a) h = record { at = λ s p. cc }
  Ends-lift (err e) h = record { at = λ s p. cc }
  Ends-lift exhausted h = absurd (h refl)

  pub Ends-if : (b : Bool) (m n : Emit rt A) → Ends m → Ends n → Ends (if b then m else n)
  Ends-if true m n km kn = km
  Ends-if false m n km kn = kn

module _ {rt : Runtime} {A B : Type 0} where
  Ends-continue :
      (r : Result (A × Operands rt)) (f : A → Emit rt B)
      → r ≢ exhausted
      → ((a : A) → Ends (f a))
      → continue r f ≢ exhausted
  Ends-continue (ok (a, s)) f h kf = (kf a).at s
  Ends-continue (err e) f h kf = λ p. cc
  Ends-continue exhausted f h kf = λ p. h refl

  pub Ends-bind :
      (m : Emit rt A) (f : A → Emit rt B) → Ends m → ((a : A) → Ends (f a)) → Ends (m >>= f)
  unfolding ◌>>=◌
  Ends-bind m f km kf = record { at = λ s. Ends-continue (m s) f (km.at s) kf }

  -- What follows a read may use that the read succeeded.
  pub Ends-read :
      (o : Option A) (e : ExecuteError) (f : A → Emit rt B)
      → ((a : A) → o ≡ some a → Ends (f a))
      → Ends (lift (ok_or o e) >>= f)
  unfolding ◌>>=◌
  Ends-read none e f kf = record { at = λ s p. cc }
  Ends-read (some a) e f kf = record { at = (kf a refl).at }

  pub Ends-or_continue :
      (o : Option A) (m : Emit rt B) (f : A → Emit rt B)
      → Ends m
      → ((a : A) → o ≡ some a → Ends (f a))
      → Ends (or_continue o m f)
  unfolding or_continue
  Ends-or_continue none m f km kf = km
  Ends-or_continue (some a) m f km kf = kf a refl

pub ruleset ends_rules = (Ends-pure, Ends-raise, Ends-lift, Ends-if, Ends-bind, ok_or-ends)
