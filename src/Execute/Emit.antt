-- ===== src/Execute/Emit.antt =====
-- crates/dsql-execute/src/lib.rs: the state that rendering threads, the growing list of binds and
-- the index of the next operand.
pub mod Steady
pub mod Ends
use dsql.Prelude.{◌≡◌, refl, ℕ, suc, String, Bool, Option, none, some, List, []}
use dsql.Metadata.Wire.{WireEncoding}
use dsql.Execute.Error.{ExecuteError, Result, ok, err, exhausted}
use dsql.Execute.Runtime.{Runtime}

module _ (rt : Runtime) where
  open rt use {Value}

  pub record BoundParameter : Type 0 where
    pub path : String
    pub data_type : String
    pub wire : WireEncoding
    pub provider_type : Option (String × String)
    pub collection : Bool
    pub value : Value

  pub record Operands : Type 0 where
    pub parameters : List BoundParameter
    pub operand_index : ℕ

  abbrev pub Emit : Type 0 → Type 0
  Emit A = Operands → Result (A × Operands)

module _ {rt : Runtime} {A : Type 0} where
  unfoldable pub pure : A → Emit rt A
  pure a s = ok (a, s)

  unfoldable pub raise : ExecuteError → Emit rt A
  raise e s = err e

  unfoldable pub stop : Emit rt A
  stop s = exhausted

  unfoldable pub lift : Result A → Emit rt A
  lift (ok a) s = ok (a, s)
  lift (err e) s = err e
  lift exhausted s = exhausted

module _ {rt : Runtime} {A B : Type 0} where
  abbrev pub continue : Result (A × Operands rt) → (A → Emit rt B) → Result (B × Operands rt)
  continue (ok (a, s)) f = f a s
  continue (err e) f = err e
  continue exhausted f = exhausted

  infixl 5 ◌>>=◌ ◌>>◌
  -- Opening this opens the other actions too.
  unfoldable pub ◌>>=◌ : Emit rt A → (A → Emit rt B) → Emit rt B
  unfolding pure raise stop lift
  ◌>>=◌ m f s = continue (m s) f

  abbrev pub ◌>>◌ : Emit rt A → Emit rt B → Emit rt B
  m >> k = m >>= λ _. k

module _ {rt : Runtime} {A B : Type 0} where
  -- `let Some(a) = o else { continue }`: `m` is the rest of the loop.
  unfoldable pub or_continue : Option A → Emit rt B → (A → Emit rt B) → Emit rt B
  or_continue none m f = m
  or_continue (some a) m f = f a

  pub continue-eq-ok :
      (r : Result (A × Operands rt)) (f : A → Emit rt B) {b : B} {s' : Operands rt}
      → continue r f ≡ ok (b, s')
      → (a : A) × (s : Operands rt) × (r ≡ ok (a, s)) × (f a s ≡ ok (b, s'))
  continue-eq-ok (ok (a, s)) f h = (a, s, refl, h)
  continue-eq-ok (err e) f h = cc
  continue-eq-ok exhausted f h = cc
