-- ===== src/Execute/Error.antt =====
-- crates/dsql-execute/src/lib.rs: the errors, and `Result` with `?`.
use dsql.Prelude.{
  String, Option, none, some, Bool, true, false, List, [], ◌∷◌, ◌≡◌, refl, ap, ◌≢◌, if◌then◌else◌,
}

-- A database error is kept by its message.
pub data ExecuteError : Type 0 where
  database : String → ExecuteError
  undeclared_parameter : String → ExecuteError
  missing_input : String → ExecuteError
  invalid_input : (path expected : String) → ExecuteError
  invalid_variant : (path value : String) → ExecuteError
  unsupported_type : (path data_type : String) → ExecuteError
  invalid_provider_input : (path data_type : String) → ExecuteError
  invalid_dynamic_metadata : String → ExecuteError
  unsupported_operation_kind : String → ExecuteError
  invalid_output : String → ExecuteError
  invalid_json_parameter : (path message : String) → ExecuteError

-- `exhausted` is the model's own: a bounded recursion was given too little fuel.
pub data Result {ℓ} (A : Type ℓ) : Type ℓ where
  ok : A → Result A
  err : ExecuteError → Result A
  exhausted : Result A

-- `Option::ok_or`
abbrev pub ok_or {ℓ} : {A : Type ℓ} → Option A → ExecuteError → Result A
ok_or none e = err e
ok_or (some a) e = ok a

-- `?`
module _ {ℓ κ} {A : Type ℓ} {B : Type κ} where
  infixl 5 ◌>>=◌
  abbrev pub ◌>>=◌ : Result A → (A → Result B) → Result B
  exhausted >>= next = exhausted
  err e >>= next = err e
  ok a >>= next = next a

-- A `?` whose value is not used.
infixl 5 ◌>>◌
abbrev pub ◌>>◌ {ℓ} : {B : Type ℓ} → Result (Unit {0}) → Result B → Result B
first >> second = first >>= λ _. second

-- Fails with the error unless the test holds.
abbrev pub ensure : Bool → ExecuteError → Result (Unit {0})
ensure true e = ok tt
ensure false e = err e

abbrev pub from_ok {ℓ} : {A : Type ℓ} → A → Result A → A
from_ok d (ok a) = a
from_ok d _ = d

pub ok-injective {ℓ} : {A : Type ℓ} {a b : A} → ok a ≡ ok b → a ≡ b
ok-injective {a} p = ap (from_ok a) p

-- `map` and `collect` over fallible steps: the first error wins.
abbrev pub traverse {ℓ κ} : {A : Type ℓ} {B : Type κ} → (A → Result B) → List A → Result (List B)
traverse f [] = ok []
traverse f (x ∷ xs) = let rest = traverse f xs in f x >>= λ y. rest >>= λ ys. ok (y ∷ ys)

-- Results that the fuel decides nothing about.
module _ {ℓ κ} {A : Type ℓ} {B : Type κ} where
  -- A `?` that succeeded had a value, and what followed it succeeded.
  pub >>=-eq-ok :
      (r : Result A) (next : A → Result B) {out : B}
      → (r >>= next) ≡ ok out
      → (value : A) × (r ≡ ok value) × (next value ≡ ok out)
  >>=-eq-ok exhausted next e = cc
  >>=-eq-ok (err failed) next e = cc
  >>=-eq-ok (ok value) next e = (value, refl, e)

  pub >>=-ends :
      (m : Result A) (f : A → Result B)
      → m ≢ exhausted
      → ((a : A) → m ≡ ok a → f a ≢ exhausted)
      → (m >>= f) ≢ exhausted
  >>=-ends (ok a) f h k = k a refl
  >>=-ends (err e) f h k = λ p. cc
  >>=-ends exhausted f h k = λ p. h refl

module _ {ℓ} {A : Type ℓ} where
  pub ok-ends : (a : A) → ok a ≢ exhausted
  ok-ends a p = cc

  pub ok_or-ends : (o : Option A) (e : ExecuteError) → ok_or o e ≢ exhausted
  ok_or-ends none e p = cc
  ok_or-ends (some a) e p = cc

  pub if-ends :
      (b : Bool) (m n : Result A) → m ≢ exhausted → n ≢ exhausted → (if b then m else n) ≢ exhausted
  if-ends true m n h k = h
  if-ends false m n h k = k

pub traverse-ends {ℓ κ} :
    {A : Type ℓ} {B : Type κ} (f : A → Result B) (xs : List A)
    → ((x : A) → f x ≢ exhausted)
    → traverse f xs ≢ exhausted
traverse-ends f [] h = ok-ends []
traverse-ends f (x ∷ xs) h =
    >>=-ends (f x) _ (h x)
      λ y _. >>=-ends (traverse f xs) _ (traverse-ends f xs h) λ ys _. ok-ends _
