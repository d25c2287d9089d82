-- ===== src/Catalog/Lookup/Any.antt =====
-- crates/dsql-core/src/catalog/lookup.rs: what the searches over indexes and keys find.
use dsql.Prelude.{
  ℕ, zero, suc, ◌+◌, Bool, true, Option, none, some, List, [], ◌∷◌, any, get_elem?, In, ◌≡◌, refl,
  sym, ap, ◌∙◌, inl, inr, arith, Bool-cases, nat_eq, string_eq,
}
use dsql.Execute.Scalars.{is_some_and, and_then}
use dsql.Catalog.Enums.{key_capability_eq, comparison_eq}
use dsql.Catalog.Types.{IndexKey}
use dsql.Catalog.Lookup.{any_key}

pub any-In :
    {A : Type 0} (xs : List A) (p : A → Bool) → any xs p ≡ true → (x : A) × In x xs × (p x ≡ true)
any-In [] p h = cc
any-In (x ∷ xs) p h = elim (Bool-cases (p x)) [
  | inl e ↦ (x, inl refl, e)
  | inr e ↦ let (y, there, holds) = any-In xs p (ground (arith, h, e)) in (y, inr there, holds)
]

pub In-any :
    {A : Type 0} (x : A) (xs : List A) (p : A → Bool) → In x xs → p x ≡ true → any xs p ≡ true
In-any x [] p h e = absurd h
In-any x (y ∷ xs) p (inl same) e = ground (arith, ap p same)
In-any x (y ∷ xs) p (inr h) e = ground (arith, In-any x xs p h e)

add_zero : (n : ℕ) → n + 0 ≡ n
add_zero n = omega arith

pub zero_add : (n : ℕ) → 0 + n ≡ n
zero_add n = omega arith

pub any_key-get_elem? :
    (p : ℕ → IndexKey → Bool) (start : ℕ) (keys : List IndexKey)
    → any_key p start keys ≡ true
    → (n : ℕ) × (key : IndexKey) × (get_elem? keys n ≡ some key) × (p (start + n) key ≡ true)
any_key-get_elem? p start [] h = cc
any_key-get_elem? p start (key ∷ keys) h = elim (Bool-cases (p start key)) [
  | inl e ↦ (0, key, refl, ap (λ n. p n key) (add_zero start) ∙ e)
  | inr e ↦
      let (n, found, at, holds) = any_key-get_elem? p (suc start) keys (ground (arith, h, e)) in
      let same : start + suc n ≡ suc start + n = omega arith in
      (suc n, found, at, ap (λ m. p m found) same ∙ holds)
]

pub get_elem?-any_key :
    (p : ℕ → IndexKey → Bool) (start : ℕ) (keys : List IndexKey) (n : ℕ) (key : IndexKey)
    → get_elem? keys n ≡ some key
    → p (start + n) key ≡ true
    → any_key p start keys ≡ true
get_elem?-any_key p start [] n key at h = cc
get_elem?-any_key p start (k ∷ keys) zero key at h =
    let same : k ≡ key = cc in
    let first : p start k ≡ true =
      ap (λ x. p start x) same ∙ (sym (ap (λ n. p n key) (add_zero start)) ∙ h) in
    ground arith
get_elem?-any_key p start (k ∷ keys) (suc n) key at h =
    let same : suc start + n ≡ start + suc n = omega arith in
    ground (arith, get_elem?-any_key p (suc start) keys n key at (ap (λ m. p m key) same ∙ h))

pub is_some_and-some :
    {A : Type 0} (o : Option A) (p : A → Bool)
    → is_some_and o p ≡ true
    → (a : A) × (o ≡ some a) × (p a ≡ true)
is_some_and-some none p h = cc
is_some_and-some (some a) p h = (a, refl, h)

pub some-is_some_and :
    {A : Type 0} (o : Option A) (p : A → Bool) (a : A)
    → o ≡ some a
    → p a ≡ true
    → is_some_and o p ≡ true
some-is_some_and o p a found holds = rw found holds

pub and_then-some :
    {A B : Type 0} (o : Option A) (f : A → Option B) (b : B)
    → and_then o f ≡ some b
    → (a : A) × (o ≡ some a) × (f a ≡ some b)
and_then-some none f b h = cc
and_then-some (some a) f b h = (a, refl, h)

pub some-and_then :
    {A B : Type 0} (o : Option A) (f : A → Option B) (a : A) (b : B)
    → o ≡ some a
    → f a ≡ some b
    → and_then o f ≡ some b
some-and_then o f a b found next = rw found next
