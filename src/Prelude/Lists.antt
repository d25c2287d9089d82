-- ===== src/Prelude/Lists.antt =====
-- Lists measured and indexed by native numbers, and searches by a Boolean test.
use Prim.Native.Nat.{ℕ, zero, suc, ◌+◌, ◌<◌, ◌≤◌}
use mathlib.Core.Path.{◌≡◌, refl, sym, ap, ◌∙◌}
use mathlib.Core.Logic.{◌⊎◌, inl, inr}
use mathlib.Core.Bool.{Bool, true, false, ◌&&◌, ◌||◌}
use mathlib.Core.List.{List, [], ◌∷◌, ◌++◌, map, append-nil, append_assoc}
use mathlib.Core.Option.{Option, none, some}
use native.Mathlib.Omega.{arith}
use dsql.Prelude.Tests.{if◌then◌else◌, Eq, ◌==◌, Bool-cases}

module _ {ℓ} {A : Type ℓ} where
  abbrev pub length : List A → ℕ
  length [] = 0
  length (x ∷ xs) = suc (length xs)

  abbrev pub get_elem? : List A → ℕ → Option A
  get_elem? [] i = none
  get_elem? (x ∷ xs) zero = some x
  get_elem? (x ∷ xs) (suc i) = get_elem? xs i

  abbrev pub any : List A → (A → Bool) → Bool
  any [] p = false
  any (x ∷ xs) p = p x || any xs p

  abbrev pub all : List A → (A → Bool) → Bool
  all [] p = true
  all (x ∷ xs) p = p x && all xs p

  -- `Iterator::find`
  abbrev pub find : List A → (A → Bool) → Option A
  find [] p = none
  find (x ∷ xs) p = if p x then some x else find xs p

  -- `Iterator::filter`, which keeps what passes.
  abbrev pub keep : List A → (A → Bool) → List A
  keep [] p = []
  keep (x ∷ xs) p = if p x then x ∷ keep xs p else keep xs p

  pub length-append : (xs ys : List A) → length (xs ++ ys) ≡ length xs + length ys
  length-append [] ys = omega arith
  length-append (x ∷ xs) ys = omega (arith, length-append xs ys)

-- Membership with its place kept: it computes, so the tactics read it.
abbrev pub In : {A : Type 0} → A → List A → Type 0
In a [] = ⊥
In a (x ∷ xs) = (a ≡ x) ⊎ In a xs

abbrev pub contains {ℓ} : {A : Type ℓ} ⦃e : Eq A⦄ → List A → A → Bool
contains xs a = any xs (λ x. x == a)

abbrev pub prepend {ℓ} : {A : Type ℓ} → Option A → List A → List A
prepend none xs = xs
prepend (some x) xs = x ∷ xs

-- `Iterator::filter_map`
abbrev pub filter_map {ℓ κ} : {A : Type ℓ} {B : Type κ} → (A → Option B) → List A → List B
filter_map f [] = []
filter_map f (x ∷ xs) = prepend (f x) (filter_map f xs)

module _ {ℓ} {A : Type ℓ} where
  pub get_elem?-lt : (xs : List A) (i : ℕ) {a : A} → get_elem? xs i ≡ some a → i < length xs
  get_elem?-lt [] i h = cc
  get_elem?-lt (x ∷ xs) zero h = omega arith
  get_elem?-lt (x ∷ xs) (suc i) h = omega (arith, get_elem?-lt xs i h)

  pub get_elem?-append_left :
      (xs ys : List A) (i : ℕ) {a : A} → get_elem? xs i ≡ some a → get_elem? (xs ++ ys) i ≡ some a
  get_elem?-append_left [] ys i h = cc
  get_elem?-append_left (x ∷ xs) ys zero h = h
  get_elem?-append_left (x ∷ xs) ys (suc i) h = get_elem?-append_left xs ys i h

  pub get_elem?-append_length :
      (xs ys : List A) (a : A) → get_elem? (xs ++ a ∷ ys) (length xs) ≡ some a
  get_elem?-append_length [] ys a = refl
  get_elem?-append_length (x ∷ xs) ys a = get_elem?-append_length xs ys a

module _ {A : Type 0} where
  pub keep-In : (xs : List A) (p : A → Bool) (a : A) → In a (keep xs p) → In a xs × (p a ≡ true)
  keep-In [] p a i = absurd i
  keep-In (x ∷ xs) p a i = elim (Bool-cases (p x)) [
    | inr e ↦ let (j, h) = keep-In xs p a (rw e at i) in (inr j, h)
    | inl e ↦
        let split : (a ≡ x) ⊎ In a (keep xs p) = rw e at i in
        elim split [
          | inl same ↦ (inl same, rw same e)
          | inr j ↦ let (k, h) = keep-In xs p a j in (inr k, h)
        ]
  ]

  pub In-keep : (xs : List A) (p : A → Bool) (a : A) → In a xs → p a ≡ true → In a (keep xs p)
  In-keep [] p a i h = absurd i
  In-keep (x ∷ xs) p a (inl same) h = rw (sym same, h) (inl refl)
  In-keep (x ∷ xs) p a (inr i) h = elim (Bool-cases (p x)) [
    | inl e ↦ rw e (inr (In-keep xs p a i h))
    | inr e ↦ rw e (In-keep xs p a i h)
  ]

  pub find-In : (xs : List A) (p : A → Bool) {a : A} → find xs p ≡ some a → In a xs × (p a ≡ true)
  find-In [] p h = cc
  find-In (x ∷ xs) p {a} h = elim (Bool-cases (p x)) [
    | inl e ↦ let same : a ≡ x = ground arith in (inl same, rw same e)
    | inr e ↦ let (i, k) = find-In xs p (rw e at h) in (inr i, k)
  ]

  pub find-eq-none : (xs : List A) (p : A → Bool) (a : A) → find xs p ≡ none → In a xs → p a ≡ false
  find-eq-none [] p a h i = absurd i
  find-eq-none (x ∷ xs) p a h (inl same) = rw same (ground arith)
  find-eq-none (x ∷ xs) p a h (inr i) = elim (Bool-cases (p x)) [
    | inl e ↦ absurd (ground arith)
    | inr e ↦ find-eq-none xs p a (rw e at h) i
  ]

pub map-In :
    {A B : Type 0} (f : A → B) (xs : List A) (b : B)
    → In b (map f xs)
    → (a : A) × In a xs × (b ≡ f a)
map-In f [] b i = absurd i
map-In f (x ∷ xs) b (inl same) = (x, inl refl, same)
map-In f (x ∷ xs) b (inr i) = let (a, j, e) = map-In f xs b i in (a, inr j, e)

pub In-map : {A B : Type 0} (f : A → B) (xs : List A) (a : A) → In a xs → In (f a) (map f xs)
In-map f [] a i = absurd i
In-map f (x ∷ xs) a (inl same) = inl (ap f same)
In-map f (x ∷ xs) a (inr i) = inr (In-map f xs a i)

-- The second list is the first with more at its end.
abbrev pub Extends {ℓ} : {A : Type ℓ} → List A → List A → Type ℓ
Extends {A} xs ys = (added : List A) × (ys ≡ xs ++ added)

pub Extends-refl {ℓ} : {A : Type ℓ} (xs : List A) → Extends xs xs
Extends-refl xs = ([], sym (append-nil xs))

pub Extends-trans {ℓ} :
    {A : Type ℓ} (xs : List A) {ys zs : List A} → Extends xs ys → Extends ys zs → Extends xs zs
Extends-trans xs (a, e) (b, f) = (a ++ b, f ∙ ap (λ l. l ++ b) e ∙ append_assoc xs a b)

pub Extends-length {ℓ} :
    {A : Type ℓ} (xs : List A) {ys : List A} → Extends xs ys → length xs ≤ length ys
Extends-length xs (a, e) = rw e (omega (arith, length-append xs a))

module _ {A : Type 0} where
  pub In-append_left : (xs ys : List A) (a : A) → In a xs → In a (xs ++ ys)
  In-append_left [] ys a i = absurd i
  In-append_left (x ∷ xs) ys a (inl same) = inl same
  In-append_left (x ∷ xs) ys a (inr i) = inr (In-append_left xs ys a i)

  pub In-append_right : (xs ys : List A) (a : A) → In a ys → In a (xs ++ ys)
  In-append_right [] ys a i = i
  In-append_right (x ∷ xs) ys a i = inr (In-append_right xs ys a i)

  pub append-In : (xs ys : List A) (a : A) → In a (xs ++ ys) → In a xs ⊎ In a ys
  append-In [] ys a i = inr i
  append-In (x ∷ xs) ys a (inl same) = inl (inl same)
  append-In (x ∷ xs) ys a (inr i) = elim (append-In xs ys a i) [
    | inl j ↦ inl (inr j)
    | inr j ↦ inr j
  ]

  pub contains-In : ⦃e : Eq A⦄ (xs : List A) (a : A) → contains xs a ≡ true → In a xs
  contains-In [] a h = cc
  contains-In ⦃e⦄ (x ∷ xs) a h = elim (Bool-cases (x == a)) [
    | inl same ↦ inl (sym ((e.beq_iff x a).0 same))
    | inr other ↦ inr (contains-In xs a (ground arith))
  ]

  pub In-contains : ⦃e : Eq A⦄ (xs : List A) (a : A) → In a xs → contains xs a ≡ true
  In-contains [] a i = absurd i
  In-contains ⦃e⦄ (x ∷ xs) a (inl same) = ground (arith, (e.beq_iff x a).1 (sym same))
  In-contains (x ∷ xs) a (inr i) = ground (arith, In-contains xs a i)

-- Stable sorting, by an order that is total.
module _ {ℓ} {A : Type ℓ} (le : A → A → Bool) where
  abbrev pub insert_by : A → List A → List A
  insert_by a [] = a ∷ []
  insert_by a (x ∷ xs) = if le a x then a ∷ x ∷ xs else x ∷ insert_by a xs

  abbrev pub sort_by : List A → List A
  sort_by [] = []
  sort_by (x ∷ xs) = insert_by x (sort_by xs)
