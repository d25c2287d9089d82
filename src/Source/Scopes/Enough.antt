-- ===== src/Source/Scopes/Enough.antt =====
-- crates/dsql-core/src/source.rs, `visible_from`: enough fuel for the walk, with cycles or without.
use dsql.Prelude.{
  ℕ, zero, suc, ◌<◌, ◌≤◌, String, Bool, true, false, not, none, List, [], ◌∷◌, ◌++◌, contains, keep,
  length, In, In-append_left, In-append_right, contains-In, In-contains, Extends, ◌≡◌, ◌≢◌, refl,
  sym, inl, inr, arith, Bool-cases, Option-cases, ◌==◌, string_eq,
}
use dsql.Source.Scopes.{ScopeImports, imports, collect_all, collect, visible_from}
use dsql.Source.Scopes.Complete.{Extends-In, collect-Grown}

pub length-keep_le :
    (xs : List String) (p q : String → Bool)
    → ((x : String) → p x ≡ true → q x ≡ true)
    → length (keep xs p) ≤ length (keep xs q)
length-keep_le [] p q h = omega arith
length-keep_le (x ∷ xs) p q h = ground (arith, h x, length-keep_le xs p q h)

pub length-keep_lt :
    (xs : List String) (p q : String → Bool) (a : String)
    → ((x : String) → p x ≡ true → q x ≡ true)
    → In a xs
    → p a ≡ false
    → q a ≡ true
    → length (keep xs p) < length (keep xs q)
length-keep_lt [] p q a h i e f = absurd i
length-keep_lt (x ∷ xs) p q a h (inl same) e f =
    let no : p x ≡ false = rw (sym same) e in
    let yes : q x ≡ true = rw (sym same) f in rw (no, yes) (omega (arith, length-keep_le xs p q h))
length-keep_lt (x ∷ xs) p q a h (inr i) e f = ground (arith, h x, length-keep_lt xs p q a h i e f)

unseen : List String → String → Bool
unseen v x = not (contains v x)

-- How many scopes of the universe are not visible.
remaining : List String → List String → ℕ
remaining universe v = length (keep universe (unseen v))

unseen-Extends :
    (v w : List String) → Extends v w → (x : String) → unseen w x ≡ true → unseen v x ≡ true
unfolding unseen
unseen-Extends v w grown x h = elim (Bool-cases (contains v x)) [
  | inr e ↦ ground arith
  | inl e ↦
      let there : contains w x ≡ true =
        In-contains w x (Extends-In v w x grown (contains-In v x e)) in
      absurd (ground arith)
]

remaining_le :
    (universe v w : List String) → Extends v w → remaining universe w ≤ remaining universe v
unfolding remaining
remaining_le universe v w grown =
    length-keep_le universe (unseen w) (unseen v) (unseen-Extends v w grown)

remaining_lt :
    (universe v : List String) (s : String)
    → In s universe
    → contains v s ≡ false
    → remaining universe (v ++ s ∷ []) < remaining universe v
unfolding remaining unseen
remaining_lt universe v s i fresh =
    length-keep_lt universe (unseen (v ++ s ∷ [])) (unseen v) s
      (unseen-Extends v (v ++ s ∷ []) (s ∷ [], refl)) i
      (let there : contains (v ++ s ∷ []) s ≡ true =
          In-contains (v ++ s ∷ []) s (In-append_right v (s ∷ []) s (inl refl)) in
        ground arith)
      (ground arith)

pub length-keep : (xs : List String) (p : String → Bool) → length (keep xs p) ≤ length xs
length-keep [] p = omega arith
length-keep (x ∷ xs) p = ground (arith, length-keep xs p)

remaining_all : (universe : List String) → remaining universe [] ≤ length universe
unfolding remaining
remaining_all universe = length-keep universe (unseen [])

module _ (graph : ScopeImports) (universe : List String)
    (known_imports : (x i : String) → In i (imports graph x) → In i universe) where
  collect_all-ends :
      (fuel : ℕ)
      → ((s : String) (v : List String)
          → In s universe
          → remaining universe v < fuel
          → collect fuel graph s v ≢ none)
      → (scopes v : List String) → ((s : String) → In s scopes → In s universe)
      → remaining universe v < fuel
      → collect_all (λ s u. collect fuel graph s u) scopes v ≢ none
  collect_all-ends fuel one [] v known h = λ p. cc
  collect_all-ends fuel one (s ∷ scopes) v known h = elim (Option-cases (collect fuel graph s v)) [
    | inl e ↦ absurd (one s v (known s (inl refl)) h e)
    | inr (m, e) ↦ rw e (
        collect_all-ends fuel one scopes m (λ t i. known t (inr i))
          (omega (arith, remaining_le universe v m (collect-Grown graph fuel s v m e).extends)))
  ]

  collect-ends :
      (fuel : ℕ) (s : String) (v : List String)
      → In s universe
      → remaining universe v < fuel
      → collect fuel graph s v ≢ none
  unfolding collect
  collect-ends zero s v i h = absurd (omega arith)
  collect-ends (suc fuel) s v i h = elim (Bool-cases (contains v s)) [
    | inl seen ↦ rw seen (λ p. cc)
    | inr fresh ↦ rw fresh (
        collect_all-ends fuel (λ t u j k. collect-ends fuel t u j k) (imports graph s) (v ++ s ∷ [])
          (λ t edge. known_imports s t edge) (omega (arith, remaining_lt universe v s i fresh)))
  ]

-- Every import that the graph names, once for each time.
abbrev pub all_imports : ScopeImports → List String
all_imports [] = []
all_imports ((_, targets) ∷ graph) = targets ++ all_imports graph

pub imports-In :
    (graph : ScopeImports) (x i : String) → In i (imports graph x) → In i (all_imports graph)
imports-In [] x i h = h
imports-In ((name, targets) ∷ graph) x i h = elim (Bool-cases (name == x)) [
  | inl e ↦ In-append_left targets (all_imports graph) i (rw e at h)
  | inr e ↦ In-append_right targets (all_imports graph) i (imports-In graph x i (rw e at h))
]

-- The scopes that are visible from a scope are found when the fuel is at least two more than
-- the number of imports that the graph names, whether or not the imports have a cycle.
pub visible_from-ends :
    (fuel : ℕ) (graph : ScopeImports) (scope : String)
    → suc (length (all_imports graph)) < fuel
    → visible_from fuel graph scope ≢ none
unfolding visible_from
visible_from-ends fuel graph scope h =
    let universe = scope ∷ all_imports graph in
    collect-ends graph universe (λ x i edge. inr (imports-In graph x i edge)) fuel scope []
      (inl refl) (omega (arith, remaining_all universe))
