-- ===== src/Source/Scopes/Complete.antt =====
-- crates/dsql-core/src/source.rs, `visible_from`: exactly the scopes that imports reach.
use dsql.Prelude.{
  ℕ, zero, suc, String, true, Option, none, some, List, [], ◌∷◌, ◌++◌, contains, In, In-append_left,
  In-append_right, append-In, contains-In, Extends, Extends-refl, Extends-trans, ◌≡◌, refl, sym,
  inl, inr, ◌⊎◌, arith, Bool-cases, string_eq,
}
use dsql.Prelude.Text.Split.{some-injective}
use dsql.Source.Scopes.{ScopeImports, imports, Walk, then_walk, collect_all, collect, visible_from}
use dsql.Source.Scopes.Reach.{Reach, here, via, prepend_import}

pub Extends-In : (xs ys : List String) (a : String) → Extends xs ys → In a xs → In a ys
Extends-In xs ys a (added, e) i = rw e (In-append_left xs added a i)

then_walk-eq-some :
    (o : Option (List String)) (next : List String → Option (List String)) {w : List String}
    → then_walk o next ≡ some w
    → (v : List String) × (o ≡ some v) × (next v ≡ some w)
then_walk-eq-some none next h = cc
then_walk-eq-some (some v) next h = (v, refl, h)

-- What a walk from the scopes adds to what is visible.
pub record Grown (graph : ScopeImports) (scopes v w : List String) : Type 0 where
  pub extends : Extends v w
  pub there : (s : String) → In s scopes → In s w
  pub closed : (x : String) → In x w → In x v ⊎ ((i : String) → In i (imports graph x) → In i w)
  pub sound : (x : String) → In x w → In x v ⊎ ((s : String) × In s scopes × Reach graph s x)

module _ (graph : ScopeImports) where
  Grown-then :
      (s : String) (scopes v m w : List String)
      → Grown graph (s ∷ []) v m
      → Grown graph scopes m w
      → Grown graph (s ∷ scopes) v w
  Grown-then s scopes v m w a b = record {
    extends = Extends-trans v a.extends b.extends;
    there = there_of;
    closed = λ x i. elim (b.closed x i) [
      | inr shut ↦ inr shut
      | inl j ↦ elim (a.closed x j) [
        | inl k ↦ inl k
        | inr shut ↦ inr (λ t edge. Extends-In m w t b.extends (shut t edge))
      ]
    ];
    sound = sound_of;
  }
    where
      there_of : (t : String) → In t (s ∷ scopes) → In t w
      there_of t (inl same) = Extends-In m w t b.extends (a.there t (inl same))
      there_of t (inr i) = b.there t i

      sound_of :
          (x : String) → In x w → In x v ⊎ ((t : String) × In t (s ∷ scopes) × Reach graph t x)
      sound_of x i = elim (b.sound x i) [
        | inr (t, j, path) ↦ inr (t, inr j, path)
        | inl j ↦ elim (a.sound x j) [
          | inl k ↦ inl k
          | inr (t, k, path) ↦ elim k [
            | inl same ↦ inr (t, inl same, path)
            | inr none_there ↦ absurd none_there
          ]
        ]
      ]

  collect_all-Grown :
      (walk : Walk)
      → ((s : String) (v w : List String) → walk s v ≡ some w → Grown graph (s ∷ []) v w)
      → (scopes v w : List String) → collect_all walk scopes v ≡ some w
      → Grown graph scopes v w
  collect_all-Grown walk one [] v w h =
      let same : v ≡ w = some-injective h in
      rw (sym same) (record {
        extends = Extends-refl v;
        there = λ s i. absurd i;
        closed = λ x i. inl i;
        sound = λ x i. inl i;
      })
  collect_all-Grown walk one (s ∷ scopes) v w h =
      let (m, first, later) =
        then_walk-eq-some (walk s v) (λ next. collect_all walk scopes next) h in
      Grown-then s scopes v m w (one s v m first) (collect_all-Grown walk one scopes m w later)

  Grown-seen : (s : String) (v : List String) → contains v s ≡ true → Grown graph (s ∷ []) v v
  Grown-seen s v seen = record {
    extends = Extends-refl v;
    there = λ t i. elim i [
      | inl same ↦ rw same (contains-In v s seen)
      | inr none_there ↦ absurd none_there
    ];
    closed = λ x i. inl i;
    sound = λ x i. inl i;
  }

  Grown-below :
      (s : String) (v w : List String)
      → Grown graph (imports graph s) (v ++ s ∷ []) w
      → Grown graph (s ∷ []) v w
  Grown-below s v w b = record {
    extends = Extends-trans v (s ∷ [], refl) b.extends;
    there = λ t i. elim i [ inl same ↦ rw same itself | inr none_there ↦ absurd none_there ];
    closed = λ x i. elim (b.closed x i) [
      | inr shut ↦ inr shut
      | inl j ↦ elim (append-In v (s ∷ []) x j) [
        | inl k ↦ inl k
        | inr k ↦ elim k [
          | inl same ↦ inr (rw same (λ t edge. b.there t edge))
          | inr none_there ↦ absurd none_there
        ]
      ]
    ];
    sound = λ x i. elim (b.sound x i) [
      | inr (t, edge, path) ↦ inr (s, inl refl, prepend_import edge path)
      | inl j ↦ elim (append-In v (s ∷ []) x j) [
        | inl k ↦ inl k
        | inr k ↦ elim k [
          | inl same ↦ inr (s, inl refl, rw same here)
          | inr none_there ↦ absurd none_there
        ]
      ]
    ];
  }
    where
      itself : In s w
      itself = Extends-In (v ++ s ∷ []) w s b.extends (In-append_right v (s ∷ []) s (inl refl))

  pub collect-Grown :
      (fuel : ℕ) (s : String) (v w : List String)
      → collect fuel graph s v ≡ some w
      → Grown graph (s ∷ []) v w
  unfolding collect
  collect-Grown zero s v w h = cc
  collect-Grown (suc fuel) s v w h = elim (Bool-cases (contains v s)) [
    | inl seen ↦ let same : v ≡ w = ground arith in rw (sym same) (Grown-seen s v seen)
    | inr fresh ↦ Grown-below s v w (
        collect_all-Grown (λ t u. collect fuel graph t u) (λ t u x e. collect-Grown fuel t u x e)
          (imports graph s) (v ++ s ∷ []) w (ground arith))
  ]

  -- Every scope that is visible from a scope is reached from it by imports.
  pub visible_from-reached :
      (fuel : ℕ) (scope x : String) (visible : List String)
      → visible_from fuel graph scope ≡ some visible
      → In x visible
      → Reach graph scope x
  unfolding visible_from
  visible_from-reached fuel scope x visible h i =
      elim ((collect-Grown fuel scope [] visible h).sound x i) [
        | inl none_there ↦ absurd none_there
        | inr (s, j, path) ↦ elim j [
          | inl same ↦ rw same at path
          | inr none_there ↦ absurd none_there
        ]
      ]

  closed-reached :
      (scope x : String) (visible : List String)
      → Grown graph (scope ∷ []) [] visible
      → Reach graph scope x
      → In x visible
  closed-reached scope x visible g here = g.there scope (inl refl)
  closed-reached scope x visible g (via {x = y} path edge) =
      elim (g.closed y (closed-reached scope y visible g path)) [
        | inl none_there ↦ absurd none_there
        | inr shut ↦ shut x edge
      ]

  -- Every scope that imports reach from a scope is visible from it, however many paths lead to it
  -- and whether or not the imports have a cycle.
  pub visible_from_complete :
      (fuel : ℕ) (scope x : String) (visible : List String)
      → visible_from fuel graph scope ≡ some visible
      → Reach graph scope x
      → In x visible
  unfolding visible_from
  visible_from_complete fuel scope x visible h path =
      closed-reached scope x visible (collect-Grown fuel scope [] visible h) path
