-- ===== src/Source/Cycles/Ordered.antt =====
-- crates/dsql-core/src/source.rs, `visit`: states that were set in depth-first order rule out a
-- cycle through a visited scope.
use dsql.Prelude.{
  String, none, some, List, [], ◌∷◌, In, ◌≡◌, refl, inl, inr, arith, Bool-cases, ◌==◌, string_eq,
}
use dsql.Source.Scopes.{ScopeImports, imports}
use dsql.Source.Cycles.{VisitState, state_of}
use dsql.Source.Cycles.Sound.{first_or, Leads}

abbrev pub IsVisited : List (String × VisitState) → String → Type 0
IsVisited states x = state_of states x ≡ some VisitState.visited

-- The states in the order in which they were set: a scope is visited only after its imports are,
-- and it is entered only once.
abbrev pub IsOrdered : ScopeImports → List (String × VisitState) → Type 0
IsOrdered graph [] = Unit
IsOrdered graph ((x, VisitState.visited) ∷ states) =
    ((i : String) → In i (imports graph x) → IsVisited states i) × IsOrdered graph states
IsOrdered graph ((x, VisitState.visiting) ∷ states) =
    (state_of states x ≡ none) × IsOrdered graph states

pub state_of-mark :
    (states : List (String × VisitState)) (n x : String)
    → IsVisited states x
    → IsVisited ((n, VisitState.visited) ∷ states) x
state_of-mark states n x h = elim (Bool-cases (n == x)) [ inl e ↦ rw e refl | inr e ↦ rw e h ]

import-IsVisited :
    (graph : ScopeImports) (states : List (String × VisitState)) (x i : String)
    → IsOrdered graph states
    → IsVisited states x
    → In i (imports graph x)
    → IsVisited states i
import-IsVisited graph [] x i o h edge = cc
import-IsVisited graph ((n, VisitState.visited) ∷ states) x i (now, o) h edge =
    elim (Bool-cases (n == x)) [
      | inl e ↦
          let same : n ≡ x = (string_eq.beq_iff n x).0 e in
          state_of-mark states n i (now i (rw same edge))
      | inr e ↦ state_of-mark states n i (import-IsVisited graph states x i o (rw e at h) edge)
    ]
import-IsVisited graph ((n, VisitState.visiting) ∷ states) x i (fresh, o) h edge =
    elim (Bool-cases (n == x)) [
      | inl e ↦ ground arith
      | inr e ↦
          let later : IsVisited states i = import-IsVisited graph states x i o (rw e at h) edge in
          elim (Bool-cases (n == i)) [
            | inl f ↦
                let same : n ≡ i = (string_eq.beq_iff n i).0 f in absurd (cc (same, fresh, later))
            | inr f ↦ rw f later
          ]
    ]

Leads-IsVisited :
    (graph : ScopeImports) (states : List (String × VisitState)) (xs : List String) (s : String)
    → IsOrdered graph states
    → IsVisited states (first_or s xs)
    → Leads graph xs s
    → IsVisited states s
Leads-IsVisited graph states [] s o h path = h
Leads-IsVisited graph states (x ∷ xs) s o h (edge, path) =
    Leads-IsVisited graph states xs s o (import-IsVisited graph states x (first_or s xs) o h edge)
      path

pub no_cycle :
    (graph : ScopeImports) (states : List (String × VisitState)) (s : String) (xs : List String)
    → IsOrdered graph states
    → IsVisited states s
    → Leads graph (s ∷ xs) s
    → ⊥
no_cycle graph [] s xs o h path = cc
no_cycle graph ((n, VisitState.visiting) ∷ states) s xs (fresh, o) h path =
    elim (Bool-cases (n == s)) [
      | inl e ↦ ground arith
      | inr e ↦ no_cycle graph states s xs o (rw e at h) path
    ]
no_cycle graph ((n, VisitState.visited) ∷ states) s xs (now, o) h (edge, path) =
    elim (Bool-cases (n == s)) [
      | inr e ↦ no_cycle graph states s xs o (rw e at h) (edge, path)
      | inl e ↦
          let same : n ≡ s = (string_eq.beq_iff n s).0 e in
          no_cycle graph states s xs o
            (Leads-IsVisited graph states xs s o (now (first_or s xs) (rw same edge)) path)
            (edge, path)
    ]
