-- ===== src/Source/Cycles/Sound.antt =====
-- crates/dsql-core/src/source.rs, `import_cycle`: what it returns is a cycle of imports.
use dsql.Prelude.{
  ℕ, zero, suc, String, Option, none, some, List, [], ◌∷◌, ◌++◌, map, In, ◌≡◌, refl, ap, inl, inr,
  Bool-cases, ◌==◌, string_eq,
}
use dsql.Source.Scopes.{ScopeImports, imports}
use dsql.Source.Cycles.{
  VisitState, Visit, Visited, state_of, from_entry, close, pop, enter, leave, unless_cycle,
  visit_all, by_state, visit, cycle_of, import_cycle,
}

abbrev pub first_or : String → List String → String
first_or s [] = s
first_or s (x ∷ _) = x

-- Each scope of the list imports the next one, and the last one imports the scope.
abbrev pub Leads : ScopeImports → List String → String → Type 0
Leads graph [] s = Unit
Leads graph (x ∷ xs) s = In (first_or s xs) (imports graph x) × Leads graph xs s

-- A scope, the scopes of a path of imports, and the same scope again.
pub data IsCycle (graph : ScopeImports) : List String → Type 0 where
  around :
      (s : String) (xs : List String) → Leads graph (s ∷ xs) s → IsCycle graph (s ∷ xs ++ s ∷ [])

Leads-push :
    (graph : ScopeImports) (xs : List String) (s t : String)
    → Leads graph xs s
    → In t (imports graph s)
    → Leads graph (xs ++ s ∷ []) t
Leads-push graph [] s t path edge = (edge, tt)
Leads-push graph (x ∷ []) s t (first, _) edge = (first, (edge, tt))
Leads-push graph (x ∷ y ∷ xs) s t (first, path) edge =
    (first, Leads-push graph (y ∷ xs) s t path edge)

pub pop-push : (xs : List String) (s : String) → pop (xs ++ s ∷ []) ≡ xs
pop-push [] s = refl
pop-push (x ∷ []) s = refl
pop-push (x ∷ y ∷ xs) s = ap (λ r. x ∷ r) (pop-push (y ∷ xs) s)

-- What a walk from a stack comes to: a cycle, or the stack as it was.
IsSound : ScopeImports → List String → Visited → Type 0
IsSound graph stack none = Unit
IsSound graph stack (some (some cycle, _)) = IsCycle graph cycle
IsSound graph stack (some (none, v)) = v.stack ≡ stack

IsSound-from :
    (graph : ScopeImports) (from to : List String) (r : Visited)
    → from ≡ to
    → IsSound graph from r
    → IsSound graph to r
IsSound-from graph from to r e h = rw e at h

from_entry-IsSound :
    (graph : ScopeImports) (stack : List String) (s : String) (v : Visit)
    → Leads graph stack s
    → IsSound graph v.stack (some (close s (from_entry stack s), v))
unfolding IsSound
from_entry-IsSound graph [] s v path = refl
from_entry-IsSound graph (x ∷ xs) s v path = elim (Bool-cases (x == s)) [
  | inr e ↦ rw e (from_entry-IsSound graph xs s v path.1)
  | inl e ↦
      let same : x ≡ s = (string_eq.beq_iff x s).0 e in
      rw e (rw same (around s xs (rw same at path)))
]

unless_cycle-IsSound :
    (graph : ScopeImports) (stack : List String) (r : Visited) (next : Visit → Visited)
    → IsSound graph stack r
    → ((v : Visit) → v.stack ≡ stack → IsSound graph stack (next v))
    → IsSound graph stack (unless_cycle r next)
unfolding IsSound
unless_cycle-IsSound graph stack none next h later = h
unless_cycle-IsSound graph stack (some (some c, v)) next h later = h
unless_cycle-IsSound graph stack (some (none, v)) next h later = later v h

leave-IsSound :
    (graph : ScopeImports) (stack : List String) (s : String) (r : Visited)
    → IsSound graph (stack ++ s ∷ []) r
    → IsSound graph stack (leave s r)
unfolding IsSound
leave-IsSound graph stack s none h = h
leave-IsSound graph stack s (some (some c, v)) h = h
leave-IsSound graph stack s (some (none, v)) h = rw h (pop-push stack s)

visit_all-IsSound :
    (graph : ScopeImports) (walk : String → Visit → Visited)
    → ((s : String) (v : Visit) → Leads graph v.stack s → IsSound graph v.stack (walk s v))
    → (scopes : List String) (v : Visit) → ((s : String) → In s scopes → Leads graph v.stack s)
    → IsSound graph v.stack (visit_all walk scopes v)
unfolding IsSound
visit_all-IsSound graph walk one [] v paths = refl
visit_all-IsSound graph walk one (s ∷ scopes) v paths =
    unless_cycle-IsSound graph v.stack (walk s v) (λ u. visit_all walk scopes u)
      (one s v (paths s (inl refl)))
      (λ u same.
        IsSound-from graph u.stack v.stack (visit_all walk scopes u) same
          (visit_all-IsSound graph walk one scopes u (λ t i. rw same (paths t (inr i)))))

by_state-IsSound :
    (graph : ScopeImports) (s : String) (v : Visit) (below : Visited) (state : Option VisitState)
    → Leads graph v.stack s
    → IsSound graph (v.stack ++ s ∷ []) below
    → IsSound graph v.stack (by_state s v below state)
unfolding IsSound
by_state-IsSound graph s v below none path h = leave-IsSound graph v.stack s below h
by_state-IsSound graph s v below (some VisitState.visiting) path h =
    from_entry-IsSound graph v.stack s v path
by_state-IsSound graph s v below (some VisitState.visited) path h = refl

visit-IsSound :
    (fuel : ℕ) (graph : ScopeImports) (s : String) (v : Visit)
    → Leads graph v.stack s
    → IsSound graph v.stack (visit fuel graph s v)
unfolding visit IsSound
visit-IsSound zero graph s v path = tt
visit-IsSound (suc fuel) graph s v path =
    by_state-IsSound graph s v
      (visit_all (λ t u. visit fuel graph t u) (imports graph s) (enter s v)) (state_of v.states s)
      path
      (visit_all-IsSound graph (λ t u. visit fuel graph t u)
        (λ t u later. visit-IsSound fuel graph t u later) (imports graph s) (enter s v)
        (λ t edge. Leads-push graph v.stack s t path edge))

cycle_of-IsCycle :
    (graph : ScopeImports) (stack : List String) (r : Visited) (cycle : List String)
    → IsSound graph stack r
    → cycle_of r ≡ some (some cycle)
    → IsCycle graph cycle
unfolding IsSound
cycle_of-IsCycle graph stack none cycle h e = cc
cycle_of-IsCycle graph stack (some (none, v)) cycle h e = cc
cycle_of-IsCycle graph stack (some (some c, v)) cycle h e =
    let same : c ≡ cycle = cc in rw same at h

-- A cycle that is returned is one: it begins and ends with the same scope, and each scope of it
-- imports the next one.
pub import_cycle-IsCycle :
    (fuel : ℕ) (graph : ScopeImports) (cycle : List String)
    → import_cycle fuel graph ≡ some (some cycle)
    → IsCycle graph cycle
unfolding import_cycle
import_cycle-IsCycle fuel graph cycle e =
    let start : Visit = record { states = []; stack = [] } in
    let roots = map (λ (name, _). name) graph in
    cycle_of-IsCycle graph [] (visit_all (λ s v. visit fuel graph s v) roots start) cycle
      (visit_all-IsSound graph (λ s v. visit fuel graph s v)
        (λ s v path. visit-IsSound fuel graph s v path) roots start (λ s i. tt))
      e
