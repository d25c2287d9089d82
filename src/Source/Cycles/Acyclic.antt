-- ===== src/Source/Cycles/Acyclic.antt =====
-- crates/dsql-core/src/source.rs, `import_cycle`: without a result, the imports have no cycle.
use dsql.Prelude.{
  ℕ, zero, suc, String, true, Option, none, some, List, [], ◌∷◌, ◌++◌, map, In, append-In,
  In-append_left, In-append_right, ◌≡◌, refl, sym, inl, inr, arith, Bool-cases, ◌==◌, string_eq,
}
use dsql.Source.Scopes.{ScopeImports, imports}
use dsql.Source.Cycles.{
  VisitState, Visit, Visited, state_of, from_entry, pop, enter, leave, unless_cycle, visit_all,
  by_state, visit, cycle_of, import_cycle,
}
use dsql.Source.Cycles.Sound.{first_or, Leads, IsCycle, around, pop-push}
use dsql.Source.Cycles.Ordered.{IsVisited, IsOrdered, state_of-mark, no_cycle}

-- The states are in order, and a scope that is being visited is on the stack.
record IsTidy (graph : ScopeImports) (v : Visit) : Type 0 where
  ordered : IsOrdered graph v.states
  on_stack : (x : String) → state_of v.states x ≡ some VisitState.visiting → In x v.stack

-- What a walk to the end of some scopes leaves.
record IsLeft (graph : ScopeImports) (scopes : List String) (v u : Visit) : Type 0 where
  tidy : IsTidy graph u
  same_stack : u.stack ≡ v.stack
  kept : (x : String) → IsVisited v.states x → IsVisited u.states x
  all_visited : (x : String) → In x scopes → IsVisited u.states x

AtEnd : ScopeImports → List String → Visit → Visited → Type 0
AtEnd graph scopes v none = Unit
AtEnd graph scopes v (some (some _, _)) = Unit
AtEnd graph scopes v (some (none, u)) = IsLeft graph scopes v u

IsLeft-then :
    (graph : ScopeImports) (s : String) (scopes : List String) (v u w : Visit)
    → IsLeft graph (s ∷ []) v u
    → IsLeft graph scopes u w
    → IsLeft graph (s ∷ scopes) v w
IsLeft-then graph s scopes v u w a b = record {
  tidy = b.tidy;
  same_stack = cc (a.same_stack, b.same_stack);
  kept = λ x h. b.kept x (a.kept x h);
  all_visited = all_of;
}
  where
    all_of : (x : String) → In x (s ∷ scopes) → IsVisited w.states x
    all_of x (inl same) = b.kept x (a.all_visited x (inl same))
    all_of x (inr i) = b.all_visited x i

AtEnd-then :
    (graph : ScopeImports) (s : String) (scopes : List String) (v u : Visit) (r : Visited)
    → IsLeft graph (s ∷ []) v u
    → AtEnd graph scopes u r
    → AtEnd graph (s ∷ scopes) v r
unfolding AtEnd
AtEnd-then graph s scopes v u none a b = tt
AtEnd-then graph s scopes v u (some (some c, w)) a b = tt
AtEnd-then graph s scopes v u (some (none, w)) a b = IsLeft-then graph s scopes v u w a b

unless_cycle-AtEnd :
    (graph : ScopeImports) (s : String) (scopes : List String) (v : Visit) (r : Visited)
    (next : Visit → Visited)
    → AtEnd graph (s ∷ []) v r
    → ((u : Visit) → IsTidy graph u → AtEnd graph scopes u (next u))
    → AtEnd graph (s ∷ scopes) v (unless_cycle r next)
unfolding AtEnd
unless_cycle-AtEnd graph s scopes v none next h later = tt
unless_cycle-AtEnd graph s scopes v (some (some c, u)) next h later = tt
unless_cycle-AtEnd graph s scopes v (some (none, u)) next h later =
    AtEnd-then graph s scopes v u (next u) h (later u h.tidy)

visit_all-AtEnd :
    (graph : ScopeImports) (walk : String → Visit → Visited)
    → ((s : String) (v : Visit) → IsTidy graph v → AtEnd graph (s ∷ []) v (walk s v))
    → (scopes : List String) (v : Visit) → IsTidy graph v
    → AtEnd graph scopes v (visit_all walk scopes v)
unfolding AtEnd
visit_all-AtEnd graph walk one [] v t = record {
  tidy = t;
  same_stack = refl;
  kept = λ x h. h;
  all_visited = λ x i. absurd i;
}
visit_all-AtEnd graph walk one (s ∷ scopes) v t =
    unless_cycle-AtEnd graph s scopes v (walk s v) (λ u. visit_all walk scopes u) (one s v t)
      (λ u tidy. visit_all-AtEnd graph walk one scopes u tidy)

enter-IsTidy :
    (graph : ScopeImports) (s : String) (v : Visit)
    → state_of v.states s ≡ none
    → IsTidy graph v
    → IsTidy graph (enter s v)
enter-IsTidy graph s v fresh t = record {
  ordered = (fresh, t.ordered);
  on_stack = λ x h. elim (Bool-cases (s == x)) [
    | inl e ↦ In-append_right v.stack (s ∷ []) x (inl (sym ((string_eq.beq_iff s x).0 e)))
    | inr e ↦ In-append_left v.stack (s ∷ []) x (t.on_stack x (rw e at h))
  ];
}

leave-AtEnd :
    (graph : ScopeImports) (s : String) (v : Visit) (r : Visited)
    → state_of v.states s ≡ none
    → AtEnd graph (imports graph s) (enter s v) r
    → AtEnd graph (s ∷ []) v (leave s r)
unfolding AtEnd
leave-AtEnd graph s v none fresh h = tt
leave-AtEnd graph s v (some (some c, u)) fresh h = tt
leave-AtEnd graph s v (some (none, u)) fresh h = record {
  tidy = record { ordered = (h.all_visited, h.tidy.ordered); on_stack = on_stack_of };
  same_stack = popped;
  kept = λ x k. state_of-mark u.states s x (h.kept x (below_mark x k));
  all_visited = λ x i. elim i [
    | inl same ↦ rw same (rw (beq_same s) refl)
    | inr none_there ↦ absurd none_there
  ];
}
  where
    beq_same : (x : String) → (x == x) ≡ true
    beq_same x = (string_eq.beq_iff x x).1 refl

    popped : pop u.stack ≡ v.stack
    popped = rw h.same_stack (pop-push v.stack s)

    below_mark :
        (x : String) → IsVisited v.states x → IsVisited ((s, VisitState.visiting) ∷ v.states) x
    below_mark x k = elim (Bool-cases (s == x)) [
      | inl e ↦ let same : s ≡ x = (string_eq.beq_iff s x).0 e in absurd (cc (same, fresh, k))
      | inr e ↦ rw e k
    ]

    on_stack_of :
        (x : String)
        → state_of ((s, VisitState.visited) ∷ u.states) x ≡ some VisitState.visiting
        → In x (pop u.stack)
    on_stack_of x k = elim (Bool-cases (s == x)) [
      | inl e ↦ ground arith
      | inr e ↦
          let there : In x (v.stack ++ s ∷ []) =
            rw h.same_stack at (h.tidy.on_stack x (rw e at k)) in
          rw popped (elim (append-In v.stack (s ∷ []) x there) [
            | inl i ↦ i
            | inr i ↦ elim i [
              | inl same ↦ absurd (cc (beq_same x, same, e))
              | inr none_there ↦ absurd none_there
            ]
          ])
    ]

from_entry-some :
    (stack : List String) (s : String)
    → In s stack
    → (found : List String) × (from_entry stack s ≡ some found)
from_entry-some [] s i = absurd i
from_entry-some (x ∷ xs) s (inl same) =
    (x ∷ xs, ground (arith, (string_eq.beq_iff x s).1 (sym same)))
from_entry-some (x ∷ xs) s (inr i) = elim (Bool-cases (x == s)) [
  | inl e ↦ (x ∷ xs, rw e refl)
  | inr e ↦ rw e (from_entry-some xs s i)
]

by_state-AtEnd :
    (graph : ScopeImports) (s : String) (v : Visit) (below : Visited) (state : Option VisitState)
    → IsTidy graph v
    → state_of v.states s ≡ state
    → (state_of v.states s ≡ none → AtEnd graph (imports graph s) (enter s v) below)
    → AtEnd graph (s ∷ []) v (by_state s v below state)
unfolding AtEnd
by_state-AtEnd graph s v below none t e h = leave-AtEnd graph s v below e (h e)
by_state-AtEnd graph s v below (some VisitState.visiting) t e h =
    let (found, f) = from_entry-some v.stack s (t.on_stack s e) in rw f tt
by_state-AtEnd graph s v below (some VisitState.visited) t e h = record {
  tidy = t;
  same_stack = refl;
  kept = λ x k. k;
  all_visited = λ x i. elim i [ inl same ↦ rw same e | inr none_there ↦ absurd none_there ];
}

visit-AtEnd :
    (fuel : ℕ) (graph : ScopeImports) (s : String) (v : Visit)
    → IsTidy graph v
    → AtEnd graph (s ∷ []) v (visit fuel graph s v)
unfolding visit AtEnd
visit-AtEnd zero graph s v t = tt
visit-AtEnd (suc fuel) graph s v t =
    by_state-AtEnd graph s v (visit_all (λ x u. visit fuel graph x u) (imports graph s) (enter s v))
      (state_of v.states s) t refl
      (λ fresh.
        visit_all-AtEnd graph (λ x u. visit fuel graph x u)
          (λ x u tidy. visit-AtEnd fuel graph x u tidy) (imports graph s) (enter s v)
          (enter-IsTidy graph s v fresh t))

imports-declared :
    (graph : ScopeImports) (x i : String)
    → In i (imports graph x)
    → In x (map (λ (name, _). name) graph)
imports-declared [] x i h = absurd h
imports-declared ((name, targets) ∷ graph) x i h = elim (Bool-cases (name == x)) [
  | inl e ↦ inl (sym ((string_eq.beq_iff name x).0 e))
  | inr e ↦ inr (imports-declared graph x i (rw e at h))
]

AtEnd-no_cycle :
    (graph : ScopeImports) (v : Visit) (r : Visited) (s : String) (xs : List String)
    → AtEnd graph (map (λ (name, _). name) graph) v r
    → cycle_of r ≡ some none
    → Leads graph (s ∷ xs) s
    → ⊥
unfolding AtEnd
AtEnd-no_cycle graph v none s xs h e path = cc
AtEnd-no_cycle graph v (some (some c, u)) s xs h e path = cc
AtEnd-no_cycle graph v (some (none, u)) s xs h e path =
    no_cycle graph u.states s xs h.tidy.ordered
      (h.all_visited s (imports-declared graph s (first_or s xs) path.0)) path

-- When no cycle is returned, though the fuel did not run out, the imports have none.
pub import_cycle-none :
    (fuel : ℕ) (graph : ScopeImports) (cycle : List String)
    → import_cycle fuel graph ≡ some none
    → ¬ IsCycle graph cycle
unfolding import_cycle
import_cycle-none fuel graph _ e (around s xs path) =
    let start : Visit = record { states = []; stack = [] } in
    let roots = map (λ (name, _). name) graph in
    AtEnd-no_cycle graph start (visit_all (λ x v. visit fuel graph x v) roots start) s xs
      (visit_all-AtEnd graph (λ x v. visit fuel graph x v) (λ x v t. visit-AtEnd fuel graph x v t)
        roots start (record { ordered = tt; on_stack = λ x k. cc }))
      e path
