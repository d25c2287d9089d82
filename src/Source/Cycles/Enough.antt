-- ===== src/Source/Cycles/Enough.antt =====
-- crates/dsql-core/src/source.rs, `import_cycle`: enough fuel for the walk, with cycles or without.
use dsql.Prelude.{
  ℕ, zero, suc, ◌<◌, ◌≤◌, String, Bool, true, false, Option, none, some, List, [], ◌∷◌, ◌++◌, map,
  keep, length, In, In-append_left, In-append_right, ◌≡◌, ◌≢◌, refl, inl, inr, arith, Bool-cases,
  ◌==◌, string_eq,
}
use dsql.Source.Scopes.{ScopeImports, imports}
use dsql.Source.Scopes.Enough.{length-keep_le, length-keep_lt, length-keep, all_imports, imports-In}
use dsql.Source.Cycles.{
  VisitState, Visit, Visited, state_of, from_entry, close, enter, leave, unless_cycle, visit_all,
  by_state, visit, cycle_of, import_cycle,
}

abbrev missing : Option VisitState → Bool
missing none = true
missing (some _) = false

-- The scope has no state yet.
unmarked : Visit → String → Bool
unmarked v x = missing (state_of v.states x)

-- How many scopes of the universe have no state yet.
to_mark : List String → Visit → ℕ
to_mark universe v = length (keep universe (unmarked v))

-- No scope loses its state.
Marks : Visit → Visit → Type 0
Marks v u = (x : String) → unmarked u x ≡ true → unmarked v x ≡ true

-- The walk ends, with a cycle or after it marked what it entered.
Ends : Visit → Visited → Type 0
Ends v none = ⊥
Ends v (some (some _, _)) = Unit
Ends v (some (none, u)) = Marks v u

missing-mark :
    (states : List (String × VisitState)) (s : String) (k : VisitState) (x : String)
    → missing (state_of ((s, k) ∷ states) x) ≡ true
    → missing (state_of states x) ≡ true
missing-mark states s k x h = elim (Bool-cases (s == x)) [
  | inl e ↦ ground arith
  | inr e ↦ rw e at h
]

unless_cycle-Ends :
    (v : Visit) (r : Visited) (next : Visit → Visited)
    → Ends v r
    → ((u : Visit) → Marks v u → Ends v (next u))
    → Ends v (unless_cycle r next)
unfolding Ends
unless_cycle-Ends v none next h later = h
unless_cycle-Ends v (some (some c, u)) next h later = h
unless_cycle-Ends v (some (none, u)) next h later = later u h

Marks-Ends : (v u : Visit) (r : Visited) → Marks v u → Ends u r → Ends v r
unfolding Ends Marks
Marks-Ends v u none m h = h
Marks-Ends v u (some (some c, w)) m h = h
Marks-Ends v u (some (none, w)) m h = λ x k. m x (h x k)

leave-Ends : (s : String) (v : Visit) (r : Visited) → Ends (enter s v) r → Ends v (leave s r)
unfolding Ends Marks unmarked
leave-Ends s v none h = h
leave-Ends s v (some (some c, u)) h = h
leave-Ends s v (some (none, u)) h = λ x k.
    missing-mark v.states s VisitState.visiting x
      (h x (missing-mark u.states s VisitState.visited x k))

by_state-Ends :
    (s : String) (v : Visit) (below : Visited) (state : Option VisitState)
    → state_of v.states s ≡ state
    → (state_of v.states s ≡ none → Ends (enter s v) below)
    → Ends v (by_state s v below state)
unfolding Ends Marks
by_state-Ends s v below none e h = leave-Ends s v below (h e)
by_state-Ends s v below (some VisitState.visiting) e h = found-Ends (from_entry v.stack s)
  where
    found-Ends : (found : Option (List String)) → Ends v (some (close s found, v))
    found-Ends none = λ x k. k
    found-Ends (some _) = tt
by_state-Ends s v below (some VisitState.visited) e h = λ x k. k

to_mark-Marks :
    (universe : List String) (v u : Visit) → Marks v u → to_mark universe u ≤ to_mark universe v
unfolding Marks to_mark
to_mark-Marks universe v u m = length-keep_le universe (unmarked u) (unmarked v) m

to_mark-enter :
    (universe : List String) (s : String) (v : Visit)
    → In s universe
    → state_of v.states s ≡ none
    → to_mark universe (enter s v) < to_mark universe v
unfolding to_mark unmarked
to_mark-enter universe s v i fresh =
    length-keep_lt universe (unmarked (enter s v)) (unmarked v) s
      (λ x k. missing-mark v.states s VisitState.visiting x k) i
      (rw ((string_eq.beq_iff s s).1 refl) refl) (rw fresh refl)

module _ (graph : ScopeImports) (universe : List String)
    (known_imports : (x i : String) → In i (imports graph x) → In i universe) where
  visit_all-Ends :
      (fuel : ℕ) (walk : String → Visit → Visited)
      → ((s : String) (v : Visit) → In s universe → to_mark universe v < fuel → Ends v (walk s v))
      → (scopes : List String) (v : Visit) → ((s : String) → In s scopes → In s universe)
      → to_mark universe v < fuel
      → Ends v (visit_all walk scopes v)
  unfolding Ends Marks
  visit_all-Ends fuel walk one [] v known h = λ x k. k
  visit_all-Ends fuel walk one (s ∷ scopes) v known h =
      unless_cycle-Ends v (walk s v) (λ u. visit_all walk scopes u) (one s v (known s (inl refl)) h)
        (λ u m. Marks-Ends v u (visit_all walk scopes u) m (
          visit_all-Ends fuel walk one scopes u (λ x i. known x (inr i))
            (omega (arith, to_mark-Marks universe v u m))))

  visit-Ends :
      (fuel : ℕ) (s : String) (v : Visit)
      → In s universe
      → to_mark universe v < fuel
      → Ends v (visit fuel graph s v)
  unfolding visit
  visit-Ends zero s v i h = absurd (omega arith)
  visit-Ends (suc fuel) s v i h =
      by_state-Ends s v (visit_all (λ x u. visit fuel graph x u) (imports graph s) (enter s v))
        (state_of v.states s) refl
        (λ fresh.
          visit_all-Ends fuel (λ x u. visit fuel graph x u) (λ x u j k. visit-Ends fuel x u j k)
            (imports graph s) (enter s v) (λ x edge. known_imports s x edge)
            (omega (arith, to_mark-enter universe s v i fresh)))

cycle_of-Ends : (v : Visit) (r : Visited) → Ends v r → cycle_of r ≢ none
unfolding Ends
cycle_of-Ends v none h = absurd h
cycle_of-Ends v (some (c, u)) h = λ p. cc

-- The search for a cycle ends when the fuel is more than the number of declared scopes and of
-- imports together.
pub import_cycle-ends :
    (fuel : ℕ) (graph : ScopeImports)
    → length (map (λ (name, _). name) graph ++ all_imports graph) < fuel
    → import_cycle fuel graph ≢ none
unfolding import_cycle to_mark
import_cycle-ends fuel graph h =
    let start : Visit = record { states = []; stack = [] } in
    let roots = map (λ (name, _). name) graph in
    let universe = roots ++ all_imports graph in
    let known : (x i : String) → In i (imports graph x) → In i universe =
      λ x i edge. In-append_right roots (all_imports graph) i (imports-In graph x i edge) in
    let bound : to_mark universe start < fuel =
      omega (arith, length-keep universe (unmarked start)) in
    cycle_of-Ends start (visit_all (λ s v. visit fuel graph s v) roots start) (
      visit_all-Ends graph universe known fuel (λ s v. visit fuel graph s v)
        (λ s v i k. visit-Ends graph universe known fuel s v i k) roots start
        (λ s i. In-append_left roots (all_imports graph) s i) bound)
