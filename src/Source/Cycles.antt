-- ===== src/Source/Cycles.antt =====
-- crates/dsql-core/src/source.rs, `import_cycle`: the first cycle of a depth-first walk over the
-- imports. The states and the stack that `visit` changes are passed on. Fuel bounds the depth of the
-- walk; the outer `none` of a result means that it ran out.
pub mod Sound
pub mod Ordered
pub mod Acyclic
pub mod Enough
pub mod Tests
use dsql.Prelude.{
  ℕ, zero, suc, String, Bool, Option, none, some, List, [], ◌∷◌, ◌++◌, map, if◌then◌else◌, ◌==◌,
  string_eq,
}
use dsql.Source.Scopes.{ScopeImports, imports}

pub data VisitState : Type 0 where
  visiting : VisitState
  visited : VisitState

pub record Visit : Type 0 where
  pub states : List (String × VisitState)
  pub stack : List String

abbrev pub Visited : Type 0
Visited = Option (Option (List String) × Visit)

abbrev pub state_of : List (String × VisitState) → String → Option VisitState
state_of [] scope = none
state_of ((name, state) ∷ states) scope =
    if name == scope then some state else state_of states scope

-- The stack from the first entry that is the scope.
abbrev pub from_entry : List String → String → Option (List String)
from_entry [] scope = none
from_entry (entry ∷ stack) scope =
    if entry == scope then some (entry ∷ stack) else from_entry stack scope

abbrev pub close : String → Option (List String) → Option (List String)
close scope none = none
close scope (some stack) = some (stack ++ scope ∷ [])

abbrev pub pop : List String → List String
pop [] = []
pop (entry ∷ []) = []
pop (entry ∷ next ∷ stack) = entry ∷ pop (next ∷ stack)

abbrev pub enter : String → Visit → Visit
enter scope v = record {
  states = (scope, VisitState.visiting) ∷ v.states;
  stack = v.stack ++ scope ∷ [];
}

abbrev pub leave : String → Visited → Visited
leave scope none = none
leave scope (some (some cycle, v)) = some (some cycle, v)
leave scope (some (none, v)) =
    some (none, record { states = (scope, VisitState.visited) ∷ v.states; stack = pop v.stack })

abbrev pub unless_cycle : Visited → (Visit → Visited) → Visited
unless_cycle none next = none
unless_cycle (some (some cycle, v)) next = some (some cycle, v)
unless_cycle (some (none, v)) next = next v

abbrev pub visit_all : (String → Visit → Visited) → List String → Visit → Visited
visit_all walk [] v = some (none, v)
visit_all walk (scope ∷ scopes) v = unless_cycle (walk scope v) (λ next. visit_all walk scopes next)

abbrev pub by_state : String → Visit → Visited → Option VisitState → Visited
by_state scope v below (some VisitState.visited) = some (none, v)
by_state scope v below (some VisitState.visiting) = some (close scope (from_entry v.stack scope), v)
by_state scope v below none = leave scope below

unfoldable pub visit : ℕ → ScopeImports → String → Visit → Visited
visit zero graph scope v = none
visit (suc fuel) graph scope v =
    let below = visit_all (λ s u. visit fuel graph s u) (imports graph scope) (enter scope v) in
    by_state scope v below (state_of v.states scope)

abbrev pub cycle_of : Visited → Option (Option (List String))
cycle_of none = none
cycle_of (some (cycle, _)) = some cycle

unfoldable pub import_cycle : ℕ → ScopeImports → Option (Option (List String))
unfolding visit
import_cycle fuel self = cycle_of (
    visit_all (λ s v. visit fuel self s v) (map (λ (name, _). name) self)
      (record { states = []; stack = [] }))
