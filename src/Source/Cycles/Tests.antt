-- ===== src/Source/Cycles/Tests.antt =====
-- Tests on imports with a cycle of two scopes below a scope that is not on it, and without one.
use dsql.Prelude.{none, some, [], ◌∷◌, ◌≡◌, ◌≢◌, refl, arith, string_eq}
use dsql.Source.Scopes.{ScopeImports}
use dsql.Source.Cycles.{visit, import_cycle}
use dsql.Source.Cycles.Sound.{IsCycle, import_cycle-IsCycle}
use dsql.Source.Cycles.Acyclic.{import_cycle-none}
use dsql.Source.Cycles.Enough.{import_cycle-ends}

abbrev looped : ScopeImports
looped = ("app", "base" ∷ "auth" ∷ []) ∷ ("auth", "tool" ∷ []) ∷ ("tool", "base" ∷ "auth" ∷ []) ∷ []

abbrev diamond : ScopeImports
diamond = ("app", "base" ∷ "auth" ∷ []) ∷ ("auth", "base" ∷ []) ∷ ("base", []) ∷ []

looped_cycle : import_cycle 8 looped ≡ some (some ("auth" ∷ "tool" ∷ "auth" ∷ []))
unfolding import_cycle visit
looped_cycle = refl

diamond_cycle : import_cycle 8 diamond ≡ some none
unfolding import_cycle visit
diamond_cycle = refl

import_cycle-IsCycle_example : IsCycle looped ("auth" ∷ "tool" ∷ "auth" ∷ [])
import_cycle-IsCycle_example =
    import_cycle-IsCycle 8 looped ("auth" ∷ "tool" ∷ "auth" ∷ []) looped_cycle

import_cycle-none_example : ¬ IsCycle diamond ("base" ∷ "base" ∷ [])
import_cycle-none_example = import_cycle-none 8 diamond ("base" ∷ "base" ∷ []) diamond_cycle

import_cycle-ends_example : import_cycle 9 looped ≢ none
import_cycle-ends_example = import_cycle-ends 9 looped (omega arith)
