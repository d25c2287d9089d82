-- ===== src/Source/Scopes/Tests.antt =====
-- Tests on three scopes whose imports have a diamond and a cycle, and one that stands alone.
use dsql.Prelude.{String, none, some, [], ◌∷◌, In, inl, inr, ◌≡◌, ◌≢◌, refl, arith, string_eq}
use dsql.Source.Scopes.{
  ScopeImports, imports, is_generation_target, generation_targets, collect, visible_from,
  imports_of,
}
use dsql.Source.Scopes.Reach.{Reach, here, via}
use dsql.Source.Scopes.Complete.{visible_from-reached, visible_from_complete}
use dsql.Source.Scopes.Enough.{visible_from-ends}

abbrev graph : ScopeImports
graph =
    ("app", "base" ∷ "auth" ∷ [])
    ∷ ("auth", "base" ∷ [])
    ∷ ("base", "auth" ∷ [])
    ∷ ("tool", "base" ∷ [])
    ∷ []

from_app : visible_from 8 graph "app" ≡ some ("app" ∷ "base" ∷ "auth" ∷ [])
unfolding visible_from collect
from_app = refl

imports_of_app : imports_of 8 graph "app" ≡ some ("base" ∷ "auth" ∷ [])
unfolding imports_of visible_from collect
imports_of_app = refl

targets_of_graph : generation_targets graph ≡ "app" ∷ "tool" ∷ []
unfolding generation_targets is_generation_target
targets_of_graph = refl

visible_from-reached_example : Reach graph "app" "auth"
visible_from-reached_example =
    visible_from-reached graph 8 "app" "auth" ("app" ∷ "base" ∷ "auth" ∷ []) from_app
      (inr (inr (inl refl)))

around_the_cycle : Reach graph "app" "base"
around_the_cycle =
    let first : In {A = String} "base" (imports graph "app") = inl refl in
    let second : In {A = String} "auth" (imports graph "base") = inl refl in
    let third : In {A = String} "base" (imports graph "auth") = inl refl in
    via (via (via here first) second) third

visible_from_complete_example : In {A = String} "base" ("app" ∷ "base" ∷ "auth" ∷ [])
visible_from_complete_example =
    visible_from_complete graph 8 "app" "base" ("app" ∷ "base" ∷ "auth" ∷ []) from_app
      around_the_cycle

visible_from-ends_example : visible_from 8 graph "app" ≢ none
visible_from-ends_example = visible_from-ends 8 graph "app" (omega arith)
