-- ===== src/Source/Scopes.antt =====
-- crates/dsql-core/src/source.rs, `ScopeImports`: which scopes import which, and what is visible from
-- a scope. The graph is a list of scopes with their imports. The set `seen` and the list `visible` of
-- the source gain the same scopes at the same time, so one list stands for both. Fuel bounds the
-- depth of the walk; the outer `none` of a result means that it ran out.
pub mod Reach
pub mod Complete
pub mod Enough
pub mod Tests
use dsql.Prelude.{
  ℕ, zero, suc, String, Bool, true, false, not, ◌&&◌, Option, none, some, List, [], ◌∷◌, ◌++◌, map,
  any, keep, contains, if◌then◌else◌, ◌==◌, string_eq,
}

abbrev pub ScopeImports : Type 0
ScopeImports = List (String × List String)

-- The imports of a scope; a scope that is not declared has none.
abbrev pub imports : ScopeImports → String → List String
imports [] scope = []
imports ((name, targets) ∷ graph) scope = if name == scope then targets else imports graph scope

unfoldable pub is_generation_target : ScopeImports → String → Bool
is_generation_target self scope =
    any self (λ (name, _). name == scope) && not (any self (λ (_, targets). contains targets scope))

unfoldable pub generation_targets : ScopeImports → List String
unfolding is_generation_target
generation_targets self = keep (map (λ (name, _). name) self) (is_generation_target self)

abbrev pub Walk : Type 0
Walk = String → List String → Option (List String)

-- `Option` with an early exit.
abbrev pub then_walk :
    Option (List String) → (List String → Option (List String)) → Option (List String)
then_walk none next = none
then_walk (some visible) next = next visible

abbrev pub collect_all : Walk → List String → List String → Option (List String)
collect_all walk [] visible = some visible
collect_all walk (scope ∷ scopes) visible =
    then_walk (walk scope visible) (λ next. collect_all walk scopes next)

unfoldable pub collect : ℕ → ScopeImports → Walk
collect zero graph scope visible = none
collect (suc fuel) graph scope visible =
    let below =
      collect_all (λ s v. collect fuel graph s v) (imports graph scope) (visible ++ scope ∷ []) in
    if contains visible scope then some visible else below

unfoldable pub visible_from : ℕ → ScopeImports → String → Option (List String)
unfolding collect
visible_from fuel self scope = collect fuel self scope []

abbrev rest_of : List String → List String
rest_of [] = []
rest_of (_ ∷ scopes) = scopes

abbrev pub skip_first : Option (List String) → Option (List String)
skip_first none = none
skip_first (some scopes) = some (rest_of scopes)

unfoldable pub imports_of : ℕ → ScopeImports → String → Option (List String)
unfolding visible_from
imports_of fuel self scope = skip_first (visible_from fuel self scope)
