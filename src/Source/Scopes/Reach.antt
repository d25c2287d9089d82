-- ===== src/Source/Scopes/Reach.antt =====
-- crates/dsql-core/src/source.rs, `ScopeImports`: paths of imports.
use dsql.Prelude.{String, In}
use dsql.Source.Scopes.{ScopeImports, imports}

-- A scope is reached from another by imports, one after the other.
pub data Reach (graph : ScopeImports) : String → String → Type 0 where
  here : {s : String} → Reach graph s s
  via : {s x t : String} → Reach graph s x → In t (imports graph x) → Reach graph s t

pub prepend_import :
    {graph : ScopeImports} {s i t : String}
    → In i (imports graph s)
    → Reach graph i t
    → Reach graph s t
prepend_import edge here = via here edge
prepend_import edge (via path last) = via (prepend_import edge path) last
