-- ===== src/Sql/Template.antt =====
-- crates/dsql-core/src/sql/postgres.rs, `SqlTemplateContext`: what rendering gathers beside the SQL.
pub mod Grows
use dsql.Prelude.{
  ℕ, suc, ◌+◌, ◌^◌, String, Bool, true, false, not, Option, none, some, List, [], ◌∷◌, ◌++◌, any,
  contains, if◌then◌else◌, ◌==◌, string_eq, ltb, format, decimal, replace, length, ◌≡◌, refl,
}
use dsql.Catalog.Types.{TypeKey}
use dsql.Plan.Filter.{PolicyContextRequirement, SqlParameter, SqlVariantCase}
use dsql.Plan.Context.{extend_unique_context}
use dsql.Sql.Sites.{
  GeneratedSqlParameter, GeneratedSqlVariant, GeneratedDynamicInputSiteField,
  GeneratedDynamicInputSite, DynamicInputKind, DynamicMarkerKind, DynamicMarker,
}
use dsql.Sql.Error.{SqlGenerationError, Outcome, done, failed}

pub record SqlTemplateContext : Type 0 where
  pub parameters : List GeneratedSqlParameter
  pub policy_context : List PolicyContextRequirement
  pub variants : List GeneratedSqlVariant
  pub replacements : List (String × String)
  pub numeric_replacements : List (String × String)
  pub dynamic_markers : List DynamicMarker
  pub dynamic_sites : List GeneratedDynamicInputSite
  pub next_sentinel : ℕ
  pub next_dynamic_marker : ℕ

-- A step that reads and changes the template and may fail.
abbrev pub M : Type 0 → Type 0
M A = SqlTemplateContext → Outcome (A × SqlTemplateContext)

abbrev pub give : {A : Type 0} → A → M A
give a template = done (a, template)

abbrev pub fail : {A : Type 0} → SqlGenerationError → M A
fail e template = failed e

abbrev pub continue :
    {A B : Type 0} → (A → M B) → Outcome (A × SqlTemplateContext) → Outcome (B × SqlTemplateContext)
continue next (done (a, template)) = next a template
continue next (failed e) = failed e

infixl 5 ◌>>=◌ ◌>>◌
abbrev pub ◌>>=◌ : {A B : Type 0} → M A → (A → M B) → M B
◌>>=◌ step next template = continue next (step template)

abbrev pub ◌>>◌ : {A B : Type 0} → M A → M B → M B
◌>>◌ first second = first >>= λ _. second

-- `ok_or`
abbrev pub present_or : {A : Type 0} → Option A → SqlGenerationError → M A
present_or none e = fail e
present_or (some a) e = give a

unfoldable pub new_template : ℕ → ℕ → SqlTemplateContext
new_template next_sentinel next_dynamic_marker = record {
  parameters = [];
  policy_context = [];
  variants = [];
  replacements = [];
  numeric_replacements = [];
  dynamic_markers = [];
  dynamic_sites = [];
  next_sentinel = next_sentinel;
  next_dynamic_marker = next_dynamic_marker;
}

unfoldable pub quoted_type_key : TypeKey → String
quoted_type_key key =
    format
      ("\"" ∷ replace key.schema "\"" "\"\"" ∷ "\".\"" ∷ replace key.name "\"" "\"\"" ∷ "\"" ∷ [])

abbrev pub array_suffix : Bool → String
array_suffix collection = if collection then "[]" else ""

unfoldable pub text_cast_parameter : String → TypeKey → Bool → String
unfolding quoted_type_key
text_cast_parameter placeholder target collection = format (
    "(("
    ∷ placeholder
    ∷ ")::text"
    ∷ array_suffix collection
    ∷ ")::"
    ∷ quoted_type_key target
    ∷ array_suffix collection
    ∷ [])

abbrev pub cast_text : Option TypeKey → String → Bool → String
cast_text none placeholder collection = placeholder
cast_text (some target) placeholder collection = text_cast_parameter placeholder target collection

abbrev pub one_later : Option ℕ → Option ℕ
one_later none = none
one_later (some index) = some (suc index)

-- `Iterator::position` of the path of a parameter.
abbrev pub position : List GeneratedSqlParameter → String → Option ℕ
position [] path = none
position (candidate ∷ parameters) path =
    let rest = position parameters path in if candidate.path == path then some 0 else one_later rest

unfoldable pub placeholder_text : ℕ → SqlParameter → String
placeholder_text index parameter =
    cast_text parameter.text_cast (format ("$" ∷ decimal (suc index) ∷ [])) parameter.collection

abbrev pub numbered : SqlParameter → Option ℕ → M String
numbered parameter (some index) template = done (placeholder_text index parameter, template)
numbered parameter none template = done (
  placeholder_text (length template.parameters) parameter,
  record template { parameters = template.parameters ++ (record { path = parameter.path }) ∷ [] },
)

-- Each path has one number, from its first use.
unfoldable pub parameter_text : SqlParameter → M String
parameter_text parameter template =
    numbered parameter (position template.parameters parameter.path) template

unfoldable pub require_policy_context : List PolicyContextRequirement → M (Unit {0})
require_policy_context requirements template = done (
  tt,
  record template { policy_context = extend_unique_context template.policy_context requirements },
)

unfoldable pub variant_with_null : String → List SqlVariantCase → Option String → M String
variant_with_null path cases null_text template =
    let known = any template.variants (λ (variant : GeneratedSqlVariant). variant.path == path) in
    let added : GeneratedSqlVariant = record {
      path = path;
      cases = cases;
      null_text = null_text;
    } in
    done (
      format ("{{" ∷ path ∷ "}}" ∷ []),
      record template {
        variants = if known then template.variants else template.variants ++ added ∷ [];
        replacements =
            template.replacements
            ++ (format ("{ { " ∷ path ∷ " } }" ∷ []), format ("{{" ∷ path ∷ "}}" ∷ [])) ∷ [];
      },
    )

unfoldable pub variant_text : String → List SqlVariantCase → M String
unfolding variant_with_null
variant_text path cases = variant_with_null path cases none

-- `u64::checked_add(1)`
unfoldable pub checked_next : ℕ → M ℕ
checked_next n =
    if ltb (n + 1) (2 ^ 64)
    then give (n + 1)
    else fail SqlGenerationError.template_sentinel_exhausted

abbrev pub store_sentinel : ℕ → M (Unit {0})
store_sentinel next template = done (tt, record template { next_sentinel = next })

abbrev pub store_marker : ℕ → M (Unit {0})
store_marker next template = done (tt, record template { next_dynamic_marker = next })

abbrev pub add_numeric : String → String → M (Unit {0})
add_numeric needle replacement template = done (
  tt,
  record template {
    numeric_replacements = template.numeric_replacements ++ (needle, replacement) ∷ [];
  },
)

unfoldable pub numeric_sentinel : String → M ℕ
unfolding checked_next
numeric_sentinel replacement template =
    (do
      next ← checked_next template.next_sentinel
      store_sentinel next
      add_numeric (decimal template.next_sentinel) replacement
      give template.next_sentinel)
      template

abbrev pub add_site : DynamicMarker → GeneratedDynamicInputSite → M (Unit {0})
add_site marker site template = done (
  tt,
  record template {
    dynamic_markers = template.dynamic_markers ++ marker ∷ [];
    dynamic_sites = template.dynamic_sites ++ site ∷ [];
  },
)

unfoldable pub dynamic_site :
    String
    → DynamicInputKind
    → String
    → List GeneratedDynamicInputSiteField
    → DynamicMarkerKind
    → M String
unfolding checked_next
dynamic_site path kind identity_sql fields marker_kind template =
    let internal = format ("__dsql_dynamic_" ∷ decimal template.next_sentinel ∷ "__" ∷ []) in
    let public_text = format ("{{dynamic:" ∷ decimal template.next_dynamic_marker ∷ "}}" ∷ []) in
    (do
      next ← checked_next template.next_sentinel
      store_sentinel next
      next_marker ← checked_next template.next_dynamic_marker
      store_marker next_marker
      add_site (record { internal = internal; public_text = public_text; kind = marker_kind })
          (record {
            path = path;
            kind = kind;
            marker = public_text;
            identity_sql = identity_sql;
            fields = fields;
          })
      give internal)
      template
