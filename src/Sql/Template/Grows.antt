-- ===== src/Sql/Template/Grows.antt =====
-- crates/dsql-core/src/sql/postgres.rs, `SqlTemplateContext`: the numbers of parameters never change.
use dsql.Prelude.{
  ℕ, suc, ◌+◌, ◌^◌, String, Bool, true, false, Option, none, some, List, [], ◌∷◌, ◌++◌, length,
  get_elem?, get_elem?-append_length, get_elem?-append_left, Extends, Extends-refl, Extends-trans,
  ◌≡◌, refl, sym, ap, subst, inl, inr, Bool-cases, if◌then◌else◌, ◌==◌, string_eq, ltb, decimal,
  format,
}
use dsql.Plan.Filter.{PolicyContextRequirement, SqlParameter, SqlVariantCase}
use dsql.Sql.Sites.{
  GeneratedSqlParameter, GeneratedDynamicInputSiteField, GeneratedDynamicInputSite, DynamicMarker,
  DynamicInputKind, DynamicMarkerKind,
}
use dsql.Sql.Error.{SqlGenerationError, Outcome, done, failed}
use dsql.Sql.Template.{
  SqlTemplateContext, M, give, fail, continue, ◌>>=◌, present_or, one_later, position,
  parameter_text, placeholder_text, numbered, parameter_text, require_policy_context,
  variant_with_null, variant_text, checked_next, store_sentinel, store_marker, add_numeric,
  add_site, numeric_sentinel, dynamic_site,
}

-- A later template: what SQL written before refers to by position or by marker is still there, its
-- parameters, its numeric sentinels and its dynamic sites.
pub record Later (before after : SqlTemplateContext) : Type 0 where
  pub parameters : Extends before.parameters after.parameters
  pub numeric_replacements : Extends before.numeric_replacements after.numeric_replacements
  pub dynamic_markers : Extends before.dynamic_markers after.dynamic_markers
  pub dynamic_sites : Extends before.dynamic_sites after.dynamic_sites

pub Later-refl : (t : SqlTemplateContext) → Later t t
Later-refl t = record {
  parameters = Extends-refl _;
  numeric_replacements = Extends-refl _;
  dynamic_markers = Extends-refl _;
  dynamic_sites = Extends-refl _;
}

pub Later-trans : {a b c : SqlTemplateContext} → Later a b → Later b c → Later a c
Later-trans {a} f g = record {
  parameters = Extends-trans a.parameters f.parameters g.parameters;
  numeric_replacements =
      Extends-trans a.numeric_replacements f.numeric_replacements g.numeric_replacements;
  dynamic_markers = Extends-trans a.dynamic_markers f.dynamic_markers g.dynamic_markers;
  dynamic_sites = Extends-trans a.dynamic_sites f.dynamic_sites g.dynamic_sites;
}

-- A step only leads to later templates.
pub record Grows {A : Type 0} (step : M A) : Type 0 where
  pub extends :
      (before : SqlTemplateContext) (a : A) (after : SqlTemplateContext)
      → step before ≡ done (a, after)
      → Later before after

pub done-injective : {A : Type 0} {a b : A} → done a ≡ done b → a ≡ b
done-injective {A} {a} h = ap (from_done a) h
  where
    from_done : A → Outcome A → A
    from_done d (done x) = x
    from_done d (failed _) = d

-- A step that succeeded gave a value to the next one, which succeeded.
pub continue-eq-done :
    {A B : Type 0} (next : A → M B) (r : Outcome (A × SqlTemplateContext))
    {out : B × SqlTemplateContext}
    → continue next r ≡ done out
    → (a : A) × (t : SqlTemplateContext) × (r ≡ done (a, t)) × (next a t ≡ done out)
continue-eq-done next (done (a, t)) h = (a, t, refl, h)
continue-eq-done next (failed e) h = cc

-- A step that ends at a later template.
ends-Later :
    {A : Type 0} {before : SqlTemplateContext} {p q : A × SqlTemplateContext}
    → done p ≡ done q
    → Later before p.1
    → Later before q.1
ends-Later {A} {before} h later =
    subst (λ (p : A × SqlTemplateContext). Later before p.1) (done-injective h) later

pub give-Grows : {A : Type 0} (a : A) → Grows (give a)
give-Grows a = record { extends = λ before x after h. ends-Later h (Later-refl before) }

pub fail-Grows : {A : Type 0} (e : SqlGenerationError) → Grows (fail {A = A} e)
fail-Grows e = record { extends = λ before x after h. cc }

pub >>=-Grows :
    {A B : Type 0} (step : M A) (next : A → M B)
    → Grows step
    → ((a : A) → Grows (next a))
    → Grows (step >>= next)
>>=-Grows step next g k = record {
  extends = λ before x after h.
      let (a, middle, first, second) = continue-eq-done next (step before) h in
      Later-trans (g.extends before a middle first) ((k a).extends middle x after second);
}

pub present_or-Grows : {A : Type 0} (o : Option A) (e : SqlGenerationError) → Grows (present_or o e)
present_or-Grows none e = fail-Grows e
present_or-Grows (some a) e = give-Grows a

if-Grows :
    {A : Type 0} (c : Bool) (m n : M A) → Grows m → Grows n → Grows (λ t. (if c then m else n) t)
if-Grows true m n g k = g
if-Grows false m n g k = k

unchanged :
    (before t : SqlTemplateContext)
    → t.parameters ≡ before.parameters
    → t.numeric_replacements ≡ before.numeric_replacements
    → t.dynamic_markers ≡ before.dynamic_markers
    → t.dynamic_sites ≡ before.dynamic_sites
    → Later before t
unchanged before t p n m s = record {
  parameters = rw p (Extends-refl _);
  numeric_replacements = rw n (Extends-refl _);
  dynamic_markers = rw m (Extends-refl _);
  dynamic_sites = rw s (Extends-refl _);
}

pub require_policy_context-Grows :
    (requirements : List PolicyContextRequirement) → Grows (require_policy_context requirements)
unfolding require_policy_context
require_policy_context-Grows requirements = record {
  extends = λ before a after h. ends-Later h (unchanged before _ refl refl refl refl);
}

pub variant_text-Grows :
    (path : String) (cases : List SqlVariantCase) → Grows (variant_text path cases)
unfolding variant_text variant_with_null
variant_text-Grows path cases = record {
  extends = λ before a after h. ends-Later h (unchanged before _ refl refl refl refl);
}

checked_next-Grows : (n : ℕ) → Grows (checked_next n)
unfolding checked_next
checked_next-Grows n =
    if-Grows (ltb (n + 1) (2 ^ 64)) (give (n + 1)) _ (give-Grows (n + 1)) (fail-Grows _)

-- A step that first looks at the template.
look-Grows :
    {A : Type 0} (step : SqlTemplateContext → M A)
    → ((t : SqlTemplateContext) → Grows (step t))
    → Grows (λ t. step t t)
look-Grows step g = record { extends = λ before a after h. (g before).extends before a after h }

store_sentinel-Grows : (n : ℕ) → Grows (store_sentinel n)
store_sentinel-Grows n = record {
  extends = λ before a after h. ends-Later h (unchanged before _ refl refl refl refl);
}

store_marker-Grows : (n : ℕ) → Grows (store_marker n)
store_marker-Grows n = record {
  extends = λ before a after h. ends-Later h (unchanged before _ refl refl refl refl);
}

add_numeric-Grows : (needle replacement : String) → Grows (add_numeric needle replacement)
add_numeric-Grows needle replacement = record {
  extends = λ before a after h. ends-Later h (record {
    parameters = Extends-refl before.parameters;
    numeric_replacements = ((needle, replacement) ∷ [], refl);
    dynamic_markers = Extends-refl before.dynamic_markers;
    dynamic_sites = Extends-refl before.dynamic_sites;
  });
}

add_site-Grows :
    (marker : DynamicMarker) (site : GeneratedDynamicInputSite) → Grows (add_site marker site)
add_site-Grows marker site = record {
  extends = λ before a after h. ends-Later h (record {
    parameters = Extends-refl before.parameters;
    numeric_replacements = Extends-refl before.numeric_replacements;
    dynamic_markers = (marker ∷ [], refl);
    dynamic_sites = (site ∷ [], refl);
  });
}

pub numeric_sentinel-Grows : (replacement : String) → Grows (numeric_sentinel replacement)
unfolding numeric_sentinel
numeric_sentinel-Grows replacement = look-Grows _ (λ t.
    >>=-Grows _ _ (checked_next-Grows t.next_sentinel) (λ next.
      >>=-Grows _ _ (store_sentinel-Grows next) (λ _.
        >>=-Grows _ _ (add_numeric-Grows (decimal t.next_sentinel) replacement)
          (λ _. give-Grows t.next_sentinel))))

pub dynamic_site-Grows :
    (path : String) (kind : DynamicInputKind) (identity_sql : String)
    (fields : List GeneratedDynamicInputSiteField) (marker_kind : DynamicMarkerKind)
    → Grows (dynamic_site path kind identity_sql fields marker_kind)
unfolding dynamic_site
dynamic_site-Grows path kind identity_sql fields marker_kind = look-Grows _ (λ t.
    let internal = format ("__dsql_dynamic_" ∷ decimal t.next_sentinel ∷ "__" ∷ []) in
    let public_text = format ("{{dynamic:" ∷ decimal t.next_dynamic_marker ∷ "}}" ∷ []) in
    let marker : DynamicMarker = record {
      internal = internal;
      public_text = public_text;
      kind = marker_kind;
    } in
    let site : GeneratedDynamicInputSite = record {
      path = path;
      kind = kind;
      marker = public_text;
      identity_sql = identity_sql;
      fields = fields;
    } in
    >>=-Grows _ _ (checked_next-Grows t.next_sentinel) (λ next.
      >>=-Grows _ _ (store_sentinel-Grows next) (λ _.
        >>=-Grows _ _ (checked_next-Grows t.next_dynamic_marker) (λ next_marker.
          >>=-Grows _ _ (store_marker-Grows next_marker)
            (λ _. >>=-Grows _ _ (add_site-Grows marker site) (λ _. give-Grows internal))))))

abbrev pub parameter_of : SqlParameter → GeneratedSqlParameter
parameter_of parameter = record { path = parameter.path }

-- The text of a parameter carries the number of its path.
pub record Numbers (ps : List GeneratedSqlParameter) (parameter : SqlParameter) (text : String)
    : Type 0 where
  pub index : ℕ
  pub at_index : get_elem? ps index ≡ some (parameter_of parameter)
  pub reads : text ≡ placeholder_text index parameter

-- A parameter keeps its number in a later template.
pub Numbers-Later :
    {before after : SqlTemplateContext} {parameter : SqlParameter} {text : String}
    → Later before after
    → Numbers before.parameters parameter text
    → Numbers after.parameters parameter text
Numbers-Later {before} later n =
    let (added, e) = later.parameters in
    record {
      index = n.index;
      at_index = rw e (get_elem?-append_left before.parameters added n.index n.at_index);
      reads = n.reads;
    }

one_later-eq-some :
    (o : Option ℕ) (index : ℕ) → one_later o ≡ some index → (n : ℕ) × (o ≡ some n) × (index ≡ suc n)
one_later-eq-some none index h = cc
one_later-eq-some (some n) index h = (n, refl, cc)

position-get_elem? :
    (ps : List GeneratedSqlParameter) (path : String) (index : ℕ)
    → position ps path ≡ some index
    → get_elem? ps index ≡ some (record { path = path })
position-get_elem? [] path index h = cc
position-get_elem? (candidate ∷ ps) path index h = elim (Bool-cases (candidate.path == path)) [
  | inl same ↦
      let first : some 0 ≡ some index = rw same at h in
      let zero_index : 0 ≡ index = cc in
      let same_path : candidate.path ≡ path = (string_eq.beq_iff candidate.path path).0 same in
      rw (sym zero_index) (rw (sym same_path) refl)
  | inr other ↦
      let (n, found, e) = one_later-eq-some (position ps path) index (rw other at h) in
      rw e (position-get_elem? ps path n found)
]

numbered-Numbers :
    (parameter : SqlParameter) (found : Option ℕ) (before : SqlTemplateContext) (text : String)
    (after : SqlTemplateContext)
    → position before.parameters parameter.path ≡ found
    → numbered parameter found before ≡ done (text, after)
    → Later before after × Numbers after.parameters parameter text
numbered-Numbers parameter (some index) before text after e h =
    let same : (placeholder_text index parameter, before) ≡ (text, after) = done-injective h in
    let same_after : before ≡ after = ap (λ p. p.1) same in
    (
      ends-Later h (Later-refl before),
      record {
        index = index;
        at_index =
            rw (sym same_after) (position-get_elem? before.parameters parameter.path index e);
        reads = sym (ap (λ p. p.0) same);
      },
    )
numbered-Numbers parameter none before text after e h =
    let same = done-injective h in
    let same_parameters : before.parameters ++ parameter_of parameter ∷ [] ≡ after.parameters =
      ap (λ p. p.1.parameters) same in
    (
      ends-Later h (record {
        parameters = (parameter_of parameter ∷ [], refl);
        numeric_replacements = Extends-refl before.numeric_replacements;
        dynamic_markers = Extends-refl before.dynamic_markers;
        dynamic_sites = Extends-refl before.dynamic_sites;
      }),
      record {
        index = length before.parameters;
        at_index =
            rw (sym same_parameters)
              (get_elem?-append_length before.parameters [] (parameter_of parameter));
        reads = sym (ap (λ p. p.0) same);
      },
    )

pub parameter_text-Numbers :
    (parameter : SqlParameter) (before : SqlTemplateContext) (text : String)
    (after : SqlTemplateContext)
    → parameter_text parameter before ≡ done (text, after)
    → Later before after × Numbers after.parameters parameter text
unfolding parameter_text
parameter_text-Numbers parameter before text after h =
    numbered-Numbers parameter (position before.parameters parameter.path) before text after refl h

pub parameter_text-Grows : (parameter : SqlParameter) → Grows (parameter_text parameter)
parameter_text-Grows parameter = record {
  extends = λ before text after h. (parameter_text-Numbers parameter before text after h).0;
}
