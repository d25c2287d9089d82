-- ===== src/Sql/Paging/Limit.antt =====
-- crates/dsql-core/src/sql/postgres.rs, `effective_limit` and `apply_order_limit_offset`: how many rows a
-- query gives under a limit on collections.
use dsql.Prelude.{
  ℕ, ◌≤◌, ◌++◌, String, Option, none, some, [], ◌∷◌, In, In-append_right, inl, inr, ◌⊎◌, Bool-cases,
  if◌then◌else◌, leb, decimal, format, ◌≡◌, refl, sym, ap, ◌∙◌, arith,
}
use dsql.Catalog.Types.{Catalog}
use dsql.Plan.Filter.{SqlParameter, SqlValue}
use dsql.Sql.Builder.{Builder}
use dsql.Sql.Error.{done}
use dsql.Sql.Template.{SqlTemplateContext, parameter_text, numeric_sentinel, checked_next}
use dsql.Sql.Template.Grows.{
  continue-eq-done, done-injective, Numbers, Numbers-Later, parameter_text-Numbers,
  numeric_sentinel-Grows,
}
use dsql.Sql.Paging.{
  SelectionClauses, lower_limit, effective_limit, sql_value_u64, guarded_text,
  guarded_numeric_parameter_sentinel, apply_limit,
}

-- A number that the final SQL replaces by a parameter cut off at a guard.
pub record IsGuarded (parameter : SqlParameter) (guard n : ℕ) (after : SqlTemplateContext)
    : Type 0 where
  pub placeholder : String
  pub numbers : Numbers after.parameters parameter placeholder
  pub replaced :
      In
        (
          decimal n,
          format (
              "LEAST(COALESCE("
              ∷ placeholder
              ∷ ", "
              ∷ decimal guard
              ∷ "), "
              ∷ decimal guard
              ∷ ")"
              ∷ []),
        )
        after.numeric_replacements

-- The number that a limit clause comes to under a guard: the guard without a clause, the smaller of
-- the two for a literal, and for a parameter the number that stands for that parameter, cut off.
abbrev pub LimitedTo : Option SqlValue → ℕ → ℕ → SqlTemplateContext → Type 0
LimitedTo none guard n after = n ≡ guard
LimitedTo (some (SqlValue.literal value)) guard n after =
    (n ≤ guard) × (n ≤ value) × ((n ≡ guard) ⊎ (n ≡ value))
LimitedTo (some (SqlValue.parameter parameter)) guard n after = IsGuarded parameter guard n after

numeric_sentinel-In :
    (text : String) (before : SqlTemplateContext) (n : ℕ) (after : SqlTemplateContext)
    → numeric_sentinel text before ≡ done (n, after)
    → In (decimal n, text) after.numeric_replacements
unfolding numeric_sentinel
numeric_sentinel-In text before n after h =
    let (next, middle, first, rest) =
      continue-eq-done _ (checked_next before.next_sentinel before) h in
    let same = done-injective rest in
    let same_number : before.next_sentinel ≡ n = ap (λ p. p.0) same in
    let same_after : middle.numeric_replacements ++ (decimal before.next_sentinel, text) ∷ []
        ≡ after.numeric_replacements =
      ap (λ p. p.1.numeric_replacements) same in
    rw (sym same_after, sym same_number)
      (In-append_right middle.numeric_replacements ((decimal before.next_sentinel, text) ∷ []) _
        (inl refl))

guarded_numeric_parameter_sentinel-IsGuarded :
    (parameter : SqlParameter) (guard : ℕ) (before : SqlTemplateContext) (n : ℕ)
    (after : SqlTemplateContext)
    → guarded_numeric_parameter_sentinel parameter guard before ≡ done (n, after)
    → IsGuarded parameter guard n after
unfolding guarded_numeric_parameter_sentinel
guarded_numeric_parameter_sentinel-IsGuarded parameter guard before n after h =
    let (placeholder, middle, first, rest) =
      continue-eq-done _ (parameter_text parameter before) h in
    record {
      placeholder = placeholder;
      numbers =
          Numbers-Later
            ((numeric_sentinel-Grows (guarded_text placeholder guard)).extends middle n after rest)
            (parameter_text-Numbers parameter before placeholder middle first).1;
      replaced = numeric_sentinel-In (guarded_text placeholder guard) middle n after rest;
    }

minimum_of :
    (n guard : ℕ)
    → let least : ℕ = if leb n guard then n else guard in
      (least ≤ guard) × (least ≤ n) × ((least ≡ guard) ⊎ (least ≡ n))
minimum_of n guard = elim (Bool-cases (leb n guard)) [
  | inl e ↦ rw e (ground (arith, e), omega arith, inr refl)
  | inr e ↦ rw e (omega arith, ground (arith, e), inl refl)
]

module _ (b : Builder) (catalog : Catalog) where
  open b use {Select, limit}

  limit_of_value :
      (value : Option SqlValue) (guard : ℕ) (query limited : Select)
      (before after : SqlTemplateContext)
      → apply_limit b catalog value (lower_limit (sql_value_u64 value) (some guard)) query before
        ≡ done (limited, after)
      → (n : ℕ) × (limited ≡ limit n query) × LimitedTo value guard n after
  unfolding sql_value_u64
  limit_of_value none guard query limited before after h =
      (guard, sym (ap (λ p. p.0) (done-injective h)), refl)
  limit_of_value (some (SqlValue.literal value)) guard query limited before after h =
      (_, sym (ap (λ p. p.0) (done-injective h)), minimum_of value guard)
  limit_of_value (some (SqlValue.parameter parameter)) guard query limited before after h =
      let (n, middle, first, rest) =
        continue-eq-done _ (guarded_numeric_parameter_sentinel parameter guard before) h in
      let same = done-injective rest in
      let same_end : middle ≡ after = ap (λ p. p.1) same in
      (
        n,
        sym (ap (λ p. p.0) same),
        guarded_numeric_parameter_sentinel-IsGuarded parameter guard before n after
            (first ∙ ap (λ t. done (n, t)) same_end),
      )

  -- Under a limit on collections, a query gets a limit: the limit on collections where the selection
  -- has none, the smaller of the two where it has a literal, and where it has a parameter a sentinel
  -- that the final SQL replaces by the least of that parameter's placeholder and the limit on
  -- collections, which also stands in for a null.
  pub apply_limit_bound :
      (clauses : SelectionClauses) (guard : ℕ) (query limited : Select)
      (before after : SqlTemplateContext)
      → apply_limit b catalog clauses.limit
          (effective_limit clauses (record { collection_limit = some guard }))
          query
          before
        ≡ done (limited, after)
      → (n : ℕ) × (limited ≡ limit n query) × LimitedTo clauses.limit guard n after
  unfolding effective_limit
  apply_limit_bound clauses guard query limited before after h =
      limit_of_value clauses.limit guard query limited before after h
