-- ===== src/Catalog/Capabilities/Narrow.antt =====
-- crates/dsql-core/src/catalog/capabilities.rs: a domain only narrows its base.
use dsql.Prelude.{
  String, Bool, ◌&&◌, any, ap, ◌∙◌, filter_map, if◌then◌else◌, string_eq, Option, none, some, List,
  [], ◌∷◌, keep, contains, ◌≡◌, refl, arith, ◌==◌, Bool-cases, inl, inr,
}
use dsql.Catalog.Enums.{ComparisonOp, comparison_eq}
use dsql.Catalog.Capabilities.{
  TypeCapabilities, ProviderTypeFacts, supports, domain_capabilities, apply_provider_comparisons,
  provider_operators,
}

pub contains-keep :
    (xs : List ComparisonOp) (p : ComparisonOp → Bool) (a : ComparisonOp)
    → contains (keep xs p) a ≡ (contains xs a && p a)
contains-keep [] p a = refl
contains-keep (x ∷ xs) p a = elim (Bool-cases (x == a)) [
  | inr e ↦ ground (arith, contains-keep xs p a)
  | inl e ↦
      let same : x ≡ a = (comparison_eq.beq_iff x a).0 e in
      rw same (at_head xs p a (contains-keep xs p a))
]
  where
    at_head :
        (xs : List ComparisonOp) (p : ComparisonOp → Bool) (a : ComparisonOp)
        → contains (keep xs p) a ≡ (contains xs a && p a)
        → contains (keep (a ∷ xs) p) a ≡ (contains (a ∷ xs) a && p a)
    at_head xs p a h = ground (arith, h, (comparison_eq.beq_iff a a).1 refl)

-- How PostgreSQL writes a comparison.
abbrev pub written : ComparisonOp → String
written ComparisonOp.eq = "="
written ComparisonOp.ne = "<>"
written ComparisonOp.gt = ">"
written ComparisonOp.ge = ">="
written ComparisonOp.lt = "<"
written ComparisonOp.le = "<="
written ComparisonOp.like = "~~"

abbrev offer : List String → String × ComparisonOp → Option ComparisonOp
offer operations (text, operator) = if contains operations text then some operator else none

contains-filter_map :
    (operations : List String) (table : List (String × ComparisonOp)) (operator : ComparisonOp)
    → contains (filter_map (offer operations) table) operator
      ≡ any table (λ (text, o). contains operations text && (o == operator))
contains-filter_map operations [] operator = refl
contains-filter_map operations ((text, o) ∷ table) operator =
    elim (Bool-cases (contains operations text)) [
      | inl e ↦ rw e (ground (arith, contains-filter_map operations table operator))
      | inr e ↦ rw e (ground (arith, contains-filter_map operations table operator))
    ]

apply_provider_comparisons-supports :
    (base : TypeCapabilities) (facts : ProviderTypeFacts) (operations : List String)
    (operator : ComparisonOp)
    → contains (apply_provider_comparisons base facts operations).operators operator
      ≡ contains operations (written operator)
unfolding apply_provider_comparisons
apply_provider_comparisons-supports base facts operations operator =
    contains-filter_map operations provider_operators operator ∙ listed operator
  where
    listed :
        (operator : ComparisonOp)
        → any provider_operators (λ (text, o). contains operations text && (o == operator))
          ≡ contains operations (written operator)
    listed ComparisonOp.eq = ground arith
    listed ComparisonOp.ne = ground arith
    listed ComparisonOp.gt = ground arith
    listed ComparisonOp.ge = ground arith
    listed ComparisonOp.lt = ground arith
    listed ComparisonOp.le = ground arith
    listed ComparisonOp.like = ground arith

-- A domain whose provider facts are known supports a comparison exactly where the operations of the
-- provider contain it as PostgreSQL writes it and the base of the domain supports it. It is orderable
-- exactly where the provider and the base are, and its literals, its defaults, its wire encoding and
-- its aggregates are those of the base.
pub domain_capabilities-supports :
    (base : TypeCapabilities) (readable : String) (facts : ProviderTypeFacts)
    (operations : List String) (operator : ComparisonOp)
    → let domain = domain_capabilities base readable (some facts) operations in
      (supports domain operator
        ≡ (contains operations (written operator) && supports base operator))
      × (domain.orderable ≡ (facts.orderable && base.orderable))
      × (domain.literals ≡ base.literals)
      × (domain.defaults ≡ base.defaults)
      × (domain.wire ≡ base.wire)
      × (domain.aggregates ≡ base.aggregates)
unfolding domain_capabilities supports apply_provider_comparisons
domain_capabilities-supports base readable facts operations operator =
    let described : TypeCapabilities = record base { description = readable } in
    (
      contains-keep (apply_provider_comparisons described facts operations).operators
            (λ o. contains base.operators o) operator
          ∙ ap (λ offered. offered && contains base.operators operator)
              (apply_provider_comparisons-supports described facts operations operator),
      refl,
      refl,
      refl,
      refl,
      refl,
    )
