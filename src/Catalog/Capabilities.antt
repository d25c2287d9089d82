-- ===== src/Catalog/Capabilities.antt =====
-- crates/dsql-core/src/catalog/capabilities.rs: the semantics of the built-in logical types, and how
-- provider types, domains, arrays and authored mappings change them. Doubles and regular expressions
-- are a parameter.
pub mod Table
pub mod Narrow
use dsql.Prelude.{
  ℕ, String, Bool, true, false, not, ◌&&◌, ◌||◌, Option, none, some, List, [], ◌∷◌, map, keep, find,
  any, filter_map, contains, if◌then◌else◌, ◌==◌, string_eq, format,
}
use dsql.Prelude.Int.{ℤ, pos, negsuc, parse_i64}
use dsql.Metadata.Wire.{WireEncoding}
use dsql.Execute.Scalars.{is_safe_integer, is_some, is_some_and}
use dsql.Catalog.Enums.{
  DataType, LiteralKind, literal_kind_eq, literal_text, ComparisonOp, comparison_eq,
  AggregateFunction, data_type_eq,
}

pub data ScalarValidation : Type 0 where
  any_value integer safe_integer finite_float : ScalarValidation

pub record ScalarAcceptance : Type 0 where
  pub kinds : List LiteralKind
  pub validation : ScalarValidation
  pub description : String
  pub pattern : Option String

-- `f64` parsing with `is_finite`, and the shared pattern cache.
pub record Parsers : Type 0 where
  pub is_finite_float : String → Bool
  pub pattern_matches : String → String → Bool

module _ (parsers : Parsers) where
  open parsers use {is_finite_float, pattern_matches}

  unfoldable pub validates : ScalarValidation → String → Bool
  unfolding is_safe_integer
  validates ScalarValidation.any_value value = true
  validates ScalarValidation.integer value = is_some (parse_i64 value)
  validates ScalarValidation.safe_integer value = is_some_and (parse_i64 value) is_safe_integer
  validates ScalarValidation.finite_float value = is_finite_float value

  unfoldable pub accepts : ScalarAcceptance → LiteralKind → String → Bool
  unfolding validates
  accepts self kind value =
      contains self.kinds kind
      && (validates self.validation value
          && elim self.pattern [ none ↦ true | some pattern ↦ pattern_matches pattern value ])

unfoldable pub narrow : ScalarAcceptance → String → LiteralKind → Option String → ScalarAcceptance
narrow self name kind pattern = record self {
  kinds = kind ∷ [];
  description = elim pattern [
    | none ↦ format (name ∷ " " ∷ literal_text kind ∷ [])
    | some p ↦ format (name ∷ " " ∷ literal_text kind ∷ " matching pattern `" ∷ p ∷ "`" ∷ [])
  ];
  pattern = pattern;
}

pub record AggregateCapabilities : Type 0 where
  pub minimum : Bool
  pub maximum : Bool
  pub sum : Option DataType
  pub average : Option DataType

unfoldable pub result : AggregateCapabilities → AggregateFunction → DataType → Option DataType
result self AggregateFunction.min operand = if self.minimum then some operand else none
result self AggregateFunction.max operand = if self.maximum then some operand else none
result self AggregateFunction.sum operand = self.sum
result self AggregateFunction.avg operand = self.average
result self AggregateFunction.count operand = none
result self AggregateFunction.exists operand = none

pub record TypeCapabilities : Type 0 where
  pub name : String
  pub aliases : List String
  pub description : String
  pub wire : WireEncoding
  pub operators : List ComparisonOp
  pub orderable : Bool
  pub literals : ScalarAcceptance
  pub defaults : ScalarAcceptance
  pub aggregates : AggregateCapabilities

unfoldable pub supports : TypeCapabilities → ComparisonOp → Bool
supports self operator = contains self.operators operator

unfoldable pub inherit_mapped_domain : TypeCapabilities → TypeCapabilities → TypeCapabilities
inherit_mapped_domain self base = record self {
  name = base.name;
  aliases = base.aliases;
  wire = base.wire;
  literals = base.literals;
  defaults = base.defaults;
  aggregates = base.aggregates;
  operators = keep self.operators (λ operator. contains base.operators operator);
  orderable = self.orderable && base.orderable;
}

abbrev some_or {ℓ} : {A : Type ℓ} → Option A → A → A
some_or none a = a
some_or (some b) a = b

unfoldable pub apply_mapping :
    TypeCapabilities
    → String
    → LiteralKind
    → Option String
    → Option (List ComparisonOp)
    → Option Bool
    → TypeCapabilities
unfolding narrow
apply_mapping self name literal pattern operators orderable = record self {
  name = name;
  aliases = name ∷ [];
  literals = narrow self.literals name literal pattern;
  defaults = narrow self.defaults name literal pattern;
  operators = some_or operators self.operators;
  orderable = elim orderable [
    | none ↦ self.orderable
    | some b ↦ if b then self.orderable else false
  ];
}

-- catalog/metadata.rs: what introspection says of one provider type.
pub record ProviderTypeFacts : Type 0 where
  pub kind : String
  pub category : String
  pub effective_kind : Option String
  pub effective_category : Option String
  pub orderable : Bool

unfoldable pub supports_text_cast : ProviderTypeFacts → Bool
supports_text_cast self =
    let kind = some_or self.effective_kind self.kind in
    let category = some_or self.effective_category self.category in
    (kind == "b" || kind == "e") && not (category == "A")

abbrev pub provider_operators : List (String × ComparisonOp)
provider_operators =
    ("=", ComparisonOp.eq)
    ∷ ("<>", ComparisonOp.ne)
    ∷ (">", ComparisonOp.gt)
    ∷ (">=", ComparisonOp.ge)
    ∷ ("<", ComparisonOp.lt)
    ∷ ("<=", ComparisonOp.le)
    ∷ ("~~", ComparisonOp.like)
    ∷ []

unfoldable pub apply_provider_comparisons :
    TypeCapabilities → ProviderTypeFacts → List String → TypeCapabilities
apply_provider_comparisons self provider operations = record self {
  operators =
      filter_map
        (λ (written, operator). if contains operations written then some operator else none)
        provider_operators;
  orderable = provider.orderable;
}

unfoldable pub domain_capabilities :
    TypeCapabilities → String → Option ProviderTypeFacts → List String → TypeCapabilities
unfolding apply_provider_comparisons
domain_capabilities base readable_type none operations = record base { description = readable_type }
domain_capabilities base readable_type (some provider) operations =
    let compared =
      apply_provider_comparisons (record base { description = readable_type }) provider
        operations in
    record compared {
      operators = keep compared.operators (λ operator. contains base.operators operator);
      orderable = compared.orderable && base.orderable;
    }
