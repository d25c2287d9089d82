-- ===== src/Plan/Context.antt =====
-- crates/dsql-core/src/plan/build.rs: requirements of trusted context, gathered without repetition.
use dsql.Prelude.{
  String, Bool, true, false, ◌&&◌, Option, none, some, List, [], ◌∷◌, ◌++◌, contains, if◌then◌else◌,
  ◌≡◌, ◌↔◌, refl, ap, ◌==◌, Eq, string_eq, option_beq, arith, and_iff,
}
use dsql.Catalog.Enums.{data_type_eq}
use dsql.Catalog.Types.{TypeKey}
use dsql.Metadata.Wire.{wire_eq}
use dsql.Plan.Filter.{
  PolicyContextRequirement, FilterExpr, FilterCollection, Filters, OptionalFilter, FieldFilters,
  absent, optional, literal, dynamic_predicate, binary, negation, null_test, membership,
  variant_binary, exists, relation_aggregate, items, bound, none_left, next, no_filter, only,
  field_filter, no_fields, field,
}

abbrev pub type_key_same : TypeKey → TypeKey → Bool
type_key_same a b = a.schema == b.schema && a.name == b.name

pub type_key_same_iff : (a b : TypeKey) → (type_key_same a b ≡ true) ↔ (a ≡ b)
type_key_same_iff a b = (
  λ h. ground (arith, string_eq.beq_iff a.schema b.schema, string_eq.beq_iff a.name b.name),
  λ h. ground (arith, string_eq.beq_iff a.schema b.schema, string_eq.beq_iff a.name b.name),
)

instance abbrev pub type_key_eq : Eq TypeKey
type_key_eq = record { beq = type_key_same; beq_iff = type_key_same_iff }

pub option_same_iff : (a b : Option TypeKey) → (option_beq (λ x y. x == y) a b ≡ true) ↔ (a ≡ b)
option_same_iff none none = (λ h. refl, λ h. refl)
option_same_iff none (some b) = (λ h. cc, λ h. cc)
option_same_iff (some a) none = (λ h. cc, λ h. cc)
option_same_iff (some a) (some b) =
    (λ h. ap some ((type_key_eq.beq_iff a b).0 h), λ h. (type_key_eq.beq_iff a b).1 (cc h))

instance abbrev pub provider_type_eq : Eq (Option TypeKey)
provider_type_eq = record { beq = option_beq (λ x y. x == y); beq_iff = option_same_iff }

abbrev pub bool_same : Bool → Bool → Bool
bool_same true b = b
bool_same false true = false
bool_same false false = true

-- Derived equality.
abbrev pub requirement_same : PolicyContextRequirement → PolicyContextRequirement → Bool
requirement_same a b =
    a.path == b.path
    && (a.data_type == b.data_type
        && (a.wire == b.wire
            && (a.provider_type == b.provider_type && bool_same a.collection b.collection)))

bool_same_iff : (a b : Bool) → (bool_same a b ≡ true) ↔ (a ≡ b)
bool_same_iff true b = (λ h. cc, λ h. cc)
bool_same_iff false true = (λ h. cc, λ h. cc)
bool_same_iff false false = (λ h. refl, λ h. refl)

requirement_from_fields :
    (a b : PolicyContextRequirement)
    → a.path ≡ b.path
    → a.data_type ≡ b.data_type
    → a.wire ≡ b.wire
    → a.provider_type ≡ b.provider_type
    → a.collection ≡ b.collection
    → a ≡ b
requirement_from_fields a b p d w t c =
    λ i. record { path = p i; data_type = d i; wire = w i; provider_type = t i; collection = c i }

pub requirement_same_iff :
    (a b : PolicyContextRequirement) → (requirement_same a b ≡ true) ↔ (a ≡ b)
requirement_same_iff a b = (λ h. parts ((and_iff _ _).0 h), λ h. rw h (requirement_same_self b))
  where
    requirement_same_self : (r : PolicyContextRequirement) → requirement_same r r ≡ true
    requirement_same_self r =
        rw
          (
            (string_eq.beq_iff r.path r.path).1 refl,
            (data_type_eq.beq_iff r.data_type r.data_type).1 refl,
            (wire_eq.beq_iff r.wire r.wire).1 refl,
            (provider_type_eq.beq_iff r.provider_type r.provider_type).1 refl,
          )
          ((bool_same_iff r.collection r.collection).1 refl)

    parts :
        ((a.path == b.path) ≡ true)
          × ((a.data_type == b.data_type
                && (a.wire == b.wire
                    && (a.provider_type == b.provider_type && bool_same a.collection b.collection)))
              ≡ true)
        → a ≡ b
    parts (p, rest) =
        let (d, rest) = (and_iff _ _).0 rest in
        let (w, rest) = (and_iff _ _).0 rest in
        let (t, c) = (and_iff _ _).0 rest in
        requirement_from_fields a b ((string_eq.beq_iff _ _).0 p) ((data_type_eq.beq_iff _ _).0 d)
          ((wire_eq.beq_iff _ _).0 w) ((provider_type_eq.beq_iff _ _).0 t) ((bool_same_iff _ _).0 c)

instance abbrev pub requirement_eq : Eq PolicyContextRequirement
requirement_eq = record { beq = requirement_same; beq_iff = requirement_same_iff }

unfoldable pub extend_unique_context :
    List PolicyContextRequirement → List PolicyContextRequirement → List PolicyContextRequirement
extend_unique_context context [] = context
extend_unique_context context (requirement ∷ requirements) =
    extend_unique_context
      (if contains context requirement then context else context ++ requirement ∷ []) requirements

-- The set of paths as a list: it is only asked what it contains.
unfoldable mutual
  pub filter_parameter_paths : FilterExpr → List String
  filter_parameter_paths absent = []
  filter_parameter_paths (optional parameter operand) =
      parameter.path ∷ filter_parameter_paths operand
  filter_parameter_paths (FilterExpr.column _ _) = []
  filter_parameter_paths (literal _) = []
  filter_parameter_paths (FilterExpr.parameter parameter) = parameter.path ∷ []
  filter_parameter_paths (dynamic_predicate _ _ _) = []
  filter_parameter_paths (binary left _ right) =
      filter_parameter_paths left ++ filter_parameter_paths right
  filter_parameter_paths (negation operand) = filter_parameter_paths operand
  filter_parameter_paths (null_test operand _) = filter_parameter_paths operand
  filter_parameter_paths (membership operand collection _) =
      filter_parameter_paths operand ++ collection_paths collection
  filter_parameter_paths (variant_binary left _ _ right) =
      filter_parameter_paths left ++ filter_parameter_paths right
  filter_parameter_paths (exists _ _ _ _ policy_filter field_filters filter) =
      optional_paths policy_filter ++ (optional_paths filter ++ field_paths field_filters)
  filter_parameter_paths (relation_aggregate _ _ _ _ policy_filter field_filters) =
      optional_paths policy_filter ++ field_paths field_filters

  pub collection_paths : FilterCollection → List String
  collection_paths (items filters) = item_paths filters
  collection_paths (bound parameter) = parameter.path ∷ []

  pub item_paths : Filters → List String
  item_paths none_left = []
  item_paths (next filter filters) = filter_parameter_paths filter ++ item_paths filters

  pub optional_paths : OptionalFilter → List String
  optional_paths no_filter = []
  optional_paths (only filter) = filter_parameter_paths filter

  pub field_paths : FieldFilters → List String
  field_paths no_fields = []
  field_paths (field (field_filter _ filter _) fields) =
      filter_parameter_paths filter ++ field_paths fields
