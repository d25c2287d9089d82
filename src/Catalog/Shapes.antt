-- ===== src/Catalog/Shapes.antt =====
-- crates/dsql-core/src/catalog/types.rs, `value_shape_for_type` and `enum_type_for_type`: the loops
-- over domains and arrays, on fuel. The outer `none` of a result means that the fuel ran out.
pub mod Enough
use dsql.Prelude.{ℕ, zero, suc, Option, none, some, List, get_elem?}
use dsql.Catalog.Types.{
  TypeId, CatalogType, CatalogTypeShape, CatalogEnum, CatalogValueShape, Catalog,
}

-- The next type of a loop; a position that holds no type ends it without a result.
abbrev pub then_type {ℓ} :
    {A : Type ℓ} → (CatalogType → Option (Option A)) → Option CatalogType → Option (Option A)
then_type next none = some none
then_type next (some t) = next t

abbrev pub follow {ℓ} :
    {A : Type ℓ} → Catalog → TypeId → (CatalogType → Option (Option A)) → Option (Option A)
follow self id next = then_type next (get_elem? self.types id)

abbrev pub Shape : Type 0
Shape = Option (Option CatalogValueShape)

-- One round of the inner loop, over the element of an array; `shown` is the public element.
abbrev pub element_step :
    Catalog → CatalogType → (CatalogType → CatalogType → Shape) → CatalogTypeShape → Shape
element_step self shown again CatalogTypeShape.scalar =
    some (some (CatalogValueShape.database_array shown))
element_step self shown again CatalogTypeShape.enum =
    some (some (CatalogValueShape.database_array shown))
element_step self shown again (CatalogTypeShape.domain base) =
    follow self base (λ next. again next shown)
element_step self shown again (CatalogTypeShape.array nested) =
    follow self nested (λ next. again next next)

unfoldable pub element_shape : ℕ → Catalog → CatalogType → CatalogType → Shape
element_shape zero self element shown = none
element_shape (suc fuel) self element shown =
    element_step self shown (λ next public. element_shape fuel self next public) element.shape

-- One round of the outer loop; `declared` is the type that was asked for.
abbrev pub shape_step :
    Catalog → CatalogType → (CatalogType → Shape) → (CatalogType → Shape) → CatalogTypeShape → Shape
shape_step self declared again inner CatalogTypeShape.scalar =
    some (some (CatalogValueShape.scalar declared))
shape_step self declared again inner CatalogTypeShape.enum =
    some (some (CatalogValueShape.scalar declared))
shape_step self declared again inner (CatalogTypeShape.domain base) = follow self base again
shape_step self declared again inner (CatalogTypeShape.array element) = follow self element inner

unfoldable pub shape_from : ℕ → Catalog → CatalogType → CatalogType → Shape
shape_from zero self declared current = none
shape_from (suc fuel) self declared current =
    shape_step self declared (λ next. shape_from fuel self declared next)
      (λ element. element_shape fuel self element element) current.shape

unfoldable pub value_shape_for_type : ℕ → Catalog → TypeId → Shape
unfolding shape_from
value_shape_for_type fuel self id =
    follow self id (λ declared. shape_from fuel self declared declared)

abbrev with_enum : CatalogType → Option CatalogEnum → Option (CatalogType × CatalogEnum)
with_enum t none = none
with_enum t (some e) = some (t, e)

abbrev pub enum_step :
    Catalog
    → CatalogType
    → (CatalogType → Option (Option (CatalogType × CatalogEnum)))
    → CatalogTypeShape
    → Option (Option (CatalogType × CatalogEnum))
enum_step self data_type again CatalogTypeShape.scalar = some none
enum_step self data_type again (CatalogTypeShape.array _) = some none
enum_step self data_type again CatalogTypeShape.enum =
    some (with_enum data_type data_type.enumeration)
enum_step self data_type again (CatalogTypeShape.domain base) = follow self base again

unfoldable pub enum_from : ℕ → Catalog → CatalogType → Option (Option (CatalogType × CatalogEnum))
enum_from zero self data_type = none
enum_from (suc fuel) self data_type =
    enum_step self data_type (λ next. enum_from fuel self next) data_type.shape

unfoldable pub enum_type_for_type :
    ℕ → Catalog → TypeId → Option (Option (CatalogType × CatalogEnum))
unfolding enum_from
enum_type_for_type fuel self id = follow self id (λ t. enum_from fuel self t)
