-- ===== src/Catalog/Shapes/Enough.antt =====
-- crates/dsql-core/src/catalog/types.rs: enough fuel for the shape of a type.
use dsql.Prelude.{ℕ, zero, suc, ◌<◌, Option, none, some, get_elem?, ◌≡◌, ◌≢◌, refl, arith}
use dsql.Catalog.Types.{TypeId, CatalogType, CatalogTypeShape, Catalog}
use dsql.Catalog.Shapes.{
  Shape, then_type, element_step, shape_step, element_shape, shape_from, value_shape_for_type,
}

-- The catalog has no cycle of types: the base of a domain and the element of an array rank lower.
pub record IsRanked (self : Catalog) (rank : CatalogType → ℕ) : Type 0 where
  pub base :
      (t next : CatalogType) (id : TypeId)
      → t.shape ≡ CatalogTypeShape.domain id
      → get_elem? self.types id ≡ some next
      → rank next < rank t
  pub element :
      (t next : CatalogType) (id : TypeId)
      → t.shape ≡ CatalogTypeShape.array id
      → get_elem? self.types id ≡ some next
      → rank next < rank t

then_type-ends {ℓ} :
    {A : Type ℓ} (next : CatalogType → Option (Option A)) (o : Option CatalogType)
    → ((t : CatalogType) → o ≡ some t → next t ≢ none)
    → then_type next o ≢ none
then_type-ends next none h = λ p. cc
then_type-ends next (some t) h = h t refl

-- Where a shape leads to.
abbrev Leads : Catalog → CatalogTypeShape → CatalogType → Type 0
Leads self CatalogTypeShape.scalar next = ⊥
Leads self CatalogTypeShape.enum next = ⊥
Leads self (CatalogTypeShape.domain id) next = get_elem? self.types id ≡ some next
Leads self (CatalogTypeShape.array id) next = get_elem? self.types id ≡ some next

element_step-ends :
    (self : Catalog) (shown : CatalogType) (again : CatalogType → CatalogType → Shape)
    (s : CatalogTypeShape)
    → ((next public : CatalogType) → Leads self s next → again next public ≢ none)
    → element_step self shown again s ≢ none
element_step-ends self shown again CatalogTypeShape.scalar h = λ p. cc
element_step-ends self shown again CatalogTypeShape.enum h = λ p. cc
element_step-ends self shown again (CatalogTypeShape.domain id) h =
    then_type-ends _ _ (λ t e. h t shown e)
element_step-ends self shown again (CatalogTypeShape.array id) h =
    then_type-ends _ _ (λ t e. h t t e)

shape_step-ends :
    (self : Catalog) (declared : CatalogType) (again inner : CatalogType → Shape)
    (s : CatalogTypeShape)
    → ((next : CatalogType) → Leads self s next → again next ≢ none)
    → ((next : CatalogType) → Leads self s next → inner next ≢ none)
    → shape_step self declared again inner s ≢ none
shape_step-ends self declared again inner CatalogTypeShape.scalar h k = λ p. cc
shape_step-ends self declared again inner CatalogTypeShape.enum h k = λ p. cc
shape_step-ends self declared again inner (CatalogTypeShape.domain id) h k =
    then_type-ends again _ h
shape_step-ends self declared again inner (CatalogTypeShape.array id) h k = then_type-ends inner _ k

module _ (self : Catalog) (rank : CatalogType → ℕ) (ranked : IsRanked self rank) where
  lower :
      (t next : CatalogType) (s : CatalogTypeShape)
      → t.shape ≡ s
      → Leads self s next
      → rank next < rank t
  lower t next CatalogTypeShape.scalar e l = absurd l
  lower t next CatalogTypeShape.enum e l = absurd l
  lower t next (CatalogTypeShape.domain id) e l = ranked.base t next id e l
  lower t next (CatalogTypeShape.array id) e l = ranked.element t next id e l

  element_shape-ends :
      (fuel : ℕ) (t shown : CatalogType) → rank t < fuel → element_shape fuel self t shown ≢ none
  unfolding element_shape
  element_shape-ends zero t shown h = absurd (omega arith)
  element_shape-ends (suc fuel) t shown h = element_step-ends self shown _ t.shape (λ next public l.
      element_shape-ends fuel next public (omega (arith, lower t next t.shape refl l)))

  shape_from-ends :
      (fuel : ℕ) (declared t : CatalogType) → rank t < fuel → shape_from fuel self declared t ≢ none
  unfolding shape_from
  shape_from-ends zero declared t h = absurd (omega arith)
  shape_from-ends (suc fuel) declared t h =
      shape_step-ends self declared _ _ t.shape
        (λ next l. shape_from-ends fuel declared next (omega (arith, lower t next t.shape refl l)))
        (λ next l. element_shape-ends fuel next next (omega (arith, lower t next t.shape refl l)))

  -- The shape of a type is found, or found not to be there, when the fuel is more than its rank in a
  -- catalog without a cycle of types.
  pub value_shape_for_type-ends :
      (fuel : ℕ) (id : TypeId) (t : CatalogType)
      → get_elem? self.types id ≡ some t
      → rank t < fuel
      → value_shape_for_type fuel self id ≢ none
  unfolding value_shape_for_type
  value_shape_for_type-ends fuel id t there h =
      then_type-ends (λ declared. shape_from fuel self declared declared) (get_elem? self.types id)
        (λ u e. let same : u ≡ t = ground arith in rw same (shape_from-ends fuel t t h))
