-- ===== src/Plan/Truth.antt =====
-- The logic of SQL conditions, with three truth values: what a plan and its SQL are compared by.
use dsql.Prelude.{Bool, true, false, ◌≡◌, ◌↔◌, refl}

pub data Truth : Type 0 where
  holds fails unknown : Truth

abbrev pub of_bool : Bool → Truth
of_bool true = Truth.holds
of_bool false = Truth.fails

abbrev pub negate : Truth → Truth
negate Truth.holds = Truth.fails
negate Truth.fails = Truth.holds
negate Truth.unknown = Truth.unknown

abbrev pub both : Truth → Truth → Truth
both Truth.fails b = Truth.fails
both Truth.holds b = b
both Truth.unknown Truth.fails = Truth.fails
both Truth.unknown Truth.holds = Truth.unknown
both Truth.unknown Truth.unknown = Truth.unknown

abbrev pub either : Truth → Truth → Truth
either Truth.holds b = Truth.holds
either Truth.fails b = b
either Truth.unknown Truth.holds = Truth.holds
either Truth.unknown Truth.fails = Truth.unknown
either Truth.unknown Truth.unknown = Truth.unknown

module _ where
  pub both-fails : (a : Truth) → both a Truth.fails ≡ Truth.fails
  both-fails Truth.holds = refl
  both-fails Truth.fails = refl
  both-fails Truth.unknown = refl

  pub both-holds : (a : Truth) → both a Truth.holds ≡ a
  both-holds Truth.holds = refl
  both-holds Truth.fails = refl
  both-holds Truth.unknown = refl

  pub either-holds : (a : Truth) → either a Truth.holds ≡ Truth.holds
  either-holds Truth.holds = refl
  either-holds Truth.fails = refl
  either-holds Truth.unknown = refl

  pub either-fails : (a : Truth) → either a Truth.fails ≡ a
  either-fails Truth.holds = refl
  either-fails Truth.fails = refl
  either-fails Truth.unknown = refl

  pub negate-negate : (a : Truth) → negate (negate a) ≡ a
  negate-negate Truth.holds = refl
  negate-negate Truth.fails = refl
  negate-negate Truth.unknown = refl

  -- A row passes a conjunction exactly when it passes both parts.
  pub both-eq-holds :
      (a b : Truth) → (both a b ≡ Truth.holds) ↔ ((a ≡ Truth.holds) × (b ≡ Truth.holds))
  both-eq-holds Truth.holds b = (λ h. (refl, h), λ h. h.1)
  both-eq-holds Truth.fails b = (λ h. cc, λ h. h.0)
  both-eq-holds Truth.unknown Truth.holds = (λ h. cc, λ h. h.0)
  both-eq-holds Truth.unknown Truth.fails = (λ h. cc, λ h. h.1)
  both-eq-holds Truth.unknown Truth.unknown = (λ h. cc, λ h. h.0)
