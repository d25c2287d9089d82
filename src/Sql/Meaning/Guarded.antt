-- ===== src/Sql/Meaning/Guarded.antt =====
-- Conditions that a guard can make absent, and their connectives, in the three-valued logic of SQL: what
-- `combine_conditional` of crates/dsql-core/src/sql/postgres.rs is compared with.
use dsql.Prelude.{Bool, true, false, Option, none, some, ◌≡◌, refl, if◌then◌else◌}
use dsql.Plan.Truth.{
  Truth, both, either, negate, of_bool, both-holds, both-fails, either-holds, either-fails,
}
use dsql.Sql.Meaning.{joined, negated_meaning, or_holds}

-- Whether a guard is true or false, never unknown.
abbrev pub sure : Option Truth → Bool
sure none = true
sure (some Truth.holds) = true
sure (some Truth.fails) = true
sure (some Truth.unknown) = false

-- What a value with a guard stands for.
abbrev pub guarded : Option Truth → Truth → Option Truth
guarded none v = some v
guarded (some Truth.holds) v = some v
guarded (some Truth.fails) v = none
guarded (some Truth.unknown) v = none

abbrev pub or_guards : Option Truth → Option Truth → Option Truth
or_guards (some p) (some q) = some (either p q)
or_guards _ none = none
or_guards none _ = none

abbrev pub unless_absent : Truth → Option Truth → Truth
unless_absent v none = v
unless_absent v (some p) = either v (negate p)

abbrev pub if_present : Truth → Option Truth → Truth
if_present v none = v
if_present v (some p) = both v p

pub sure-or_guards :
    (p q : Option Truth) → sure p ≡ true → sure q ≡ true → sure (or_guards p q) ≡ true
sure-or_guards none none h k = refl
sure-or_guards none (some Truth.holds) h k = refl
sure-or_guards none (some Truth.fails) h k = refl
sure-or_guards none (some Truth.unknown) h k = absurd cc
sure-or_guards (some Truth.holds) none h k = refl
sure-or_guards (some Truth.holds) (some Truth.holds) h k = refl
sure-or_guards (some Truth.holds) (some Truth.fails) h k = refl
sure-or_guards (some Truth.holds) (some Truth.unknown) h k = absurd cc
sure-or_guards (some Truth.fails) none h k = refl
sure-or_guards (some Truth.fails) (some Truth.holds) h k = refl
sure-or_guards (some Truth.fails) (some Truth.fails) h k = refl
sure-or_guards (some Truth.fails) (some Truth.unknown) h k = absurd cc
sure-or_guards (some Truth.unknown) none h k = absurd cc
sure-or_guards (some Truth.unknown) (some Truth.holds) h k = absurd cc
sure-or_guards (some Truth.unknown) (some Truth.fails) h k = absurd cc
sure-or_guards (some Truth.unknown) (some Truth.unknown) h k = absurd cc

pub conjunction_guarded :
    (p : Option Truth) (v : Truth) (q : Option Truth) (w : Truth)
    → sure p ≡ true
    → sure q ≡ true
    → guarded (or_guards p q) (both (unless_absent v p) (unless_absent w q))
      ≡ joined both (guarded p v) (guarded q w)
conjunction_guarded none v none w h k = refl
conjunction_guarded none v (some Truth.holds) w h k = rw (either-fails w) (refl)
conjunction_guarded none v (some Truth.fails) w h k = rw (either-holds w) (rw (both-holds v) (refl))
conjunction_guarded none v (some Truth.unknown) w h k = absurd cc
conjunction_guarded (some Truth.holds) v none w h k = rw (either-fails v) (refl)
conjunction_guarded (some Truth.holds) v (some Truth.holds) w h k =
    rw (either-fails w) (rw (either-fails v) (refl))
conjunction_guarded (some Truth.holds) v (some Truth.fails) w h k =
    rw (either-fails v) (rw (either-holds w) (rw (both-holds v) (refl)))
conjunction_guarded (some Truth.holds) v (some Truth.unknown) w h k = absurd cc
conjunction_guarded (some Truth.fails) v none w h k = rw (either-holds v) (refl)
conjunction_guarded (some Truth.fails) v (some Truth.holds) w h k =
    rw (either-fails w) (rw (either-holds v) (refl))
conjunction_guarded (some Truth.fails) v (some Truth.fails) w h k = refl
conjunction_guarded (some Truth.fails) v (some Truth.unknown) w h k = absurd cc
conjunction_guarded (some Truth.unknown) v none w h k = absurd cc
conjunction_guarded (some Truth.unknown) v (some Truth.holds) w h k = absurd cc
conjunction_guarded (some Truth.unknown) v (some Truth.fails) w h k = absurd cc
conjunction_guarded (some Truth.unknown) v (some Truth.unknown) w h k = absurd cc

pub disjunction_guarded :
    (p : Option Truth) (v : Truth) (q : Option Truth) (w : Truth)
    → sure p ≡ true
    → sure q ≡ true
    → guarded (or_guards p q) (either (if_present v p) (if_present w q))
      ≡ joined either (guarded p v) (guarded q w)
disjunction_guarded none v none w h k = refl
disjunction_guarded none v (some Truth.holds) w h k = rw (both-holds w) (refl)
disjunction_guarded none v (some Truth.fails) w h k = rw (both-fails w) (rw (either-fails v) (refl))
disjunction_guarded none v (some Truth.unknown) w h k = absurd cc
disjunction_guarded (some Truth.holds) v none w h k = rw (both-holds v) (refl)
disjunction_guarded (some Truth.holds) v (some Truth.holds) w h k =
    rw (both-holds w) (rw (both-holds v) (refl))
disjunction_guarded (some Truth.holds) v (some Truth.fails) w h k =
    rw (both-holds v) (rw (both-fails w) (rw (either-fails v) (refl)))
disjunction_guarded (some Truth.holds) v (some Truth.unknown) w h k = absurd cc
disjunction_guarded (some Truth.fails) v none w h k = rw (both-fails v) (refl)
disjunction_guarded (some Truth.fails) v (some Truth.holds) w h k =
    rw (both-holds w) (rw (both-fails v) (refl))
disjunction_guarded (some Truth.fails) v (some Truth.fails) w h k = refl
disjunction_guarded (some Truth.fails) v (some Truth.unknown) w h k = absurd cc
disjunction_guarded (some Truth.unknown) v none w h k = absurd cc
disjunction_guarded (some Truth.unknown) v (some Truth.holds) w h k = absurd cc
disjunction_guarded (some Truth.unknown) v (some Truth.fails) w h k = absurd cc
disjunction_guarded (some Truth.unknown) v (some Truth.unknown) w h k = absurd cc

pub unless_absent-guarded :
    (v : Truth) (p : Option Truth) → sure p ≡ true → unless_absent v p ≡ or_holds (guarded p v)
unless_absent-guarded v none h = refl
unless_absent-guarded v (some Truth.holds) h = either-fails v
unless_absent-guarded v (some Truth.fails) h = either-holds v
unless_absent-guarded v (some Truth.unknown) h = absurd cc

pub guarded-negate :
    (p : Option Truth) (v : Truth) → guarded p (negate v) ≡ negated_meaning (guarded p v)
guarded-negate none v = refl
guarded-negate (some Truth.holds) v = refl
guarded-negate (some Truth.fails) v = refl
guarded-negate (some Truth.unknown) v = refl

abbrev pub both_guards : Truth → Option Truth → Truth
both_guards g none = g
both_guards g (some p) = both g p

pub of_bool_guards :
    (p : Option Truth) (v : Truth) (flag : Bool)
    → sure p ≡ true
    → (sure (some (both_guards (of_bool flag) p)) ≡ true)
      × (guarded (some (both_guards (of_bool flag) p)) v ≡ (if flag then guarded p v else none))
of_bool_guards none v true h = (refl, refl)
of_bool_guards none v false h = (refl, refl)
of_bool_guards (some p) v true h = (h, refl)
of_bool_guards (some p) v false h = (refl, refl)

abbrev pub connective : Bool → Truth → Truth → Truth
connective true = both
connective false = either
