-- ===== src/Sql/Meaning/Combine.antt =====
-- crates/dsql-core/src/sql/postgres.rs, `combine_conditional`: what connectives of conditional filters
-- mean.
use dsql.Prelude.{Bool, true, false, Option, none, some, ◌≡◌, refl, ap, sym, if◌then◌else◌}
use dsql.Catalog.Types.{Catalog}
use dsql.Plan.Truth.{Truth, both, either, negate, of_bool}
use dsql.Sql.Builder.{Builder}
use dsql.Sql.View.{
  ConditionalFilter, combine_conditional, value_or_absent, value_if_present, not_expr, combine_and,
  combine_or,
}
use dsql.Sql.Atoms.{or_absent}
use dsql.Sql.Meaning.{Reading, joined, negated_meaning, or_holds}
use dsql.Sql.Meaning.Guarded.{
  sure, guarded, or_guards, unless_absent, if_present, sure-or_guards, conjunction_guarded,
  disjunction_guarded, unless_absent-guarded, guarded-negate, of_bool_guards, connective,
}

module _ (b : Builder) (reading : Reading b) where
  open b use {Expr}

  abbrev pub read : Option Expr → Option Truth
  read none = none
  read (some e) = some (reading.value e)

  -- A conditional filter stands for a meaning: its guard is never unknown, and it is absent where the
  -- guard fails.
  pub record Represents (c : ConditionalFilter Expr) (meaning : Option Truth) : Type 0 where
    pub guard_sure : sure (read c.present) ≡ true
    pub stands_for : guarded (read c.present) (reading.value c.value) ≡ meaning

  value_or_absent_lem :
      (v p : Expr)
      → reading.value (value_or_absent b v p) ≡ either (reading.value v) (negate (reading.value p))
  unfolding value_or_absent not_expr
  value_or_absent_lem v p = rw (reading.value-or v _) (rw (reading.value-not p) refl)

  value_if_present_lem :
      (v p : Expr)
      → reading.value (value_if_present b v p) ≡ both (reading.value v) (reading.value p)
  unfolding value_if_present
  value_if_present_lem v p = reading.value-and v p

  combine_and_lem :
      (v : Expr) (p : Option Expr) (w : Expr) (q : Option Expr)
      → (read (combine_and b v p w q).present ≡ or_guards (read p) (read q))
        × (reading.value (combine_and b v p w q).value
            ≡ both
                (unless_absent (reading.value v) (read p))
                (unless_absent (reading.value w) (read q)))
  combine_and_lem v none w none = (refl, reading.value-and v w)
  combine_and_lem v none w (some q) =
      (refl, rw (reading.value-and v _) (rw (value_or_absent_lem w q) refl))
  combine_and_lem v (some p) w none =
      (refl, rw (reading.value-and _ w) (rw (value_or_absent_lem v p) refl))
  combine_and_lem v (some p) w (some q) = (
    ap some (reading.value-or p q),
    rw (reading.value-and _ _) (rw (value_or_absent_lem v p) (rw (value_or_absent_lem w q) refl)),
  )

  combine_or_lem :
      (v : Expr) (p : Option Expr) (w : Expr) (q : Option Expr)
      → (read (combine_or b v p w q).present ≡ or_guards (read p) (read q))
        × (reading.value (combine_or b v p w q).value
            ≡ either
                (if_present (reading.value v) (read p))
                (if_present (reading.value w) (read q)))
  combine_or_lem v none w none = (refl, reading.value-or v w)
  combine_or_lem v none w (some q) =
      (refl, rw (reading.value-or v _) (rw (value_if_present_lem w q) refl))
  combine_or_lem v (some p) w none =
      (refl, rw (reading.value-or _ w) (rw (value_if_present_lem v p) refl))
  combine_or_lem v (some p) w (some q) = (
    ap some (reading.value-or p q),
    rw (reading.value-or _ _) (rw (value_if_present_lem v p) (rw (value_if_present_lem w q) refl)),
  )

  -- The connective of two conditional filters stands for the connective of their meanings, absent sides
  -- left out.
  pub combine_conditional-Represents :
      (left right : ConditionalFilter Expr) (conjunction : Bool) (d e : Option Truth)
      → Represents left d
      → Represents right e
      → Represents
          (combine_conditional b left conjunction right)
          (joined (connective conjunction) d e)
  unfolding combine_conditional
  combine_conditional-Represents left right true d e l r =
      let (guards, values) = combine_and_lem left.value left.present right.value right.present in
      record {
        guard_sure = rw guards (sure-or_guards _ _ l.guard_sure r.guard_sure);
        stands_for = rw guards (
            rw values (
              rw
                (conjunction_guarded (read left.present) (reading.value left.value)
                  (read right.present) (reading.value right.value) l.guard_sure r.guard_sure)
                (rw l.stands_for (rw r.stands_for refl))));
      }
  combine_conditional-Represents left right false d e l r =
      let (guards, values) = combine_or_lem left.value left.present right.value right.present in
      record {
        guard_sure = rw guards (sure-or_guards _ _ l.guard_sure r.guard_sure);
        stands_for = rw guards (
            rw values (
              rw
                (disjunction_guarded (read left.present) (reading.value left.value)
                  (read right.present) (reading.value right.value) l.guard_sure r.guard_sure)
                (rw l.stands_for (rw r.stands_for refl))));
      }

  pub absent-Represents :
      Represents (record { present = some (b.cust "FALSE"); value = b.cust "TRUE" }) none
  absent-Represents = record {
    guard_sure = rw reading.value_false refl;
    stands_for = rw reading.value_false refl;
  }

  pub negation-Represents :
      (x : ConditionalFilter Expr) (d : Option Truth)
      → Represents x d
      → Represents (record { present = x.present; value = not_expr b x.value }) (negated_meaning d)
  unfolding not_expr
  negation-Represents x d r = record {
    guard_sure = r.guard_sure;
    stands_for =
        rw (reading.value-not x.value)
          (rw (sym r.stands_for) (guarded-negate (read x.present) (reading.value x.value)));
  }

  abbrev pub guard_with : Expr → Option Expr → Expr
  guard_with guard none = guard
  guard_with guard (some present) = b.and_expr guard present

  guard_with_lem :
      (guard : Expr) (present : Option Expr) (v : Truth) (flag : Bool)
      → reading.value guard ≡ of_bool flag
      → sure (read present) ≡ true
      → (sure (some (reading.value (guard_with guard present))) ≡ true)
        × (guarded (some (reading.value (guard_with guard present))) v
            ≡ (if flag then guarded (read present) v else none))
  guard_with_lem guard none v flag h k = rw h (of_bool_guards none v flag refl)
  guard_with_lem guard (some present) v flag h k =
      rw (reading.value-and guard present)
        (rw h (of_bool_guards (some (reading.value present)) v flag k))

  -- A guard that tells whether a parameter has a value makes a filter absent where it has none.
  pub guard_with-Represents :
      (guard : Expr) (x : ConditionalFilter Expr) (d : Option Truth) (flag : Bool)
      → reading.value guard ≡ of_bool flag
      → Represents x d
      → Represents
          (record { present = some (guard_with guard x.present); value = x.value })
          (if flag then d else none)
  guard_with-Represents guard x d flag h r =
      let (certain, same) =
        guard_with_lem guard x.present (reading.value x.value) flag h r.guard_sure in
      record { guard_sure = certain; stands_for = rw same (rw r.stands_for refl) }

  pub or_absent-Represents :
      (catalog : Catalog) (x : ConditionalFilter Expr) (d : Option Truth)
      → Represents x d
      → reading.value (or_absent b catalog x x.present) ≡ or_holds d
  or_absent-Represents catalog x d r = rw (sym r.stands_for) (absent_lem x x.present r.guard_sure)
    where
      absent_lem :
          (x : ConditionalFilter Expr) (p : Option Expr)
          → sure (read p) ≡ true
          → reading.value (or_absent b catalog x p)
            ≡ or_holds (guarded (read p) (reading.value x.value))
      absent_lem x none h = refl
      absent_lem x (some p) h =
          rw (value_or_absent_lem x.value p)
            (unless_absent-guarded (reading.value x.value) (some (reading.value p)) h)
