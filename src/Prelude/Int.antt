-- ===== src/Prelude/Int.antt =====
-- Signed 64-bit integers as integers with their range, and `str::parse::<i64>`.
use Prim.Native.Nat.{ℕ, zero, suc, ◌+◌, ◌-◌, ◌*◌, ◌^◌, ◌≤◌}
use Prim.Native.Char.{code}
use Prim.Native.String.{String}
use mathlib.Core.Bool.{◌&&◌}
use mathlib.Core.Option.{Option, none, some}
use mathlib.Core.Path.{◌≡◌, refl}
use dsql.Prelude.Tests.{if◌then◌else◌, leb, eqb}

-- `negsuc n` is -(n + 1).
pub data ℤ : Type 0 where
  pos : ℕ → ℤ
  negsuc : ℕ → ℤ

-- The range of an `i64`.
abbrev pub IsI64 : ℤ → Type 0
IsI64 (pos n) = n ≤ 2 ^ 63 - 1
IsI64 (negsuc n) = n ≤ 2 ^ 63 - 1

digits_from : ℕ → String → Option ℕ
digits_from n String.[] = some n
digits_from n (String.◌∷◌ c s) =
    if leb b'0' (code c) && leb (code c) b'9'
    then digits_from (n * 10 + (code c - b'0')) s
    else none

-- At least one digit, and nothing else.
magnitude : String → Option ℕ
magnitude String.[] = none
magnitude (String.◌∷◌ c s) = digits_from 0 (String.◌∷◌ c s)

negative : ℕ → Option ℤ
negative zero = some (pos 0)
negative (suc n) = if leb n (2 ^ 63 - 1) then some (negsuc n) else none

positive : ℕ → Option ℤ
positive n = if leb n (2 ^ 63 - 1) then some (pos n) else none

-- The text is a sign, which may be left out, and digits; a value out of range is an error.
unfoldable pub parse_i64 : String → Option ℤ
unfolding digits_from magnitude negative positive
parse_i64 String.[] = none
parse_i64 (String.◌∷◌ c s) =
    if eqb (code c) b'-'
    then elim (magnitude s) [ none ↦ none | some n ↦ negative n ]
    else if eqb (code c) b'+'
    then elim (magnitude s) [ none ↦ none | some n ↦ positive n ]
    else elim (magnitude (String.◌∷◌ c s)) [ none ↦ none | some n ↦ positive n ]

parse_i64_lowest : parse_i64 "-9223372036854775808" ≡ some (negsuc (2 ^ 63 - 1))
unfolding parse_i64
parse_i64_lowest = refl

parse_i64_overflow : parse_i64 "9223372036854775808" ≡ none
unfolding parse_i64
parse_i64_overflow = refl
