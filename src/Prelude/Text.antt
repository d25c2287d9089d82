-- ===== src/Prelude/Text.antt =====
-- `str` and `String`: formatting, prefixes, splitting, the first occurrence and replacement.
pub mod Split
use Prim.Native.Nat.{ℕ, zero, suc, ◌-◌, ◌/◌, ◌%◌}
use Prim.Native.Char.{Char, code}
use Prim.Native.Nat.{Ordering}
use Prim.Native.String.{String, ◌++◌, count, compare}
use mathlib.Core.Bool.{Bool, true, false}
use mathlib.Core.List.{List, [], ◌∷◌}
use mathlib.Core.Option
use mathlib.Core.Option.{Option, none, some}
use dsql.Prelude.Tests.{if◌then◌else◌, ltb, eqb, ◌==◌, string_eq}

-- The pieces of a `format!`, joined.
abbrev pub format : List String → String
format [] = ""
format (s ∷ []) = s
format (s ∷ t ∷ r) = s ++ format (t ∷ r)

-- `[String]::join`
unfoldable pub join : List String → String → String
join [] sep = ""
join (s ∷ []) sep = s
join (s ∷ t ∷ r) sep = s ++ (sep ++ join (t ∷ r) sep)

abbrev same : Char → Char → Bool
same c d = eqb (code c) (code d)

-- `str::strip_prefix`, the prefix first.
unfoldable pub strip_prefix : String → String → Option String
strip_prefix String.[] s = some s
strip_prefix (String.◌∷◌ c p) String.[] = none
strip_prefix (String.◌∷◌ c p) (String.◌∷◌ d s) = if same c d then strip_prefix p s else none

-- `str::split_once`: what stands before and after the first occurrence.
unfoldable pub split_once : String → String → Option (String × String)
unfolding strip_prefix
split_once p String.[] = Option.map (λ r. ("", r)) (strip_prefix p "")
split_once p (String.◌∷◌ c s) =
    let later : Option (String × String) =
      Option.map (λ (a, b). (String.◌∷◌ c a, b)) (split_once p s) in
    elim (strip_prefix p (String.◌∷◌ c s)) [ none ↦ later | some r ↦ some ("", r) ]

-- `str::split`, for a separator of one character.
split_char : Char → String → List String
split_char c String.[] = "" ∷ []
split_char c (String.◌∷◌ d s) = elim (split_char c s) [
  | [] ↦ []
  | w ∷ ws ↦ if same c d then "" ∷ w ∷ ws else String.◌∷◌ d w ∷ ws
]

unfoldable pub split_dots : String → List String
unfolding split_char
split_dots s = split_char "." s

-- `str::replace`, the pattern not empty; `skip` characters of an occurrence are still to pass.
replace_from : String → String → ℕ → String → String
replace_from p by skip String.[] = ""
replace_from p by (suc skip) (String.◌∷◌ c s) = replace_from p by skip s
replace_from p by zero (String.◌∷◌ c s) =
    let inside = replace_from p by (count p - 1) s in
    let outside = String.◌∷◌ c (replace_from p by zero s) in
    elim (strip_prefix p (String.◌∷◌ c s)) [ none ↦ outside | some _ ↦ by ++ inside ]

unfoldable pub replace : String → String → String → String
unfolding replace_from strip_prefix
replace s p by = replace_from p by 0 s

-- `str::replacen` with a count of 1.
unfoldable pub replace_first : String → String → String → String
unfolding split_once
replace_first s p by = elim (split_once p s) [ none ↦ s | some (a, b) ↦ a ++ (by ++ b) ]

-- Whether `str::match_indices` yields exactly one position. The empty pattern stands once in the
-- empty text, and more than once in any other.
unfoldable pub occurs_once : String → String → Bool
unfolding split_once
occurs_once p s = if p == "" then s == "" else elim (split_once p s) [
  | none ↦ false
  | some (_, rest) ↦ elim (split_once p rest) [ none ↦ true | some _ ↦ false ]
]

digit : ℕ → String
digit zero = "0"
digit (suc zero) = "1"
digit (suc (suc zero)) = "2"
digit (suc (suc (suc zero))) = "3"
digit (suc (suc (suc (suc zero)))) = "4"
digit (suc (suc (suc (suc (suc zero))))) = "5"
digit (suc (suc (suc (suc (suc (suc zero)))))) = "6"
digit (suc (suc (suc (suc (suc (suc (suc zero))))))) = "7"
digit (suc (suc (suc (suc (suc (suc (suc (suc zero)))))))) = "8"
digit _ = "9"

decimal_from : ℕ → ℕ → String
decimal_from zero n = ""
decimal_from (suc fuel) n =
    let higher = decimal_from fuel (n / 10) in
    if ltb n 10 then digit n else higher ++ digit (n % 10)

-- The decimal spelling of an unsigned integer.
unfoldable pub decimal : ℕ → String
unfolding decimal_from digit
decimal n = decimal_from (suc n) n

-- `str::cmp` puts the first text no later than the second.
abbrev pub text_le : String → String → Bool
text_le s t = elim (compare s t) [ Ordering.gt ↦ false | _ ↦ true ]

insert_text : String → List String → List String
insert_text s [] = s ∷ []
insert_text s (t ∷ r) = if text_le s t then s ∷ t ∷ r else t ∷ insert_text s r

-- `sort_unstable`; equal texts cannot be told apart.
unfoldable pub sort_texts : List String → List String
unfolding insert_text
sort_texts [] = []
sort_texts (s ∷ r) = insert_text s (sort_texts r)
