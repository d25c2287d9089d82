-- ===== src/Sql/Finish.antt =====
-- crates/dsql-core/src/sql/postgres.rs, `finalize_sql_template`: markers and sentinels in rendered SQL.
pub mod Cut
pub mod Pieces
pub mod Located
pub mod Tests
use Prim.Native.Char.{Char, code}
use Prim.Native.String.{◌++◌, len, slice}
use dsql.Prelude.{
  ℕ, zero, suc, ◌+◌, ◌-◌, String, Bool, true, false, not, ◌&&◌, ◌||◌, Option, none, some, List, [],
  ◌∷◌, if◌then◌else◌, ◌==◌, string_eq, ltb, leb, eqb, split_once, strip_prefix, replace, sort_by,
}
use dsql.Sql.Error.{SqlGenerationError, Outcome, done, failed}
use dsql.Sql.Sites.{DynamicMarker, DynamicMarkerKind}
use dsql.Sql.Template.{SqlTemplateContext}

-- `(start, end, replacement)`
pub record Replacement : Type 0 where
  pub start : ℕ
  pub finish : ℕ
  pub text : String

abbrev pub starts_no_later : Replacement → Replacement → Bool
starts_no_later a b = leb a.start b.start

-- The loop over the sorted ranges, with what is rendered and the cursor.
unfoldable pub replace_sorted : String → String → ℕ → List Replacement → Option String
replace_sorted sql rendered cursor [] = some (rendered ++ slice sql cursor (len sql))
replace_sorted sql rendered cursor (range ∷ ranges) =
    let rest =
      replace_sorted sql (rendered ++ (slice sql cursor range.start ++ range.text)) range.finish
        ranges in
    if ltb range.start cursor then none else rest

unfoldable pub replace_ranges : String → List Replacement → Option String
unfolding replace_sorted
replace_ranges sql ranges = replace_sorted sql "" 0 (sort_by starts_no_later ranges)

pub data Occurrence : Type 0 where
  nowhere repeated : Occurrence
  once_at : ℕ → Occurrence

abbrev unless_again : ℕ → Option (String × String) → Occurrence
unless_again start none = Occurrence.once_at start
unless_again start (some _) = Occurrence.repeated

abbrev after_first : String → Option (String × String) → Occurrence
after_first needle none = Occurrence.nowhere
after_first needle (some (before, rest)) = unless_again (len before) (split_once needle rest)

-- The first two of `match_indices`. The empty pattern stands once in the empty text alone.
unfoldable pub occurrence : String → String → Occurrence
unfolding split_once
occurrence sql needle =
    if needle == "" && sql == ""
    then Occurrence.once_at 0
    else after_first needle (split_once needle sql)

abbrev numeric_range : String → String → Occurrence → Option Replacement
numeric_range needle text (Occurrence.once_at start) =
    some (record { start = start; finish = start + len needle; text = text })
numeric_range needle text _ = none

abbrev with_range : Option Replacement → Option (List Replacement) → Option (List Replacement)
with_range none ranges = none
with_range (some range) none = none
with_range (some range) (some ranges) = some (range ∷ ranges)

unfoldable pub numeric_ranges : String → List (String × String) → Option (List Replacement)
unfolding occurrence
numeric_ranges sql [] = some []
numeric_ranges sql ((needle, text) ∷ replacements) =
    with_range (numeric_range needle text (occurrence sql needle)) (numeric_ranges sql replacements)

abbrev pub replaced_in : String → Option (List Replacement) → Option String
replaced_in sql none = none
replaced_in sql (some ranges) = replace_ranges sql ranges

unfoldable pub replace_numeric_sentinels : String → List (String × String) → Option String
unfolding numeric_ranges replace_ranges
replace_numeric_sentinels sql replacements = replaced_in sql (numeric_ranges sql replacements)

-- `char::is_whitespace`
abbrev is_whitespace : Char → Bool
is_whitespace c =
    let n = code c in
    (leb 9 n && leb n 13)
    || eqb n 0x20
    || eqb n 0x85
    || eqb n 0xa0
    || eqb n 0x1680
    || (leb 0x2000 n && leb n 0x200a)
    || eqb n 0x2028
    || eqb n 0x2029
    || eqb n 0x202f
    || eqb n 0x205f
    || eqb n 0x3000

-- `str::trim_start`
unfoldable pub trim_whitespace : String → String
trim_whitespace String.[] = ""
trim_whitespace (String.◌∷◌ c s) =
    let rest = trim_whitespace s in if is_whitespace c then rest else String.◌∷◌ c s

abbrev is_some : {A : Type 0} → Option A → Bool
is_some none = false
is_some (some _) = true

abbrev starts_ascending : String → Bool
starts_ascending s = is_some (strip_prefix "asc" s) || is_some (strip_prefix "ASC" s)

-- Where a marker ends; that of an order takes the direction after it.
abbrev marker_end : String → DynamicMarker → ℕ → Outcome ℕ
marker_end sql marker finish = elim marker.kind [
  | DynamicMarkerKind.exact ↦ done finish
  | DynamicMarkerKind.order ↦
      let rest = slice sql finish (len sql) in
      let trimmed = trim_whitespace rest in
      if starts_ascending trimmed
      then done (finish + (len rest - len trimmed) + 3)
      else failed (SqlGenerationError.dynamic_order_marker_render marker.internal)
]

abbrev ending_at : String → ℕ → Outcome ℕ → Outcome (Option Replacement)
ending_at text start (failed e) = failed e
ending_at text start (done finish) =
    done (some (record { start = start; finish = finish; text = text }))

abbrev marker_range : String → DynamicMarker → Occurrence → Outcome (Option Replacement)
marker_range sql marker Occurrence.nowhere =
    failed (SqlGenerationError.dynamic_marker_missing marker.internal)
marker_range sql marker Occurrence.repeated = done none
marker_range sql marker (Occurrence.once_at start) =
    ending_at marker.public_text start (marker_end sql marker (start + len marker.internal))

abbrev with_marker :
    Outcome (Option Replacement)
    → Outcome (Option (List Replacement))
    → Outcome (Option (List Replacement))
with_marker (failed e) ranges = failed e
with_marker (done none) ranges = done none
with_marker (done (some range)) (failed e) = failed e
with_marker (done (some range)) (done none) = done none
with_marker (done (some range)) (done (some ranges)) = done (some (range ∷ ranges))

unfoldable pub marker_ranges : String → List DynamicMarker → Outcome (Option (List Replacement))
unfolding occurrence split_once strip_prefix trim_whitespace
marker_ranges sql [] = done (some [])
marker_ranges sql (marker ∷ markers) =
    let rest = marker_ranges sql markers in
    if is_some (split_once marker.public_text sql)
    then done none
    else with_marker (marker_range sql marker (occurrence sql marker.internal)) rest

abbrev replaced_markers : String → Outcome (Option (List Replacement)) → Outcome (Option String)
replaced_markers sql (failed e) = failed e
replaced_markers sql (done ranges) = done (replaced_in sql ranges)

unfoldable pub replace_dynamic_markers : String → List DynamicMarker → Outcome (Option String)
unfolding marker_ranges replace_ranges
replace_dynamic_markers sql markers = replaced_markers sql (marker_ranges sql markers)

unfoldable pub replace_texts : List (String × String) → String → String
unfolding replace
replace_texts [] sql = sql
replace_texts ((needle, text) ∷ replacements) sql =
    replace_texts replacements (replace sql needle text)

abbrev with_texts : List (String × String) → Option String → Option String
with_texts replacements none = none
with_texts replacements (some sql) = some (replace_texts replacements sql)

abbrev with_numbers : SqlTemplateContext → Outcome (Option String) → Outcome (Option String)
with_numbers template (failed e) = failed e
with_numbers template (done none) = done none
with_numbers template (done (some sql)) =
    done (
      with_texts template.replacements
        (replace_numeric_sentinels sql template.numeric_replacements))

-- `None` asks for another build, with fresh sentinels.
unfoldable pub finalize_sql_template : String → SqlTemplateContext → Outcome (Option String)
unfolding replace_dynamic_markers replace_numeric_sentinels replace_texts
finalize_sql_template sql template =
    with_numbers template (replace_dynamic_markers sql template.dynamic_markers)
