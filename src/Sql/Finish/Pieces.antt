-- ===== src/Sql/Finish/Pieces.antt =====
-- crates/dsql-core/src/sql/postgres.rs, `replace_numeric_sentinels`: SQL as the pieces that are replaced
-- and the text between them.
use Prim.Native.String.{len}
use Prim.Native.String.append
use Prim.Native.String.len
use mathlib.Core.List.{Perm}
use mathlib.Core.List.Perm
use dsql.Prelude.{
  ℕ, ◌+◌, String, Option, none, some, List, [], ◌∷◌, map, inl, inr, Bool-cases, Option-cases, ◌==◌,
  ◌&&◌, and_iff, string_eq, sort_by, ◌≡◌, refl, sym, ap, ◌∙◌,
}
use dsql.Prelude.Text.Split.{some-injective, split_once-eq, around}
use dsql.Prelude.Text.{split_once}
use dsql.Sql.Finish.{
  unless_again, after_first, Replacement, starts_no_later, Occurrence, occurrence, numeric_range,
  with_range, numeric_ranges, replace_ranges, replace_numeric_sentinels,
}
use dsql.Sql.Finish.Cut.{
  Piece, pair_of, source, target, Placed, replaced_by, replaced_by-Placed, AllPlaced,
  sort_by-AllPlaced, sort_by-Perm, Cut, replace_sorted-Cut,
}

replace_ranges-Cut :
    (sql : String) (ranges : List Replacement) (out : String)
    → AllPlaced sql ranges
    → replace_ranges sql ranges ≡ some out
    → Cut sql sql "" out (sort_by starts_no_later ranges)
unfolding replace_ranges
replace_ranges-Cut sql ranges out all h =
    replace_sorted-Cut sql "" sql "" (sort_by starts_no_later ranges) out (sym (append.nil sql))
      (sort_by-AllPlaced sql ranges all) (rw len.nil h)

abbrev place_of : Occurrence → ℕ
place_of (Occurrence.once_at start) = start
place_of _ = 0

after_first_lem :
    (needle : String) (o : Option (String × String)) (start : ℕ)
    → after_first needle o ≡ Occurrence.once_at start
    → (w : String × String) × (o ≡ some w) × (start ≡ len w.0)
after_first_lem needle none start h = cc
after_first_lem needle (some w) start h = (w, refl, again_lem (len w.0) (split_once needle w.1) h)
  where
    again_lem :
        (n : ℕ) (o : Option (String × String)) {m : ℕ}
        → unless_again n o ≡ Occurrence.once_at m
        → m ≡ n
    again_lem n none h = sym (ap place_of h)
    again_lem n (some _) h = cc

-- The one place of a text.
occurrence_place :
    (sql needle : String) (start : ℕ)
    → occurrence sql needle ≡ Occurrence.once_at start
    → (w : String × String) × (sql ≡ around needle w) × (start ≡ len w.0)
unfolding occurrence
occurrence_place sql needle start h = elim (Bool-cases (needle == "" && sql == "")) [
  | inl empty ↦
      let both = (and_iff _ _).0 empty in
      let no_needle : needle ≡ "" = (string_eq.beq_iff _ _).0 both.0 in
      let no_sql : sql ≡ "" = (string_eq.beq_iff _ _).0 both.1 in
      let same : Occurrence.once_at 0 ≡ Occurrence.once_at start = rw empty at h in
      (("", ""), rw (no_needle, no_sql) refl, sym (ap place_of same) ∙ sym len.nil)
  | inr other ↦
      let (w, found, same) = after_first_lem needle (split_once needle sql) start (rw other at h) in
      (w, split_once-eq needle sql found, same)
]

with_range-eq-some :
    (r : Option Replacement) (rs : Option (List Replacement)) (ranges : List Replacement)
    → with_range r rs ≡ some ranges
    → (range : Replacement) × (later : List Replacement) × (r ≡ some range)
      × (rs ≡ some later)
      × (ranges ≡ range ∷ later)
with_range-eq-some none rs ranges h = cc
with_range-eq-some (some range) none ranges h = cc
with_range-eq-some (some range) (some later) ranges h =
    (range, later, refl, refl, sym (some-injective h))

numeric_range-Placed :
    (sql needle text : String) (found : Occurrence) (range : Replacement)
    → occurrence sql needle ≡ found
    → numeric_range needle text found ≡ some range
    → Placed sql range × (replaced_by sql range ≡ (needle, text))
numeric_range-Placed sql needle text Occurrence.nowhere range e h = cc
numeric_range-Placed sql needle text Occurrence.repeated range e h = cc
numeric_range-Placed sql needle text (Occurrence.once_at start) range e h =
    let same = some-injective h in
    let (w, splits, starts) = occurrence_place sql needle start e in
    let placed : Placed sql (record { start = start; finish = start + len needle; text = text }) =
      record {
        before = w.0;
        needle = needle;
        rest = w.1;
        splits = splits;
        starts = starts;
        ends = ap (λ n. n + len needle) starts;
      } in
    rw (sym same) (placed, replaced_by-Placed sql _ placed)

numeric_ranges_places :
    (sql : String) (replacements : List (String × String)) (ranges : List Replacement)
    → numeric_ranges sql replacements ≡ some ranges
    → AllPlaced sql ranges × (map (replaced_by sql) ranges ≡ replacements)
unfolding numeric_ranges
numeric_ranges_places sql [] ranges h =
    let same : [] ≡ ranges = some-injective h in rw (sym same) (tt, refl)
numeric_ranges_places sql ((needle, text) ∷ replacements) ranges h =
    let (range, later, one, others, same) =
      with_range-eq-some (numeric_range needle text (occurrence sql needle))
        (numeric_ranges sql replacements) ranges h in
    let (placed, pair) =
      numeric_range-Placed sql needle text (occurrence sql needle) range refl one in
    let (all, pairs) = numeric_ranges_places sql replacements later others in
    rw same ((placed, all), rw pair (ap (λ l. (needle, text) ∷ l) pairs))

-- If the numeric sentinels of rendered SQL are replaced, the SQL is made of pieces, each a text and a
-- sentinel after it, whose sentinels and replacements are those of the template in some order, and
-- the result is the same pieces with each sentinel replaced: no replacement is itself searched.
pub replace_numeric_sentinels-pieces :
    (sql : String) (replacements : List (String × String)) (out : String)
    → replace_numeric_sentinels sql replacements ≡ some out
    → (pieces : List Piece) × (tail : String) × Perm (map pair_of pieces) replacements
      × (sql ≡ source pieces tail)
      × (out ≡ target pieces tail)
unfolding replace_numeric_sentinels
replace_numeric_sentinels-pieces sql replacements out h =
    elim (Option-cases (numeric_ranges sql replacements)) [
      | inl e ↦ let failure : none ≡ some out = rw e at h in cc
      | inr (ranges, e) ↦
          let (all, same) = numeric_ranges_places sql replacements ranges e in
          let cut = replace_ranges-Cut sql ranges out all (rw e at h) in
          let permuted : Perm (map pair_of cut.pieces) replacements =
            rw (cut.pairs, sym same) (Perm.map (replaced_by sql) (sort_by-Perm ranges)) in
          (
            cut.pieces,
            cut.tail,
            permuted,
            cut.is_source,
            cut.is_target ∙ append.nil (target cut.pieces cut.tail),
          )
    ]
