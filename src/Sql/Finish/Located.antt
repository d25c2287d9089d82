-- ===== src/Sql/Finish/Located.antt =====
-- crates/dsql-core/src/sql/postgres.rs, `replace_numeric_sentinels`: where each sentinel stands once, all
-- of them are replaced.
use Prim.Native.String.{◌++◌, len, slice}
use Prim.Native.String.append
use Prim.Native.String.len
use text.Mathlib.TextLemmas.{append_assoc}
use text.Mathlib.TextPositions.{len-append, slice-append_middle}
use dsql.Prelude.{
  ℕ, ◌+◌, String, true, false, some, List, [], ◌∷◌, map, ltb, leb, sort_by, insert_by, ◌≡◌, refl,
  sym, ap, ◌∙◌, arith,
}
use dsql.Sql.Finish.{
  Replacement, Occurrence, occurrence, starts_no_later, numeric_ranges, replace_sorted,
  replace_ranges, replace_numeric_sentinels,
}
use dsql.Sql.Finish.Cut.{Piece, pair_of, source, target, rest_of}

abbrev start_of : ℕ → Piece → ℕ
start_of cursor piece = cursor + len piece.before

abbrev end_of : ℕ → Piece → ℕ
end_of cursor piece = start_of cursor piece + len piece.needle

-- Each piece has the one place of its needle in the SQL.
abbrev pub EachOnce : String → ℕ → List Piece → Type 0
EachOnce sql cursor [] = Unit {0}
EachOnce sql cursor (piece ∷ pieces) =
    (occurrence sql piece.needle ≡ Occurrence.once_at (start_of cursor piece))
    × EachOnce sql (end_of cursor piece) pieces

located : ℕ → List Piece → List Replacement
located cursor [] = []
located cursor (piece ∷ pieces) =
    (record { start = start_of cursor piece; finish = end_of cursor piece; text = piece.text })
    ∷ located (end_of cursor piece) pieces

numeric_ranges-located :
    (sql : String) (cursor : ℕ) (pieces : List Piece)
    → EachOnce sql cursor pieces
    → numeric_ranges sql (map pair_of pieces) ≡ some (located cursor pieces)
unfolding numeric_ranges located
numeric_ranges-located sql cursor [] once = refl
numeric_ranges-located sql cursor (piece ∷ pieces) once =
    rw (once.0) (rw (numeric_ranges-located sql (end_of cursor piece) pieces once.1) refl)

insert_by-located :
    (cursor : ℕ) (piece : Piece) (pieces : List Piece)
    → insert_by starts_no_later
        (record { start = start_of cursor piece; finish = end_of cursor piece; text = piece.text })
        (located (end_of cursor piece) pieces)
      ≡ located cursor (piece ∷ pieces)
unfolding located
insert_by-located cursor piece [] = refl
insert_by-located cursor piece (later ∷ pieces) =
    let before : leb (start_of cursor piece) (start_of (end_of cursor piece) later) ≡ true =
      ground arith in
    rw before refl

sort_by-located :
    (cursor : ℕ) (pieces : List Piece)
    → sort_by starts_no_later (located cursor pieces) ≡ located cursor pieces
unfolding located
sort_by-located cursor [] = refl
sort_by-located cursor (piece ∷ pieces) =
    rw (sort_by-located (end_of cursor piece) pieces) (insert_by-located cursor piece pieces)

replace_sorted-located :
    (sql consumed rendered : String) (pieces : List Piece) (tail : String)
    → sql ≡ consumed ++ source pieces tail
    → replace_sorted sql rendered (len consumed) (located (len consumed) pieces)
      ≡ some (rendered ++ target pieces tail)
unfolding replace_sorted located
replace_sorted-located sql consumed rendered [] tail e =
    ap (λ r. some (rendered ++ r)) (rest_of sql consumed tail e)
replace_sorted-located sql consumed rendered (piece ∷ pieces) tail e =
    let later = source pieces tail in
    let in_order : ltb (start_of (len consumed) piece) (len consumed) ≡ false = ground arith in
    let gap : slice sql (len consumed) (start_of (len consumed) piece) ≡ piece.before =
      rw e (slice-append_middle consumed piece.before (piece.needle ++ later)) in
    let seen = consumed ++ (piece.before ++ piece.needle) in
    let done_up_to : len seen ≡ end_of (len consumed) piece = omega (
      arith,
      len-append consumed (piece.before ++ piece.needle),
      len-append piece.before piece.needle,
    ) in
    let splits : sql ≡ seen ++ later =
      e
      ∙ ap (λ r. consumed ++ r) (sym (append_assoc piece.before piece.needle later))
      ∙ sym (append_assoc consumed (piece.before ++ piece.needle) later) in
    let again =
      replace_sorted-located sql seen (rendered ++ (piece.before ++ piece.text)) pieces tail
        splits in
    rw in_order (
      rw gap (
        (rw done_up_to at again)
        ∙ ap some (
            append_assoc rendered (piece.before ++ piece.text) (target pieces tail)
            ∙ ap (λ r. rendered ++ r) (append_assoc piece.before piece.text (target pieces tail)))))

-- If SQL is made of pieces, and each sentinel of the template, in the order of the pieces, stands in the
-- SQL at its piece and nowhere else, the result is the pieces with each sentinel replaced.
pub replace_numeric_sentinels-returns :
    (pieces : List Piece) (tail : String)
    → EachOnce (source pieces tail) 0 pieces
    → replace_numeric_sentinels (source pieces tail) (map pair_of pieces)
      ≡ some (target pieces tail)
unfolding replace_numeric_sentinels replace_ranges
replace_numeric_sentinels-returns pieces tail once =
    let sql = source pieces tail in
    rw (numeric_ranges-located sql 0 pieces once) (
      rw (sort_by-located 0 pieces) (
        rw (sym len.nil) (replace_sorted-located sql "" "" pieces tail (sym (append.nil sql)))
        ∙ ap some (append.nil (target pieces tail))))
