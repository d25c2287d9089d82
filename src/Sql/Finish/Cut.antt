-- ===== src/Sql/Finish/Cut.antt =====
-- crates/dsql-core/src/sql/postgres.rs, `replace_ranges`: SQL as the pieces that are replaced and the
-- text between them.
use Prim.Native.Char.{Char, len_utf8}
use Prim.Native.String.{◌++◌, len, slice}
use Prim.Native.String.append
use Prim.Native.String.len
use mathlib.Core.List.{Perm}
use mathlib.Core.List.Perm
use text.Mathlib.TextLemmas.{append_assoc}
use text.Mathlib.TextPositions.{len-append, slice-append_middle, slice-append_right, len_utf8-pos}
use dsql.Prelude.{
  ◌+◌, ◌≤◌, String, some, List, [], ◌∷◌, map, inl, inr, Bool-cases, string_eq, ltb, sort_by,
  insert_by, ◌≡◌, refl, sym, ap, ◌∙◌, arith,
}
use dsql.Prelude.Text.Split.{some-injective}
use dsql.Sql.Finish.{Replacement, starts_no_later, replace_sorted}

-- A text, one that is replaced after it, and what it is replaced by.
pub record Piece : Type 0 where
  pub before : String
  pub needle : String
  pub text : String

abbrev pub pair_of : Piece → String × String
pair_of piece = (piece.needle, piece.text)

abbrev pub source : List Piece → String → String
source [] tail = tail
source (piece ∷ pieces) tail = piece.before ++ (piece.needle ++ source pieces tail)

abbrev pub target : List Piece → String → String
target [] tail = tail
target (piece ∷ pieces) tail = piece.before ++ (piece.text ++ target pieces tail)

-- A range of whole characters of the SQL.
pub record Placed (sql : String) (range : Replacement) : Type 0 where
  pub before : String
  pub needle : String
  pub rest : String
  pub splits : sql ≡ before ++ (needle ++ rest)
  pub starts : range.start ≡ len before
  pub ends : range.finish ≡ len before + len needle

abbrev pub replaced_by : String → Replacement → String × String
replaced_by sql range = (slice sql range.start range.finish, range.text)

abbrev pub first_or : Char → String → Char
first_or c String.[] = c
first_or c (String.◌∷◌ d s) = d

abbrev pub tail_of : String → String
tail_of String.[] = ""
tail_of (String.◌∷◌ c s) = s

-- Of two texts at the start of one, the longer goes on from the shorter.
pub overlap :
    (consumed remaining a b : String)
    → consumed ++ remaining ≡ a ++ b
    → len consumed ≤ len a
    → (mid : String) × (a ≡ consumed ++ mid) × (remaining ≡ mid ++ b)
overlap String.[] remaining a b e h = (a, sym (append.nil a), sym (append.nil remaining) ∙ e)
overlap (String.◌∷◌ c s) remaining String.[] b e h =
    absurd (omega (arith, h, len.cons c s, len.nil, len_utf8-pos c))
overlap (String.◌∷◌ c s) remaining (String.◌∷◌ d a) b e h =
    let same : String.◌∷◌ c (s ++ remaining) ≡ String.◌∷◌ d (a ++ b) =
      sym (append.cons c s remaining) ∙ e ∙ append.cons d a b in
    let same_head : c ≡ d = ap (first_or c) same in
    let same_tail : s ++ remaining ≡ a ++ b = ap tail_of same in
    let (mid, left, right) =
      overlap s remaining a b same_tail
        (omega (arith, h, len.cons c s, len.cons d a, ap len_utf8 same_head)) in
    (mid, rw (sym same_head) (ap (String.◌∷◌ c) left ∙ sym (append.cons c s mid)), right)

pub replaced_by-Placed :
    (sql : String) (range : Replacement) (p : Placed sql range)
    → replaced_by sql range ≡ (p.needle, range.text)
replaced_by-Placed sql range p =
    rw (p.splits, p.starts, p.ends)
      (ap (λ s. (s, range.text)) (slice-append_middle p.before p.needle p.rest))

-- Each range of a list.
abbrev pub AllPlaced : String → List Replacement → Type 0
AllPlaced sql [] = Unit {0}
AllPlaced sql (range ∷ ranges) = Placed sql range × AllPlaced sql ranges

pub insert_by-AllPlaced :
    (sql : String) (x : Replacement) (xs : List Replacement)
    → Placed sql x
    → AllPlaced sql xs
    → AllPlaced sql (insert_by starts_no_later x xs)
insert_by-AllPlaced sql x [] p all = (p, all)
insert_by-AllPlaced sql x (z ∷ xs) p all = elim (Bool-cases (starts_no_later x z)) [
  | inl e ↦ rw e (p, all)
  | inr e ↦ rw e (all.0, insert_by-AllPlaced sql x xs p all.1)
]

pub sort_by-AllPlaced :
    (sql : String) (xs : List Replacement)
    → AllPlaced sql xs
    → AllPlaced sql (sort_by starts_no_later xs)
sort_by-AllPlaced sql [] all = all
sort_by-AllPlaced sql (x ∷ xs) all =
    insert_by-AllPlaced sql x (sort_by starts_no_later xs) all.0 (sort_by-AllPlaced sql xs all.1)

pub insert_by-Perm :
    (x : Replacement) (xs : List Replacement) → Perm (insert_by starts_no_later x xs) (x ∷ xs)
insert_by-Perm x [] = Perm.rfl
insert_by-Perm x (z ∷ xs) = elim (Bool-cases (starts_no_later x z)) [
  | inl e ↦ rw e Perm.rfl
  | inr e ↦ rw e (Perm.trans (Perm.cons z (insert_by-Perm x xs)) (Perm.swap x z xs))
]

pub sort_by-Perm : (xs : List Replacement) → Perm (sort_by starts_no_later xs) xs
sort_by-Perm [] = Perm.rfl
sort_by-Perm (x ∷ xs) =
    Perm.trans (insert_by-Perm x (sort_by starts_no_later xs)) (Perm.cons x (sort_by-Perm xs))

-- What the loop over placed ranges gives: the rest of the SQL in pieces, and the pieces replaced.
pub record Cut (sql remaining rendered out : String) (ranges : List Replacement) : Type 0 where
  pub pieces : List Piece
  pub tail : String
  pub pairs : map pair_of pieces ≡ map (replaced_by sql) ranges
  pub is_source : remaining ≡ source pieces tail
  pub is_target : out ≡ rendered ++ target pieces tail

pub rest_of :
    (sql consumed remaining : String)
    → sql ≡ consumed ++ remaining
    → slice sql (len consumed) (len sql) ≡ remaining
rest_of sql consumed remaining e =
    rw (e, len-append consumed remaining) (slice-append_right consumed remaining)

-- One more piece, before the others.
pub Cut-cons :
    (sql mid rendered out : String) (range : Replacement) (p : Placed sql range)
    (ranges : List Replacement)
    → Cut sql p.rest (rendered ++ (mid ++ range.text)) out ranges
    → Cut sql (mid ++ (p.needle ++ p.rest)) rendered out (range ∷ ranges)
Cut-cons sql mid rendered out range p ranges again = record {
  pieces = (record { before = mid; needle = p.needle; text = range.text }) ∷ again.pieces;
  tail = again.tail;
  pairs = rw (replaced_by-Placed sql range p) (ap (λ l. (p.needle, range.text) ∷ l) again.pairs);
  is_source = ap (λ r. mid ++ (p.needle ++ r)) again.is_source;
  is_target =
      let replaced = target again.pieces again.tail in
      again.is_target
      ∙ append_assoc rendered (mid ++ range.text) replaced
      ∙ ap (λ r. rendered ++ r) (append_assoc mid range.text replaced);
}

pub replace_sorted-Cut :
    (sql consumed remaining rendered : String) (ranges : List Replacement) (out : String)
    → sql ≡ consumed ++ remaining
    → AllPlaced sql ranges
    → replace_sorted sql rendered (len consumed) ranges ≡ some out
    → Cut sql remaining rendered out ranges
unfolding replace_sorted
replace_sorted-Cut sql consumed remaining rendered [] out e all h = record {
  pieces = [];
  tail = remaining;
  pairs = refl;
  is_source = refl;
  is_target = sym (some-injective h) ∙ ap (λ r. rendered ++ r) (rest_of sql consumed remaining e);
}
replace_sorted-Cut sql consumed remaining rendered (range ∷ ranges) out e all h =
    elim (Bool-cases (ltb range.start (len consumed))) [
      | inl early ↦ absurd (ground (arith, h, early))
      | inr late ↦
          let p = all.0 in
          let (mid, left, right) =
            overlap consumed remaining p.before (p.needle ++ p.rest) (sym e ∙ p.splits)
              (ground (arith, p.starts)) in
          let gap : slice sql (len consumed) range.start ≡ mid =
            rw (p.starts, left, len-append consumed mid)
              (rw
                (p.splits
                  ∙ ap (λ s. s ++ (p.needle ++ p.rest)) left
                  ∙ append_assoc consumed mid (p.needle ++ p.rest))
                (slice-append_middle consumed mid (p.needle ++ p.rest))) in
          let finish : range.finish ≡ len (p.before ++ p.needle) =
            p.ends ∙ sym (len-append p.before p.needle) in
          let later : replace_sorted sql
                (rendered ++ (slice sql (len consumed) range.start ++ range.text)) range.finish
                ranges
              ≡ some out =
            rw late at h in
          let again =
            replace_sorted-Cut sql (p.before ++ p.needle) p.rest (rendered ++ (mid ++ range.text))
              ranges out (p.splits ∙ sym (append_assoc p.before p.needle p.rest)) all.1
              (rw (gap, finish) at later) in
          rw right (Cut-cons sql mid rendered out range p ranges again)
    ]
