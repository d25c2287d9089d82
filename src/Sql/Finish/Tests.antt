-- ===== src/Sql/Finish/Tests.antt =====
-- Tests on a limit and an offset, where one replacement reads like the other sentinel.
use mathlib.Core.List.{Perm}
use dsql.Prelude.{String, some, List, [], ◌∷◌, map, split_once, strip_prefix, ◌≡◌, refl}
use dsql.Sql.Error.{done}
use dsql.Sql.Sites.{DynamicMarker, DynamicMarkerKind}
use dsql.Sql.Finish.{
  occurrence, numeric_ranges, marker_ranges, trim_whitespace, replace_sorted, replace_ranges,
  replace_numeric_sentinels, replace_dynamic_markers,
}
use dsql.Sql.Finish.Pieces.{replace_numeric_sentinels-pieces}
use dsql.Sql.Finish.Cut.{Piece, pair_of, source, target}
use dsql.Sql.Finish.Located.{EachOnce, replace_numeric_sentinels-returns}

abbrev page : String
page = "LIMIT 9000 OFFSET 9001"

abbrev page_pieces : List Piece
page_pieces =
    (record { before = "LIMIT "; needle = "9000"; text = "9001" })
    ∷ (record { before = " OFFSET "; needle = "9001"; text = "$2" })
    ∷ []

abbrev page_sentinels : List (String × String)
page_sentinels = ("9001", "$2") ∷ ("9000", "9001") ∷ []

page_replaced : replace_numeric_sentinels page page_sentinels ≡ some "LIMIT 9001 OFFSET $2"
unfolding replace_numeric_sentinels replace_ranges replace_sorted numeric_ranges occurrence
    split_once strip_prefix
page_replaced = refl

page_once : EachOnce page 0 page_pieces
unfolding occurrence split_once strip_prefix
page_once = (refl, (refl, tt))

replace_numeric_sentinels-pieces_example :
    (pieces : List Piece) × (tail : String) × Perm (map pair_of pieces) page_sentinels
    × (page ≡ source pieces tail)
    × ("LIMIT 9001 OFFSET $2" ≡ target pieces tail)
replace_numeric_sentinels-pieces_example =
    replace_numeric_sentinels-pieces page page_sentinels "LIMIT 9001 OFFSET $2" page_replaced

replace_numeric_sentinels-returns_example :
    replace_numeric_sentinels page (map pair_of page_pieces) ≡ some "LIMIT 9001 OFFSET $2"
replace_numeric_sentinels-returns_example =
    replace_numeric_sentinels-returns page_pieces "" page_once

abbrev order_marker : DynamicMarker
order_marker = record {
  internal = "__dsql_dynamic_7__";
  public_text = "{{dynamic:0}}";
  kind = DynamicMarkerKind.order;
}

order_replaced :
    replace_dynamic_markers "ORDER BY __dsql_dynamic_7__ ASC, id" (order_marker ∷ [])
    ≡ done (some "ORDER BY {{dynamic:0}}, id")
unfolding replace_dynamic_markers marker_ranges trim_whitespace replace_ranges replace_sorted
    occurrence split_once strip_prefix
order_replaced = refl
