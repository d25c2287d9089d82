-- ===== src/Sql/Alias/Bounds.antt =====
-- crates/dsql-core/src/sql/postgres.rs, `generated_identifier`: aliases that PostgreSQL does not cut.
use Prim.Native.Char.{Char, len_utf8}
use Prim.Native.String.{◌++◌, len}
use Prim.Native.String.len
use text.Mathlib.TextPositions.{len-append}
use dsql.Prelude.{
  ℕ, zero, suc, ◌+◌, ◌-◌, ◌≤◌, ◌/◌, ◌%◌, String, List, ◌≡◌, refl, inl, inr, arith, Bool-cases, ◌==◌,
  string_eq, leb, join,
}
use dsql.Catalog.Types.{Table}
use dsql.Sql.Alias.{
  trim_start, trim_end, keep_unless_blank, trim_underscores, prefix_bytes, truncate_identifier_base,
  generated_identifier, hex_digits, hex_digit, short_hash, or_name, sanitize_alias, context_for,
  is_underscore,
}

trim_start_le : (s : String) → len (trim_start s) ≤ len s
unfolding trim_start
trim_start_le String.[] = omega arith
trim_start_le (String.◌∷◌ c s) = elim (Bool-cases (is_underscore c)) [
  | inl e ↦ rw e (omega (arith, trim_start_le s, len.cons c s))
  | inr e ↦ rw e (omega arith)
]

keep_unless_blank_le : (c : Char) (s : String) → len (keep_unless_blank c s) ≤ len_utf8 c + len s
keep_unless_blank_le c String.[] = elim (Bool-cases (is_underscore c)) [
  | inl e ↦ rw e (omega (arith, len.nil))
  | inr e ↦ rw e (omega (arith, len.cons c String.[]))
]
keep_unless_blank_le c (String.◌∷◌ d s) = omega (arith, len.cons c (String.◌∷◌ d s))

trim_end_le : (s : String) → len (trim_end s) ≤ len s
unfolding trim_end
trim_end_le String.[] = omega arith
trim_end_le (String.◌∷◌ c s) =
    omega (arith, keep_unless_blank_le c (trim_end s), trim_end_le s, len.cons c s)

prefix_bytes_le : (max_bytes : ℕ) (s : String) → len (prefix_bytes max_bytes s) ≤ max_bytes
unfolding prefix_bytes
prefix_bytes_le max_bytes String.[] = omega (arith, len.nil)
prefix_bytes_le max_bytes (String.◌∷◌ c s) =
    let rest = prefix_bytes (max_bytes - len_utf8 c) s in
    elim (Bool-cases (leb (len_utf8 c) max_bytes)) [
      | inr e ↦ rw e (omega (arith, len.nil))
      | inl e ↦
          let fits : len_utf8 c ≤ max_bytes = ground arith in
          rw e (omega (arith, len.cons c rest, prefix_bytes_le (max_bytes - len_utf8 c) s))
    ]

truncate_le :
    (value : String) (max_bytes : ℕ) → len (truncate_identifier_base value max_bytes) ≤ max_bytes
unfolding truncate_identifier_base trim_underscores
truncate_le value max_bytes =
    let s = prefix_bytes max_bytes value in
    omega (arith, trim_end_le (trim_start s), trim_start_le s, prefix_bytes_le max_bytes value)

-- A generated identifier has at most the 63 bytes that PostgreSQL keeps of one, whatever name it is
-- made from, when its infix and suffix leave room.
pub generated_identifier_bound :
    (base middle suffix : String)
    → len middle + len suffix ≤ 63
    → len (generated_identifier base middle suffix) ≤ 63
unfolding generated_identifier
generated_identifier_bound base middle suffix h =
    let room = (63 - len middle) - len suffix in
    let written = truncate_identifier_base base room in
    let fallback = truncate_identifier_base "selection" room in
    elim (Bool-cases (written == "")) [
      | inl e ↦ rw e (
          omega (
            arith,
            len-append fallback (middle ++ suffix),
            len-append middle suffix,
            truncate_le "selection" room,
          ))
      | inr e ↦ rw e (
          omega (
            arith,
            len-append written (middle ++ suffix),
            len-append middle suffix,
            truncate_le base room,
          ))
    ]

len-hex_digit : (n : ℕ) → len (hex_digit n) ≡ 1
unfolding hex_digit
len-hex_digit zero = refl
len-hex_digit (suc zero) = refl
len-hex_digit (suc (suc zero)) = refl
len-hex_digit (suc (suc (suc zero))) = refl
len-hex_digit (suc (suc (suc (suc zero)))) = refl
len-hex_digit (suc (suc (suc (suc (suc zero))))) = refl
len-hex_digit (suc (suc (suc (suc (suc (suc zero)))))) = refl
len-hex_digit (suc (suc (suc (suc (suc (suc (suc zero))))))) = refl
len-hex_digit (suc (suc (suc (suc (suc (suc (suc (suc zero)))))))) = refl
len-hex_digit (suc (suc (suc (suc (suc (suc (suc (suc (suc zero))))))))) = refl
len-hex_digit (suc (suc (suc (suc (suc (suc (suc (suc (suc (suc zero)))))))))) = refl
len-hex_digit (suc (suc (suc (suc (suc (suc (suc (suc (suc (suc (suc zero))))))))))) = refl
len-hex_digit (suc (suc (suc (suc (suc (suc (suc (suc (suc (suc (suc (suc zero)))))))))))) = refl
len-hex_digit (suc (suc (suc (suc (suc (suc (suc (suc (suc (suc (suc (suc (suc zero))))))))))))) =
    refl
len-hex_digit
      (suc (suc (suc (suc (suc (suc (suc (suc (suc (suc (suc (suc (suc (suc zero)))))))))))))) =
    refl
len-hex_digit _ = refl

len-hex_digits : (k n : ℕ) → len (hex_digits k n) ≡ k
unfolding hex_digits
len-hex_digits zero n = len.nil
len-hex_digits (suc k) n = omega (
  arith,
  len-append (hex_digits k (n / 16)) (hex_digit (n % 16)),
  len-hex_digits k (n / 16),
  len-hex_digit (n % 16),
)

len-short_hash : (value : String) → len (short_hash value) ≡ 8
unfolding short_hash
len-short_hash value = len-hex_digits 8 _

-- The aliases of a table's rows, of their JSON and of their result have at most the 63 bytes that
-- PostgreSQL keeps of an identifier, whatever the names of the table and of the output and however
-- deep the path to them.
pub context_for_bound :
    (table : Table) (output_name : String) (path : List String)
    → (len (context_for table output_name path).table_alias ≤ 63)
      × (len (context_for table output_name path).json_alias ≤ 63)
      × (len (context_for table output_name path).result_alias ≤ 63)
unfolding context_for
context_for_bound table output_name path =
    let suffix = short_hash (join path "/") in
    let base = or_name (sanitize_alias output_name) (sanitize_alias table.name) "selection" in
    let known = len-short_hash (join path "/") in
    (
      generated_identifier_bound base "_" suffix (omega (arith, known)),
      generated_identifier_bound base "_json_" suffix (omega (arith, known)),
      generated_identifier_bound base "_result_" suffix (omega (arith, known)),
    )
