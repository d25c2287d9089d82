-- ===== src/Sql/Alias.antt =====
-- crates/dsql-core/src/sql/postgres.rs: the aliases of tables and results in generated SQL.
pub mod Bounds
pub mod Tests
use Prim.Native.Char.{Char, code, len_utf8}
use Prim.Native.Nat.{bit_xor}
use Prim.Native.String.{◌++◌, char_at, len}
use dsql.Prelude.{
  ℕ, zero, suc, ◌+◌, ◌-◌, ◌*◌, ◌/◌, ◌%◌, ◌^◌, String, Bool, true, false, not, ◌&&◌, ◌||◌, Option,
  none, some, List, [], ◌∷◌, if◌then◌else◌, ◌==◌, string_eq, ltb, leb, eqb, format, join,
}
use dsql.Catalog.Types.{Table}

abbrev pub one_character : Char → String
one_character c = String.◌∷◌ c String.[]

abbrev is_underscore : Char → Bool
is_underscore c = eqb (code c) b'_'

abbrev is_upper : Char → Bool
is_upper c = leb b'A' (code c) && leb (code c) b'Z'

abbrev is_lower_or_digit : Char → Bool
is_lower_or_digit c =
    (leb b'a' (code c) && leb (code c) b'z') || (leb b'0' (code c) && leb (code c) b'9')

-- The character that an alias has for one of a name; `char::to_ascii_lowercase` by position.
mapped_character : Char → Option Char
mapped_character c =
    if is_upper c
    then some (char_at "abcdefghijklmnopqrstuvwxyz" (code c - b'A'))
    else if is_lower_or_digit c || is_underscore c
    then some c
    else none

abbrev add_mapped : String → Bool → Option Char → String × Bool
add_mapped alias last (some c) =
    if is_underscore c && last then (alias, last) else (alias ++ one_character c, is_underscore c)
add_mapped alias last none =
    if not last && not (alias == "") then (alias ++ "_", true) else (alias, last)

-- The loop over the characters, with the alias so far and whether it ends in an underscore.
alias_from : String → String → Bool → String
unfolding mapped_character
alias_from String.[] alias last = alias
alias_from (String.◌∷◌ c s) alias last =
    let (alias', last') = add_mapped alias last (mapped_character c) in alias_from s alias' last'

-- `trim_matches('_')`
unfoldable pub trim_start : String → String
trim_start String.[] = ""
trim_start (String.◌∷◌ c s) =
    let rest = trim_start s in if is_underscore c then rest else String.◌∷◌ c s

abbrev keep_unless_blank : Char → String → String
keep_unless_blank c String.[] = if is_underscore c then "" else one_character c
keep_unless_blank c (String.◌∷◌ d s) = String.◌∷◌ c (String.◌∷◌ d s)

unfoldable pub trim_end : String → String
trim_end String.[] = ""
trim_end (String.◌∷◌ c s) = keep_unless_blank c (trim_end s)

unfoldable pub trim_underscores : String → String
unfolding trim_start trim_end
trim_underscores s = trim_end (trim_start s)

unfoldable pub sanitize_alias : String → Option String
unfolding alias_from trim_underscores
sanitize_alias value =
    let alias = trim_underscores (alias_from value "" false) in
    if alias == "" then none else some alias

abbrev pub postgres_identifier_max_bytes : ℕ
postgres_identifier_max_bytes = 63

-- The longest prefix of whole characters with no more bytes than the bound.
unfoldable pub prefix_bytes : ℕ → String → String
prefix_bytes max_bytes String.[] = ""
prefix_bytes max_bytes (String.◌∷◌ c s) =
    let rest = prefix_bytes (max_bytes - len_utf8 c) s in
    if leb (len_utf8 c) max_bytes then String.◌∷◌ c rest else ""

unfoldable pub truncate_identifier_base : String → ℕ → String
unfolding prefix_bytes trim_underscores
truncate_identifier_base value max_bytes = trim_underscores (prefix_bytes max_bytes value)

-- Subtraction stops at 0, as `saturating_sub` does.
unfoldable pub generated_identifier : String → String → String → String
unfolding truncate_identifier_base
generated_identifier base middle suffix =
    let max_base_bytes = (postgres_identifier_max_bytes - len middle) - len suffix in
    let truncated_base = truncate_identifier_base base max_base_bytes in
    let kept =
      if truncated_base == ""
      then truncate_identifier_base "selection" max_base_bytes
      else truncated_base in
    kept ++ (middle ++ suffix)

-- The bytes of a character in UTF-8.
utf8_bytes : Char → List ℕ
utf8_bytes c =
    let n = code c in
    let last = 128 + n % 64 in
    if ltb n 128
    then n ∷ []
    else if ltb n 2048
    then (192 + n / 64) ∷ last ∷ []
    else if ltb n 65536
    then (224 + n / 4096) ∷ (128 + n / 64 % 64) ∷ last ∷ []
    else (240 + n / 262144) ∷ (128 + n / 4096 % 64) ∷ (128 + n / 64 % 64) ∷ last ∷ []

hash_bytes : ℕ → List ℕ → ℕ
hash_bytes hash [] = hash
hash_bytes hash (byte ∷ bytes) = hash_bytes ((bit_xor hash byte * 0x100000001b3) % 2 ^ 64) bytes

hash_text : ℕ → String → ℕ
unfolding hash_bytes utf8_bytes
hash_text hash String.[] = hash
hash_text hash (String.◌∷◌ c s) = hash_text (hash_bytes hash (utf8_bytes c)) s

unfoldable pub hex_digit : ℕ → String
hex_digit zero = "0"
hex_digit (suc zero) = "1"
hex_digit (suc (suc zero)) = "2"
hex_digit (suc (suc (suc zero))) = "3"
hex_digit (suc (suc (suc (suc zero)))) = "4"
hex_digit (suc (suc (suc (suc (suc zero))))) = "5"
hex_digit (suc (suc (suc (suc (suc (suc zero)))))) = "6"
hex_digit (suc (suc (suc (suc (suc (suc (suc zero))))))) = "7"
hex_digit (suc (suc (suc (suc (suc (suc (suc (suc zero)))))))) = "8"
hex_digit (suc (suc (suc (suc (suc (suc (suc (suc (suc zero))))))))) = "9"
hex_digit (suc (suc (suc (suc (suc (suc (suc (suc (suc (suc zero)))))))))) = "a"
hex_digit (suc (suc (suc (suc (suc (suc (suc (suc (suc (suc (suc zero))))))))))) = "b"
hex_digit (suc (suc (suc (suc (suc (suc (suc (suc (suc (suc (suc (suc zero)))))))))))) = "c"
hex_digit (suc (suc (suc (suc (suc (suc (suc (suc (suc (suc (suc (suc (suc zero))))))))))))) = "d"
hex_digit (suc (suc (suc (suc (suc (suc (suc (suc (suc (suc (suc (suc (suc (suc zero)))))))))))))) =
    "e"
hex_digit _ = "f"

-- The last digits of a number in base 16, as many as are asked for.
hex_digits : ℕ → ℕ → String
unfolding hex_digit
hex_digits zero n = ""
hex_digits (suc k) n = hex_digits k (n / 16) ++ hex_digit (n % 16)

-- FNV-1a over 64 bits, of which 32 are written.
unfoldable pub short_hash : String → String
unfolding hash_text hex_digits
short_hash value = hex_digits 8 (hash_text 0xcbf29ce484222325 value % 2 ^ 32)

pub record SelectionContext : Type 0 where
  pub table_alias : String
  pub json_alias : String
  pub result_alias : String

abbrev pub or_name : Option String → Option String → String → String
or_name (some alias) other last = alias
or_name none (some alias) last = alias
or_name none none last = last

unfoldable pub context_for : Table → String → List String → SelectionContext
unfolding short_hash sanitize_alias generated_identifier
context_for table output_name path =
    let suffix = short_hash (join path "/") in
    let base = or_name (sanitize_alias output_name) (sanitize_alias table.name) "selection" in
    record {
      table_alias = generated_identifier base "_" suffix;
      json_alias = generated_identifier base "_json_" suffix;
      result_alias = generated_identifier base "_result_" suffix;
    }

unfoldable pub table_label : Table → String
table_label table = format (table.schema ∷ "." ∷ table.name ∷ [])
