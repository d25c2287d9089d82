-- ===== src/Sql/Alias/Tests.antt =====
-- Tests on names with accents, blanks and underscores.
use dsql.Prelude.{join, ◌≤◌, true, [], ◌∷◌, some, none, ◌≡◌, refl}
use Prim.Native.String.{len}
use dsql.Catalog.Types.{Table}
use dsql.Sql.Alias.Bounds.{context_for_bound}
use dsql.Sql.Alias.{context_for, sanitize_alias, short_hash, generated_identifier}

sanitized : sanitize_alias "__Order Items--2_" ≡ some "order_items_2"
unfolding sanitize_alias
sanitized = refl

sanitized_blank : sanitize_alias "__" ≡ none
unfolding sanitize_alias
sanitized_blank = refl

-- FNV-1a of "a" is 0xaf63dc4c8601ec8c.
hashed : short_hash "a" ≡ "8601ec8c"
unfolding short_hash
hashed = refl

generated : generated_identifier "orders" "_json_" "8601ec8c" ≡ "orders_json_8601ec8c"
unfolding generated_identifier
generated = refl

abbrev orders : Table
orders = record {
  id = 0;
  key = record { schema = "sales"; table = "orders" };
  schema = "sales";
  name = "orders";
  visible = true;
  description = none;
  columns = [];
  primary_key = [];
  unique_constraints = [];
  indexes = [];
  relations = [];
}

long_alias :
    (context_for orders "the_orders_of_the_customers_of_the_regions_of_the_world"
      ("sales.orders:o" ∷ [])).json_alias
    ≡ "the_orders_of_the_customers_of_the_regions_of_the_json_57f0b44d"
unfolding context_for join
long_alias = refl

context_for_bound_example :
    (len
        (context_for orders "the_orders_of_the_customers_of_the_regions_of_the_world"
          ("o" ∷ [])).table_alias
      ≤ 63)
    × (len
          (context_for orders "the_orders_of_the_customers_of_the_regions_of_the_world"
            ("o" ∷ [])).json_alias
        ≤ 63)
    × (len
          (context_for orders "the_orders_of_the_customers_of_the_regions_of_the_world"
            ("o" ∷ [])).result_alias
        ≤ 63)
context_for_bound_example =
    context_for_bound orders "the_orders_of_the_customers_of_the_regions_of_the_world" ("o" ∷ [])
