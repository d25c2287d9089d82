-- ===== src/Lib.antt =====
-- Verification of DSQL: a query language for PostgreSQL whose compiler writes operation metadata
-- and whose executor turns the metadata and the bindings of a caller into SQL and typed arguments.
--
-- Parts and files:
-- - Prelude, Prelude/Tests, Lists, Text, Int: Boolean tests, lists over native numbers, the text
--   operations of Rust that the code uses, signed 64-bit integers, and the lemmas they share.
-- - Metadata/Wire, Input, Operation: the types of crates/dsql-metadata/src/lib.rs that an execution
--   reads. A record stands for a struct, a data type for an enum.
-- - Execute: crates/dsql-execute/src/lib.rs.
--   Runtime is the interface to other packages: JSON values, UUIDs, timestamps, decimals, doubles,
--   regular expressions and raw JSON. Error holds the errors and the result type; its third case,
--   `exhausted`, is the model's own and means that fuel ran out.
--   Scalars, Defaults and Inputs follow string_value … pattern_is_valid, materialize_default and
--   input_value. Checks, Emit and Dynamic follow validate_dynamic_*, dynamic_parameter and
--   render_dynamic_predicate; the list of binds and the next operand index, which the source
--   mutates, are passed along in Emit. Order holds render_dynamic_order and replace_dynamic_marker.
--   Materialize follows materialize and materialize_dynamic_inputs, Bind follows bind and its parts.
--   Sample and Samples are a concrete runtime and a concrete operation for the tests.
-- - Catalog: crates/dsql-core/src/catalog. Enums, Types, Capabilities (with Table, the built-in
--   types), Builtin, Lookup and Shapes follow types.rs, keys.rs, capabilities.rs and lookup.rs. Dense
--   identities are positions in the lists of a catalog. Lookup resolves tables, checks the fields of
--   a selection and asks what indexes offer; Shapes follows domains and arrays to a public shape.
-- - Source: crates/dsql-core/src/source.rs. Scopes has the graph of scope imports, what is visible
--   from a scope and the generation targets; Scopes/Reach has the paths of imports. Cycles is the
--   walk that finds a cycle of imports.
-- - Plan: crates/dsql-core/src/plan and the compiled policies of entities/policy.rs. Filter has the
--   filter expressions of plan/types.rs, Access and Guards their classification and constructors,
--   Context the requirements of trusted context. Policies/Rules and Policies/Source follow
--   plan_source_policies: which filters apply to a source, and what each adds to the row filter, to
--   the guards on fields and to the audit. Truth is the three-valued logic by which filters are read.
-- - Sql: crates/dsql-core/src/sql/postgres.rs. Builder is the interface to sea_query. Template has
--   SqlTemplateContext and its methods as steps that may fail, Alias the aliases of a selection, View
--   the rows a filter sees, Dynamic what a dynamic predicate may do at a site. Lower is filter_expr
--   and conditional_filter_expr, with the cases of filter_value_expr in Atoms and Related; the guard
--   of a field is kept as its rendering, so that lowering recurs on the filter. Meaning reads the
--   result. Paging has the order and the limit of a query, Finish is finalize_sql_template.
--
-- How they interact: plan_source_policies gives the filters and the field guards that
-- conditional_filter_expr lowers; the parameters and sites of the template become the metadata of an
-- operation. There materialize reads each declared input by input_value, substitutes SQL variants,
-- binds the positional parameters, and renders each dynamic input at each of its sites with operands
-- that start after the binds so far; bind then turns each parameter into an argument.
--
-- Bounds and fuel: integers are ℤ with the range of i64 checked where the code parses them. Fuel
-- bounds the nesting of a dynamic predicate; one more than the nesting of the value is enough.
-- Fuel bounds the chain of domains and arrays of a type too: more than its rank is enough in a
-- catalog without a cycle of types.
-- The walks over scope imports are on fuel for their depth; two more than the number of imports in the
-- graph is enough for what is visible, and one more than the declared scopes and the imports for
-- import_cycle, since both walks mark a new scope at every level.
-- Maps are association lists in which a later entry hides an earlier one, as insertion does.
--
-- Not modelled: connections, rows and result decoding, which are I/O through sqlx; the cache of
-- compiled patterns, which changes no result; the provenance of catalog facts, which no lookup reads,
-- and the catalog fingerprint; the grammar, the entities and their checks, the planning of
-- selections and the JSON of their SQL, and the tools around the compiler.
pub mod Catalog
pub mod Execute
pub mod Metadata
pub mod Plan
pub mod Prelude
pub mod Source
pub mod Sql
