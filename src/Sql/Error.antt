-- ===== src/Sql/Error.antt =====
-- crates/dsql-core/src/sql/postgres.rs: the errors of SQL generation, and `Result` with `?`.
use dsql.Prelude.{ℕ, String}

pub data SqlGenerationError : Type 0 where
  missing_table : ℕ → SqlGenerationError
  missing_column : ℕ → SqlGenerationError
  missing_relation : ℕ → SqlGenerationError
  missing_aggregate_operand : SqlGenerationError
  unsupported_filter_fragment : SqlGenerationError
  dynamic_expression_render : SqlGenerationError
  dynamic_marker_missing : String → SqlGenerationError
  dynamic_order_marker_render : String → SqlGenerationError
  template_sentinel_exhausted : SqlGenerationError
  empty_query_plan : SqlGenerationError

pub data Outcome {ℓ} (A : Type ℓ) : Type ℓ where
  done : A → Outcome A
  failed : SqlGenerationError → Outcome A
