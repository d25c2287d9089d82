-- ===== src/Sql/Builder.antt =====
-- What crates/dsql-core takes from `sea_query`: its expressions, conditions and `SELECT` statements.
-- They are parameters of the model.
use dsql.Prelude.{ℕ, String, Bool, List}
use dsql.Prelude.Int.{ℤ}

pub record Builder : Type 1 where
  pub Expr : Type 0
  pub Condition : Type 0
  pub Select : Type 0
  -- `Expr::col`, of a table alias and a column.
  pub col : String → String → Expr
  pub and_expr : Expr → Expr → Expr
  pub or_expr : Expr → Expr → Expr
  pub eq_expr : Expr → Expr → Expr
  pub ne_expr : Expr → Expr → Expr
  pub gt_expr : Expr → Expr → Expr
  pub gte_expr : Expr → Expr → Expr
  pub lt_expr : Expr → Expr → Expr
  pub lte_expr : Expr → Expr → Expr
  -- `Expr::cust` and `Expr::cust_with_exprs`
  pub cust : String → Expr
  pub cust_with_exprs : String → List Expr → Expr
  pub value_text : String → Expr
  pub value_i64 : ℤ → Expr
  pub value_u64 : ℕ → Expr
  pub value_bool : Bool → Expr
  -- `Expr::case(guard, value).finally(Expr::null())`
  pub case_or_null : Expr → Expr → Expr
  pub exists_query : Select → Expr
  pub sub_query : Select → Expr
  -- `Expr::col(Asterisk)` and the aggregates of `Func`
  pub asterisk : Expr
  pub count_of : Expr → Expr
  pub min_of : Expr → Expr
  pub max_of : Expr → Expr
  pub sum_of : Expr → Expr
  pub avg_of : Expr → Expr
  -- `Condition::all` and `add` of `Expr::col(..).equals(..)`
  pub all_conditions : Condition
  pub add_equals : Condition → (String × String) → (String × String) → Condition
  -- `Query::select` and its methods
  pub select : Select
  pub select_expr : Expr → Select → Select
  pub from_as : (String × String) → String → Select → Select
  pub cond_where : Condition → Select → Select
  pub and_where : Expr → Select → Select
  -- `column(Asterisk)`; `order_by_expr` and `order_by` of a column, ascending or not
  pub column_asterisk : Select → Select
  pub order_by_expr : Expr → Bool → Select → Select
  pub order_by : (String × String) → Bool → Select → Select
  pub limit : ℕ → Select → Select
  pub offset : ℕ → Select → Select
  -- `to_string(PostgresQueryBuilder)`
  pub to_text : Select → String
