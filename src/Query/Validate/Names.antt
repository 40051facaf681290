-- ===== src/Query/Validate/Names.antt =====
-- The names of WITH clauses, of which `collectCTEs` keeps no scope.
use pooml.Base.{◌≡◌, false, [], ◌∷◌, Option, none, some, arith}
use pooml.Base.Int.{ℤ}
use pooml.Bytes.{Bytes, codes, str_eq_self}
use pooml.Query.Ast.{
  select_expr, nil, cons, number_lit, table, no_source, end, cte, Stmt, stmt, star, Select,
}
use pooml.Query.Walk.{visits_expr}
use pooml.Query.Rewrite.{log_viewer}
use pooml.Query.Validate.{
  Scope, scope_all, scope_logs, scope_metrics, has, lower, collect_ctes, check, check_scope, valid,
  finish, validate_select, clamp_limit, detect_shape, is_aggregation, any_column,
}

-- SELECT 1
abbrev one : Stmt
one = stmt false end no_source (cons (number_lit (codes "1")) nil)

-- SELECT * FROM name WHERE (WITH name AS (SELECT 1) SELECT 1): the clause binds the name inside the
-- parentheses only, and the table outside of them is the real one.
abbrev borrowed : Bytes → Select
borrowed name = record {
  recursive = false;
  ctes = end;
  distinct = false;
  columns = star ∷ [];
  source = table none name;
  where_expr =
      some
        (select_expr (stmt false (cte name one end) no_source (cons (number_lit (codes "1")) nil)));
  group_by_exprs = [];
  having_expr = none;
  windows = [];
  ordering_terms = [];
  limit_expr = none;
  offset_expr = none;
}

-- Validation accepts this statement in every scope, whatever the table, and reports that it reads
-- neither logs nor metrics.
validate_select-borrowed :
    (atoi : Bytes → Option ℤ) (scope : Scope) (name : Bytes)
    → validate_select atoi scope (borrowed name) []
      ≡ valid
          (record {
            stmt = clamp_limit atoi (borrowed name);
            shape = log_viewer;
            is_compound = false;
          })
          false
          false
unfolding validate_select visits_expr collect_ctes check has finish check_scope detect_shape
    is_aggregation any_column
validate_select-borrowed atoi scope_all name = ground (arith, str_eq_self (lower name))
validate_select-borrowed atoi scope_logs name = ground (arith, str_eq_self (lower name))
validate_select-borrowed atoi scope_metrics name = ground (arith, str_eq_self (lower name))
