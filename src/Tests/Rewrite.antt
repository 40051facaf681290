-- ===== src/Tests/Rewrite.antt =====
-- A statement of the logs page through validation, filters and pages.
use pooml.Base.{
  ◌≤◌, ◌<◌, ◌≡◌, ◌≢◌, ◌⊎◌, refl, true, false, List, [], ◌∷◌, Option, none, some, map, length,
}
use pooml.Base.Int.{ℤ, pos}
use pooml.Bytes.{Bytes, codes, str_eq}
use pooml.Strings.{itoa, digits_of, to_lower}
use pooml.Query.Ast.{eq_op, Expr, ident, string_lit, number_lit, binary, table, end, star, Select}
use pooml.Query.Walk.{visits_stmt, nested_all}
use pooml.Query.Walk.Every.{EveryStmt}
use pooml.Query.Rewrite.{
  log_viewer, Validated, ok, max_rows, eq_col_name, set_conjunct_eq, filter_where, filtered,
  drill_down, apply_quick_filter,
}
use pooml.Query.Rewrite.Filter.{apply_quick_filter_twice}
use pooml.Query.Validate.{
  scope_logs, valid, validate_select, collect_ctes, check, has, finish, check_scope, detect_shape,
  is_aggregation, any_column, clamp_limit, clamped_limit,
}
use pooml.Query.Validate.Allowed.{IsSafe, validate_select-IsSafe}
use pooml.Query.Validate.Limit.{validate_select-limit}
use pooml.Query.Execute.{
  Cell, blob, text, Fetched, row, execute, scan_rows, stringified, fetched_rows, total_bytes,
  but_last, execute-Taken,
}

-- SELECT * FROM logs WHERE service = 'api' LIMIT 20000
abbrev logs : Select
logs = record {
  recursive = false;
  ctes = end;
  distinct = false;
  columns = star ∷ [];
  source = table none (codes "Logs");
  where_expr = some (binary (ident (codes "Service")) eq_op (string_lit (codes "api")));
  group_by_exprs = [];
  having_expr = none;
  windows = [];
  ordering_terms = [];
  limit_expr = some (number_lit (codes "20000"));
  offset_expr = none;
}

-- A reader of two numbers
abbrev atoi : Bytes → Option ℤ
atoi s = elim (str_eq s (codes "20000")) [
  | true ↦ some (pos 20000)
  | false ↦ elim (str_eq s (codes "10000")) [ true ↦ some (pos 10000) | false ↦ none ]
]

abbrev clamped : Validated
clamped = record {
  stmt = record logs { limit_expr = some (number_lit (codes "10000")) };
  shape = log_viewer;
  is_compound = false;
}

logs_accepted : validate_select atoi scope_logs logs [] ≡ valid clamped true false
unfolding validate_select visits_stmt collect_ctes check has finish check_scope detect_shape
    is_aggregation any_column clamp_limit clamped_limit itoa digits_of to_lower str_eq
logs_accepted = refl

validate_select-IsSafe_example :
    (ctes : List Bytes) × (collect_ctes (visits_stmt true (nested_all logs [])) ≡ some ctes)
    × EveryStmt (IsSafe scope_logs ctes) (nested_all logs [])
validate_select-IsSafe_example =
    validate_select-IsSafe atoi scope_logs logs [] clamped true false logs_accepted

reads_back : atoi (itoa max_rows) ≡ some (pos max_rows)
unfolding itoa digits_of str_eq
reads_back = refl

large : atoi (codes "20000") ≡ some (pos 20000)
unfolding str_eq
large = refl

validate_select-limit_example :
    (limit : Expr) × (clamped.stmt.limit_expr ≡ some limit)
    × ((limit ≢ number_lit (codes "20000")) ⊎ (20000 ≤ max_rows))
validate_select-limit_example =
    validate_select-limit atoi scope_logs logs [] clamped true false (codes "20000") 20000
      reads_back logs_accepted large

abbrev templates : Bytes → Select
templates q = logs

abbrev with_service : Bytes → Validated
with_service value = record clamped {
  stmt = record clamped.stmt {
    where_expr = some (binary (ident (codes "Service")) eq_op (string_lit value));
  };
}

clicked :
    apply_quick_filter templates atoi (codes "service") (codes "a'b") clamped
    ≡ ok (with_service (codes "a'b"))
unfolding apply_quick_filter filtered drill_down filter_where set_conjunct_eq eq_col_name to_lower
    str_eq
clicked = refl

apply_quick_filter_twice_example :
    apply_quick_filter templates atoi (codes "service") (codes "c") (with_service (codes "a'b"))
    ≡ apply_quick_filter templates atoi (codes "service") (codes "c") clamped
apply_quick_filter_twice_example =
    apply_quick_filter_twice templates atoi (codes "service") (codes "a'b") (codes "c") clamped
      (with_service (codes "a'b")) clicked

execute-Taken_example :
    (taken : List (List Cell)) × (rest : List Fetched) × (row (blob (codes "x") ∷ []) ∷ []
      ≡ fetched_rows taken rest)
    × ((text (codes "x") ∷ []) ∷ [] ≡ map stringified taken)
    × (length {A = List Cell} ((text (codes "x") ∷ []) ∷ []) ≤ max_rows)
    × (total_bytes (but_last taken) < 67108864)
    × ((false ≡ true) ⊎ (rest ≡ []))
unfolding execute scan_rows stringified
execute-Taken_example =
    execute-Taken (row (blob (codes "x") ∷ []) ∷ []) ((text (codes "x") ∷ []) ∷ []) false refl
