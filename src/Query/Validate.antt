-- ===== src/Query/Validate.antt =====
-- query/validate.go. Parsing is an argument, since the parser is a library; `some []` stands for a text with no
-- statement.
pub mod Allowed
pub mod Names
pub mod Limit
use pooml.Base.{
  ℕ, Bool, true, false, not, ◌&&◌, ◌||◌, List, [], ◌∷◌, ◌++◌, Option, none, some, ltb, leb, length,
  if◌then◌else◌, map,
}
use pooml.Base.Int.{ℤ, pos, negsuc}
use pooml.Bytes.{Bytes, codes, str_eq}
use pooml.Strings.{to_lower, itoa}
use pooml.Query.Ast.{
  Expr, number_lit, Column, star, expr_column, Select, Parsed, select_statement, other_statement,
}
use pooml.Query.Walk.{
  Visit, with_clause, table_name, function_name, function_call, visits_expr, visits_stmt,
  nested_all,
}
use pooml.Query.Rewrite.{Shape, log_viewer, aggregation, Validated, max_rows}

pub data ValidateError : Type 0 where
  invalid_sql not_select multiple_statements with_recursive : ValidateError
  schema_qualified table_not_allowed table_valued_function function_not_allowed : ValidateError
  metrics_not_available logs_not_available : ValidateError

pub data Scope : Type 0 where
  scope_all scope_logs scope_metrics : Scope

-- Membership in a set of names
unfoldable pub has : Bytes → List Bytes → Bool
has name [] = false
has name (n ∷ names) = str_eq n name || has name names

abbrev pub allowed_tables : List Bytes
allowed_tables = codes "logs" ∷ codes "logs_fts" ∷ codes "metrics" ∷ []

abbrev pub banned_functions : List Bytes
banned_functions = codes "load_extension" ∷ []

abbrev pub aggregate_functions : List Bytes
aggregate_functions =
    codes "count"
    ∷ codes "sum"
    ∷ codes "avg"
    ∷ codes "min"
    ∷ codes "max"
    ∷ codes "total"
    ∷ codes "group_concat"
    ∷ codes "string_agg"
    ∷ []

abbrev pub lower : Bytes → Bytes
lower name = map to_lower name

-- `collectCTEs`: `none` for a recursive clause
unfoldable pub collect_ctes : List Visit → Option (List Bytes)
collect_ctes [] = some []
collect_ctes (with_clause recursive names ∷ visits) =
    let rest = collect_ctes visits in
    if recursive
    then none
    else elim rest [ none ↦ none | some more ↦ some (map lower names ++ more) ]
collect_ctes (table_name schema name ∷ visits) = collect_ctes visits
collect_ctes (function_name name ∷ visits) = collect_ctes visits
collect_ctes (function_call name over ∷ visits) = collect_ctes visits

pub data Checked : Type 0 where
  referenced : List Bytes → Checked  -- the real tables seen
  refused : ValidateError → Checked

abbrev pub also : Bool → Bytes → Checked → Checked
also true name (referenced names) = referenced (name ∷ names)
also _ name c = c

-- `checkVisitor`
unfoldable pub check : List Bytes → List Visit → Checked
unfolding has
check ctes [] = referenced []
check ctes (with_clause recursive names ∷ visits) = check ctes visits
check ctes (table_name (some schema) name ∷ visits) = refused schema_qualified
check ctes (table_name none name ∷ visits) =
    let rest = check ctes visits in
    let is_cte = has (lower name) ctes in
    let is_allowed = has (lower name) allowed_tables in
    if not is_allowed && not is_cte
    then refused table_not_allowed
    else also (is_allowed && not is_cte) (lower name) rest
check ctes (function_name name ∷ visits) = refused table_valued_function
check ctes (function_call name over ∷ visits) =
    let rest = check ctes visits in
    if has (lower name) banned_functions then refused function_not_allowed else rest

unfoldable pub check_scope : Scope → Bool → Bool → Option ValidateError
check_scope scope_logs reads_logs reads_metrics =
    if reads_metrics then some metrics_not_available else none
check_scope scope_metrics reads_logs reads_metrics =
    if reads_logs then some logs_not_available else none
check_scope scope_all reads_logs reads_metrics = none

unfoldable pub any_aggregate : List Visit → Bool
unfolding has
any_aggregate [] = false
any_aggregate (function_call name over ∷ visits) =
    (has (lower name) aggregate_functions || over) || any_aggregate visits
any_aggregate (_ ∷ visits) = any_aggregate visits

unfoldable pub expr_has_aggregate : Expr → Bool
unfolding any_aggregate visits_expr
expr_has_aggregate e = any_aggregate (visits_expr false e)

unfoldable pub any_column : List Column → Bool
unfolding expr_has_aggregate
any_column [] = false
any_column (star ∷ columns) = any_column columns
any_column (expr_column e ∷ columns) = expr_has_aggregate e || any_column columns

abbrev pub is_set {ℓ} : {A : Type ℓ} → Option A → Bool
is_set none = false
is_set (some a) = true

-- One part of `detectShape`
unfoldable pub is_aggregation : Select → Bool
unfolding any_column
is_aggregation s =
    (ltb 0 (length s.group_by_exprs)
      || is_set s.having_expr
      || s.distinct
      || ltb 0 (length s.windows))
    || any_column s.columns

unfoldable pub detect_shape : Select → List Select → Shape
unfolding is_aggregation
detect_shape s [] = if is_aggregation s then aggregation else log_viewer
detect_shape s (t ∷ parts) =
    let rest = detect_shape t parts in if is_aggregation s then aggregation else rest

-- The limit that `clampLimit` leaves. `atoi` is `strconv.Atoi`.
unfoldable pub clamped_limit : (Bytes → Option ℤ) → Option Expr → Expr
clamped_limit atoi none = number_lit (itoa max_rows)
clamped_limit atoi (some (number_lit value)) = elim (atoi value) [
  | some (pos n) ↦ if ltb max_rows n then number_lit (itoa max_rows) else number_lit value
  | _ ↦ number_lit value
]
clamped_limit atoi (some e) = e

unfoldable pub clamp_limit : (Bytes → Option ℤ) → Select → Select
unfolding clamped_limit
clamp_limit atoi s = record s { limit_expr = some (clamped_limit atoi s.limit_expr) }

-- What `ValidateIn` returns, with `ReadsLogs` and `ReadsMetrics`.
pub data Validation : Type 0 where
  valid : Validated → Bool → Bool → Validation
  invalid : ValidateError → Validation

-- `ValidateIn` behind its two walks
unfoldable pub finish : (Bytes → Option ℤ) → Scope → Select → List Select → List Bytes → Validation
unfolding has check_scope detect_shape clamp_limit
finish atoi scope s parts names =
    let reads_logs = has (codes "logs") names || has (codes "logs_fts") names in
    let reads_metrics = has (codes "metrics") names in
    elim (check_scope scope reads_logs reads_metrics) [
      | some e ↦ invalid e
      | none ↦
          valid
            (record {
              stmt = clamp_limit atoi s;
              shape = detect_shape s parts;
              is_compound = ltb 0 (length parts);
            })
            reads_logs reads_metrics
    ]

unfoldable pub validate_select : (Bytes → Option ℤ) → Scope → Select → List Select → Validation
unfolding collect_ctes check visits_stmt finish
validate_select atoi scope s parts =
    let visits = visits_stmt true (nested_all s parts) in
    elim (collect_ctes visits) [
      | none ↦ invalid with_recursive
      | some ctes ↦ elim (check ctes visits) [
        | refused e ↦ invalid e
        | referenced names ↦ finish atoi scope s parts names
      ]
    ]

unfoldable pub validate_parsed : (Bytes → Option ℤ) → Scope → Option (List Parsed) → Validation
unfolding validate_select
validate_parsed atoi scope none = invalid invalid_sql
validate_parsed atoi scope (some []) = invalid not_select
validate_parsed atoi scope (some (a ∷ b ∷ rest)) = invalid multiple_statements
validate_parsed atoi scope (some (other_statement ∷ [])) = invalid not_select
validate_parsed atoi scope (some (select_statement s parts ∷ [])) =
    validate_select atoi scope s parts

-- `Validate` is the case of `scope_all`.
unfoldable pub validate_in :
    (Bytes → Option (List Parsed)) → (Bytes → Option ℤ) → Bytes → Scope → Validation
unfolding validate_parsed
validate_in parse atoi q scope = validate_parsed atoi scope (parse q)
