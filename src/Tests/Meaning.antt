-- ===== src/Tests/Meaning.antt =====
-- A reading of conditions over rows of a time and an id, and a page of them.
use pooml.Base.{ℕ, ◌≤◌, ◌<◌, ◌≡◌, refl, ap, true, false, ◌&&◌, [], ◌∷◌, none, some, if◌then◌else◌}
use pooml.Base.Int.{ℤ, pos, negsuc, ltb_ℤ}
use pooml.Bytes.{Bytes, codes, str_eq}
use pooml.Strings.{itoa, to_lower}
use pooml.Strings.Numbers.{read_int, read_int-itoa, read_int-minus}
use pooml.Query.Ast.{
  and_op, or_op, eq_op, lt_op, Expr, ident, string_lit, number_lit, paren_expr, binary, end,
  no_source, Select, star,
}
use pooml.Query.Rewrite.{
  log_viewer, Validated, ok, format_int, eq_col_name, quick_literal, apply_quick_filter, filtered,
  drill_down, filter_where, set_conjunct_eq, and_where, page_condition, apply_pagination,
}
use pooml.Query.Rewrite.Meaning.{
  Meaning, Truth, and_3, or_3, eqb_ℤ, is_true, keeps, is_behind, apply_pagination-keeps,
  apply_quick_filter-keeps,
}

read_int-format_int : (n : ℤ) → read_int (format_int n) ≡ n
unfolding format_int
read_int-format_int (pos n) = read_int-itoa n
read_int-format_int (negsuc n) = read_int-minus n

-- A row is its time, its id and its service.
abbrev Row : Type 0
Row = ℤ × ℤ × Bytes

truth : Expr → Row → Truth
truth (paren_expr e) r = truth e r
truth (binary x and_op y) r = and_3 (truth x r) (truth y r)
truth (binary x or_op y) r = or_3 (truth x r) (truth y r)
truth (binary (ident c) lt_op (number_lit s)) r =
    if str_eq c (codes "timestamp")
    then some (ltb_ℤ r.0 (read_int s))
    else some (ltb_ℤ r.1 (read_int s))
truth (binary (ident c) eq_op (number_lit s)) r = some (eqb_ℤ r.0 (read_int s))
truth (binary (ident c) eq_op (string_lit s)) r = some (str_eq r.2 s)
truth _ r = none

reading : Meaning Row
unfolding truth str_eq
reading = record {
  truth = truth;
  timestamp = λ r. r.0;
  id = λ r. r.1;
  truth-paren = λ e r. refl;
  truth-and = λ x y r. refl;
  truth-or = λ x y r. refl;
  timestamp_lt = λ n r. ap (λ k. some (ltb_ℤ r.0 k)) (read_int-format_int n);
  timestamp_eq = λ n r. ap (λ k. some (eqb_ℤ r.0 k)) (read_int-format_int n);
  id_lt = λ n r. ap (λ k. some (ltb_ℤ r.1 k)) (read_int-format_int n);
}

abbrev logs : Select
logs = record {
  recursive = false;
  ctes = end;
  distinct = false;
  columns = star ∷ [];
  source = no_source;
  where_expr = some (binary (ident (codes "service")) eq_op (string_lit (codes "api")));
  group_by_exprs = [];
  having_expr = none;
  windows = [];
  ordering_terms = [];
  limit_expr = none;
  offset_expr = none;
}

abbrev query : Validated
query = record { stmt = logs; shape = log_viewer; is_compound = false }

abbrev a_row : Row
a_row = (pos 100, pos 6, codes "api")

abbrev page : Validated
page = record query {
  stmt = record logs {
    where_expr = some (and_where logs.where_expr (page_condition (pos 100) (pos 7)));
    limit_expr = some (number_lit (itoa 50));
  };
}

page_made : apply_pagination (λ q. logs) (pos 100) (pos 7) (pos 50) query ≡ ok page
unfolding apply_pagination
page_made = refl

apply_pagination-keeps_example :
    (keeps reading page.stmt.where_expr a_row
      ≡ keeps reading query.stmt.where_expr a_row && is_behind reading (pos 100) (pos 7) a_row)
    × ((n : ℕ) × (page.stmt.limit_expr ≡ some (number_lit (itoa n))) × (0 < n) × (n ≤ 10000))
    × (page.stmt.offset_expr ≡ none)
apply_pagination-keeps_example =
    apply_pagination-keeps reading (λ q. logs) (pos 100) (pos 7) (pos 50) query page a_row page_made

retargeted :
    apply_quick_filter (λ q. logs) (λ s. none) (codes "service") (codes "api") query ≡ ok query
unfolding apply_quick_filter filtered drill_down filter_where set_conjunct_eq eq_col_name to_lower
    str_eq
retargeted = refl

row_kept : keeps reading query.stmt.where_expr a_row ≡ true
unfolding reading truth str_eq
row_kept = refl

apply_quick_filter-keeps_example :
    (lit : Expr) × (quick_literal (λ s. none) (codes "service") (codes "api") ≡ some (some lit))
    × ((x : Expr) × (eq_col_name x ≡ codes "service")
        × (is_true (reading.truth (binary x eq_op lit) a_row) ≡ true))
apply_quick_filter-keeps_example =
    apply_quick_filter-keeps reading (λ q. logs) (λ s. none) (codes "service") (codes "api") query
      query a_row retargeted row_kept
