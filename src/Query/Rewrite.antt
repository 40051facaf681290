-- ===== src/Query/Rewrite.antt =====
-- query/rewrite.go. Parsing a template is a function argument, since the parser is a library.
pub mod Filter
pub mod Meaning
use pooml.Base.{
  ℕ, suc, Bool, true, false, not, ◌&&◌, ◌||◌, List, [], ◌∷◌, ◌++◌, Option, none, some, ltb, ◌==◌,
  if◌then◌else◌, map, length, leb,
}
use pooml.Base.Int.{ℤ, pos, negsuc}
use pooml.Bytes.{Bytes, codes, str_eq}
use pooml.Strings.{to_lower, itoa}
use pooml.Query.Ast.{
  Op, and_op, or_op, eq_op, lt_op, gt_op, other_op, Expr, ident, qualified_ref, string_lit,
  number_lit, bind_expr, paren_expr, binary, call, select_expr, other, Exprs, nil, cons, Source,
  table, table_function, join, subquery, no_source, Column, star, expr_column, Select,
}
use pooml.Query.Walk.{Visit, table_name, visits_expr, visits_source}

pub data Shape : Type 0 where
  log_viewer aggregation : Shape

pub data RewriteError : Type 0 where
  unsupported_shape not_a_number unsupported_column page_size_out_of_range : RewriteError

-- `Validated`
pub record Validated : Type 0 where
  pub stmt : Select
  pub shape : Shape
  pub is_compound : Bool

pub data Rewritten : Type 0 where
  ok : Validated → Rewritten
  err : RewriteError → Rewritten

abbrev pub max_rows : ℕ
max_rows = 10000

-- `strconv.FormatInt`
unfoldable pub format_int : ℤ → Bytes
format_int (pos n) = itoa n
format_int (negsuc n) = b'-' ∷ itoa (suc n)

abbrev pub is_log_viewer : Shape → Bool
is_log_viewer log_viewer = true
is_log_viewer aggregation = false

unfoldable pub paren : Expr → Expr
paren (paren_expr e) = paren_expr e
paren e = paren_expr e

unfoldable pub eq_col_name : Expr → Bytes
eq_col_name (ident name) = map to_lower name
eq_col_name (qualified_ref t (some column)) = map to_lower column
eq_col_name _ = []

abbrev pub is_literal : Expr → Bool
is_literal (string_lit s) = true
is_literal (number_lit s) = true
is_literal _ = false

abbrev pub or_else : Option Expr → Option Expr → Option Expr
or_else (some e) f = some e
or_else none f = f

-- `findConjunctEq` with the assignment to the conjunct's right side: the expression with the
-- conjunct's literal replaced, or `none` where there is no such conjunct.
unfoldable pub set_conjunct_eq : Bytes → Expr → Expr → Option Expr
unfolding eq_col_name
set_conjunct_eq col lit (paren_expr e) = elim (set_conjunct_eq col lit e) [
  | none ↦ none
  | some e' ↦ some (paren_expr e')
]
set_conjunct_eq col lit (binary x and_op y) = elim (set_conjunct_eq col lit x) [
  | some x' ↦ some (binary x' and_op y)
  | none ↦ elim (set_conjunct_eq col lit y) [ none ↦ none | some y' ↦ some (binary x and_op y') ]
]
set_conjunct_eq col lit (binary x eq_op y) =
    if str_eq (eq_col_name x) col && is_literal y then some (binary x eq_op lit) else none
set_conjunct_eq col lit _ = none

-- `WhereExpr`, with a condition added behind it
unfoldable pub and_where : Option Expr → Expr → Expr
unfolding paren
and_where none cond = cond
and_where (some w) cond = binary (paren w) and_op cond

-- The new condition of `ApplyQuickFilter`
unfoldable pub filter_where : Bytes → Expr → Option Expr → Expr
unfolding set_conjunct_eq and_where
filter_where column lit none = binary (ident column) eq_op lit
filter_where column lit (some w) = elim (set_conjunct_eq column lit w) [
  | some w' ↦ w'
  | none ↦ and_where (some w) (binary (ident column) eq_op lit)
]

abbrev pub with_where : Validated → Expr → Validated
with_where v e = record v { stmt = record v.stmt { where_expr = some e } }

abbrev pub quick_literal : (Bytes → Option ℤ) → Bytes → Bytes → Option (Option Expr)
quick_literal atoi column value =
    if str_eq column (codes "service") || str_eq column (codes "host")
    then some (some (string_lit value))
    else if str_eq column (codes "level")
    then elim (atoi value) [ none ↦ some none | some n ↦ some (some (number_lit value)) ]
    else none

abbrev pub less_than : Bytes → ℤ → Expr
less_than col n = binary (ident col) lt_op (number_lit (format_int n))

unfoldable pub page_condition : ℤ → ℤ → Expr
unfolding paren format_int
page_condition before_ts before_id =
    let ts_eq = binary (ident (codes "timestamp")) eq_op (number_lit (format_int before_ts)) in
    paren (
      binary (less_than (codes "timestamp") before_ts) or_op
        (paren (binary ts_eq and_op (less_than (codes "id") before_id))))

-- `HasConditions`
unfoldable pub has_conditions : Validated → Bool
has_conditions v = elim v.stmt.where_expr [ none ↦ false | some e ↦ true ]

-- `referencesFTS`
unfoldable pub any_fts : List Visit → Bool
any_fts [] = false
any_fts (table_name schema name ∷ visits) =
    str_eq (map to_lower name) (codes "logs_fts") || any_fts visits
any_fts (_ ∷ visits) = any_fts visits

unfoldable pub references_fts : Source → Bool
unfolding any_fts visits_expr
references_fts source = any_fts (visits_source false source)

-- The join of a template, with its left side replaced
abbrev pub join_from : Source → Source → Source
join_from x (join _ y on) = join x y on
join_from x s = s

abbrev pub is_bare_star : List Column → Bool
is_bare_star (star ∷ []) = true
is_bare_star _ = false

-- The MATCH condition in front of the WHERE clause
unfoldable pub match_where : Op → Option Expr → Option Expr → Option Expr
unfolding paren
match_where op none where_expr = where_expr
match_where op (some match_expr) none = some match_expr
match_where op (some match_expr) (some w) = some (binary match_expr op (paren w))

abbrev pub has_source : Source → Bool
has_source no_source = false
has_source _ = true

module _ (must_parse : Bytes → Select) where
  -- The drill-down of an aggregation
  unfoldable pub drill_down : Validated → Validated
  drill_down v =
      let tpl = must_parse (codes "SELECT * FROM logs ORDER BY timestamp ASC LIMIT 50") in
      if is_log_viewer v.shape then v else record v {
        stmt = record v.stmt {
          columns = tpl.columns;
          group_by_exprs = [];
          having_expr = none;
          windows = [];
          distinct = false;
          ordering_terms = tpl.ordering_terms;
          limit_expr = tpl.limit_expr;
        };
        shape = log_viewer;
      }

  unfoldable pub filtered : Bytes → Expr → Validated → Validated
  unfolding drill_down filter_where
  filtered column lit v =
      let d = drill_down v in with_where d (filter_where column lit d.stmt.where_expr)

  unfoldable pub apply_quick_filter : (Bytes → Option ℤ) → Bytes → Bytes → Validated → Rewritten
  unfolding filtered
  apply_quick_filter atoi column value v =
      if v.is_compound then err unsupported_shape else elim (quick_literal atoi column value) [
        | none ↦ err unsupported_column
        | some none ↦ err not_a_number
        | some (some lit) ↦ ok (filtered column lit v)
      ]

  -- The WHERE clause of a template
  abbrev pub template_where : Bytes → Option Expr
  template_where q = (must_parse q).where_expr

  abbrev pub window_template : ℤ → ℤ → Bytes
  window_template from to =
      codes "SELECT * FROM logs WHERE timestamp BETWEEN "
      ++ (format_int from ++ (codes " AND " ++ format_int to))

  -- `none` for a template without a WHERE clause, which leaves a nil operand
  abbrev pub add_condition : Validated → Option Expr → Validated
  add_condition v none = v
  add_condition v (some cond) = with_where v (and_where v.stmt.where_expr cond)

  unfoldable pub apply_window : ℤ → ℤ → Validated → Rewritten
  unfolding format_int and_where
  apply_window from to v =
      if v.is_compound
      then err unsupported_shape
      else ok (add_condition v (template_where (window_template from to)))

  abbrev pub ordered : Validated → Bytes → ℕ → Validated
  ordered v q limit = record v {
    stmt = record v.stmt {
      ordering_terms = (must_parse q).ordering_terms;
      limit_expr = some (number_lit (itoa limit));
      offset_expr = none;
    };
  }

  unfoldable pub apply_stream_cursor : ℕ → Validated → Rewritten
  unfolding and_where
  apply_stream_cursor limit v =
      let cond = binary (ident (codes "id")) gt_op (bind_expr (codes "?")) in
      if not (is_log_viewer v.shape) || v.is_compound
      then err unsupported_shape
      else ok (
          ordered (with_where v (and_where v.stmt.where_expr cond))
            (codes "SELECT * FROM logs ORDER BY id ASC") limit)

  unfoldable pub apply_pagination : ℤ → ℤ → ℤ → Validated → Rewritten
  unfolding page_condition and_where
  apply_pagination before_ts before_id (negsuc n) v =
      if not (is_log_viewer v.shape) || v.is_compound
      then err unsupported_shape
      else err page_size_out_of_range
  apply_pagination before_ts before_id (pos page_size) v =
      if not (is_log_viewer v.shape) || v.is_compound
      then err unsupported_shape
      else if leb page_size 0 || ltb max_rows page_size
      then err page_size_out_of_range
      else ok (
          ordered (with_where v (and_where v.stmt.where_expr (page_condition before_ts before_id)))
            (codes "SELECT * FROM logs ORDER BY timestamp DESC, id DESC") page_size)

  -- What the AND form does to the statement's source and columns.
  unfoldable pub join_fts : Select → Select
  unfolding references_fts
  join_fts s =
      let tpl =
        must_parse (codes "SELECT * FROM logs JOIN logs_fts ON logs.id = logs_fts.\"rowid\"") in
      if references_fts s.source then s else record s {
        source = join_from s.source tpl.source;
        columns =
            if is_bare_star s.columns
            then (must_parse (codes "SELECT logs.* FROM logs")).columns
            else s.columns;
      }

  unfoldable pub combine_fts : Bytes → Validated → Rewritten
  unfolding join_fts match_where
  combine_fts op v =
      if not (is_log_viewer v.shape) || v.is_compound || not (has_source v.stmt.source)
      then err unsupported_shape
      else if str_eq (map to_lower op) (codes "or")
      then ok (record v {
        stmt = record v.stmt {
          where_expr =
              match_where or_op
                (template_where (
                  codes
                    "SELECT * FROM logs WHERE logs.id IN (SELECT \"rowid\" FROM logs_fts WHERE logs_fts.raw MATCH ?)"))
                v.stmt.where_expr;
        };
      })
      else ok (record v {
        stmt = record (join_fts v.stmt) {
          where_expr =
              match_where and_op
                (template_where (codes "SELECT * FROM logs_fts WHERE logs_fts.raw MATCH ?"))
                v.stmt.where_expr;
        };
      })
