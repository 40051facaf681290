-- ===== src/Query/Walk.antt =====
-- `sqlp.Walk` with the visitors of query/validate.go, as the list of the nodes that a visitor is shown. The
-- library's walk enters neither the bodies of a WITH clause nor the statement of a subquery in an
-- expression; `cteCollector` and `checkVisitor` walk these themselves (`deep`), `visitFunc` does not.
pub mod Every
use pooml.Base.{ℕ, Bool, true, false, List, [], ◌∷◌, ◌++◌, Option, none, some, if◌then◌else◌}
use pooml.Bytes.{Bytes}
use pooml.Query.Ast.{
  Expr, ident, qualified_ref, string_lit, number_lit, bind_expr, paren_expr, binary, call,
  select_expr, other, Exprs, nil, cons, Source, table, table_function, join, subquery, no_source,
  Ctes, end, cte, Stmt, stmt, compound, Column, star, expr_column, Select,
}

-- The nodes that a visitor tells apart.
pub data Visit : Type 0 where
  with_clause : Bool → List Bytes → Visit  -- recursive or not, and the names
  table_name : Option Bytes → Bytes → Visit
  function_name : Bytes → Visit  -- a table-valued function
  function_call : Bytes → Bool → Visit

abbrev pub cte_names : Ctes → List Bytes
cte_names end = []
cte_names (cte name body ctes) = name ∷ cte_names ctes

unfoldable mutual
  pub visits_expr : Bool → Expr → List Visit
  visits_expr deep (paren_expr e) = visits_expr deep e
  visits_expr deep (binary x op y) = visits_expr deep x ++ visits_expr deep y
  visits_expr deep (call name over args) = function_call name over ∷ visits_exprs deep args
  visits_expr deep (select_expr s) = let inner = visits_stmt deep s in if deep then inner else []
  visits_expr deep (other n args) = visits_exprs deep args
  visits_expr deep _ = []

  pub visits_exprs : Bool → Exprs → List Visit
  visits_exprs deep nil = []
  visits_exprs deep (cons e es) = visits_expr deep e ++ visits_exprs deep es

  pub visits_source : Bool → Source → List Visit
  visits_source deep (table schema name) = table_name schema name ∷ []
  visits_source deep (table_function name args) = function_name name ∷ visits_exprs deep args
  visits_source deep (join x y on) =
      visits_source deep x ++ (visits_source deep y ++ visits_exprs deep on)
  visits_source deep (subquery s) = visits_stmt deep s
  visits_source deep no_source = []

  pub visits_bodies : Bool → Ctes → List Visit
  visits_bodies deep end = []
  visits_bodies deep (cte name body ctes) = visits_stmt deep body ++ visits_bodies deep ctes

  pub visits_with : Bool → Bool → Ctes → List Visit
  visits_with deep recursive end = []
  visits_with deep recursive (cte name body ctes) =
      let bodies = visits_stmt deep body ++ visits_bodies deep ctes in
      with_clause recursive (name ∷ cte_names ctes) ∷ (if deep then bodies else [])

  pub visits_stmt : Bool → Stmt → List Visit
  visits_stmt deep (stmt recursive ctes source exprs) =
      visits_with deep recursive ctes ++ (visits_source deep source ++ visits_exprs deep exprs)
  visits_stmt deep (compound s t) = visits_stmt deep s ++ visits_stmt deep t

-- The expressions of a statement's clauses, in the order of the text.
abbrev pub of_option : Option Expr → Exprs → Exprs
of_option none es = es
of_option (some e) es = cons e es

abbrev pub of_list : List Expr → Exprs → Exprs
of_list [] rest = rest
of_list (e ∷ es) rest = cons e (of_list es rest)

abbrev pub of_columns : List Column → Exprs → Exprs
of_columns [] rest = rest
of_columns (star ∷ columns) rest = of_columns columns rest
of_columns (expr_column e ∷ columns) rest = cons e (of_columns columns rest)

-- A top-level SELECT and its compound parts, as a nested one.
abbrev pub nested : Select → Stmt
nested s = stmt s.recursive s.ctes s.source (
    of_columns s.columns (
      of_option s.where_expr (
        of_list s.group_by_exprs (
          of_option s.having_expr (
            of_list s.windows
              (of_list s.ordering_terms (of_option s.limit_expr (of_option s.offset_expr nil))))))))

abbrev pub nested_all : Select → List Select → Stmt
nested_all s [] = nested s
nested_all s (t ∷ parts) = compound (nested s) (nested_all t parts)
