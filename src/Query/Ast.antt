-- ===== src/Query/Ast.antt =====
-- The statement tree of github.com/rqlite/sql, as far as query/validate.go and query/rewrite.go tell its
-- nodes apart. Every other node is `other`, with its children.
use pooml.Base.{ℕ, Bool, List, Option}
use pooml.Bytes.{Bytes}

pub data Op : Type 0 where
  and_op or_op eq_op lt_op gt_op : Op
  other_op : ℕ → Op

mutual
  pub data Expr : Type 0 where
    ident : Bytes → Expr
    qualified_ref : Bytes → Option Bytes → Expr  -- a table, and its column if it is no star
    string_lit : Bytes → Expr
    number_lit : Bytes → Expr
    bind_expr : Bytes → Expr
    paren_expr : Expr → Expr
    binary : Expr → Op → Expr → Expr
    call : Bytes → Bool → Exprs → Expr  -- with an OVER clause?
    select_expr : Stmt → Expr  -- a subquery
    other : ℕ → Exprs → Expr

  pub data Exprs : Type 0 where
    nil : Exprs
    cons : Expr → Exprs → Exprs

  pub data Source : Type 0 where
    table : Option Bytes → Bytes → Source  -- its schema and its name
    table_function : Bytes → Exprs → Source
    join : Source → Source → Exprs → Source
    subquery : Stmt → Source
    no_source : Source

  -- A WITH clause is recursive or not, and has named bodies.
  pub data Ctes : Type 0 where
    end : Ctes
    cte : Bytes → Stmt → Ctes → Ctes

  -- A nested statement: its WITH clause, its source, and the expressions of its other clauses,
  -- compound parts included as further statements.
  pub data Stmt : Type 0 where
    stmt : Bool → Ctes → Source → Exprs → Stmt
    compound : Stmt → Stmt → Stmt

-- A result column: `*`, or an expression.
pub data Column : Type 0 where
  star : Column
  expr_column : Expr → Column

-- A top-level SELECT without its compound parts.
pub record Select : Type 0 where
  pub recursive : Bool
  pub ctes : Ctes
  pub distinct : Bool
  pub columns : List Column
  pub source : Source
  pub where_expr : Option Expr
  pub group_by_exprs : List Expr
  pub having_expr : Option Expr
  pub windows : List Expr
  pub ordering_terms : List Expr
  pub limit_expr : Option Expr
  pub offset_expr : Option Expr

-- What the parser returns of one text.
pub data Parsed : Type 0 where
  select_statement : Select → List Select → Parsed  -- with its compound parts
  other_statement : Parsed
