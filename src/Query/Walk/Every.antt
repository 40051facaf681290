-- ===== src/Query/Walk/Every.antt =====
-- The walk of query/validate.go with its own descents shows every node of the statement.
use pooml.Base.{Bool, true, List, [], ◌∷◌, ◌++◌}
use pooml.Query.Ast.{
  Expr, ident, qualified_ref, string_lit, number_lit, bind_expr, paren_expr, binary, call,
  select_expr, other, Exprs, nil, cons, Source, table, table_function, join, subquery, no_source,
  Ctes, end, cte, Stmt, stmt, compound,
}
use pooml.Query.Walk.{
  Visit, with_clause, table_name, function_name, function_call, cte_names, visits_expr,
  visits_exprs, visits_source, visits_bodies, visits_with, visits_stmt,
}

-- A property of every node of a tree, in subqueries and in the bodies of WITH clauses too.
unfoldable mutual
  pub EveryExpr : (Visit → Type 0) → Expr → Type 0
  EveryExpr P (paren_expr e) = EveryExpr P e
  EveryExpr P (binary x op y) = EveryExpr P x × EveryExpr P y
  EveryExpr P (call name over args) = P (function_call name over) × EveryExprs P args
  EveryExpr P (select_expr s) = EveryStmt P s
  EveryExpr P (other n args) = EveryExprs P args
  EveryExpr P _ = Unit

  pub EveryExprs : (Visit → Type 0) → Exprs → Type 0
  EveryExprs P nil = Unit
  EveryExprs P (cons e es) = EveryExpr P e × EveryExprs P es

  pub EverySource : (Visit → Type 0) → Source → Type 0
  EverySource P (table schema name) = P (table_name schema name)
  EverySource P (table_function name args) = P (function_name name) × EveryExprs P args
  EverySource P (join x y on) = EverySource P x × EverySource P y × EveryExprs P on
  EverySource P (subquery s) = EveryStmt P s
  EverySource P no_source = Unit

  pub EveryBody : (Visit → Type 0) → Ctes → Type 0
  EveryBody P end = Unit
  EveryBody P (cte name body ctes) = EveryStmt P body × EveryBody P ctes

  pub EveryWith : (Visit → Type 0) → Bool → Ctes → Type 0
  EveryWith P recursive end = Unit
  EveryWith P recursive (cte name body ctes) =
      P (with_clause recursive (name ∷ cte_names ctes)) × EveryStmt P body × EveryBody P ctes

  pub EveryStmt : (Visit → Type 0) → Stmt → Type 0
  EveryStmt P (stmt recursive ctes source exprs) =
      EveryWith P recursive ctes × EverySource P source × EveryExprs P exprs
  EveryStmt P (compound s t) = EveryStmt P s × EveryStmt P t

abbrev pub All : (Visit → Type 0) → List Visit → Type 0
All P [] = Unit
All P (v ∷ visits) = P v × All P visits

All-append : (P : Visit → Type 0) (xs ys : List Visit) → All P (xs ++ ys) → All P xs × All P ys
All-append P [] ys h = (tt, h)
All-append P (x ∷ xs) ys h = let r = All-append P xs ys h.1 in ((h.0, r.0), r.1)

-- The walk with its own descents shows every node.
mutual
  unfolding visits_expr EveryExpr

  reach_expr : (P : Visit → Type 0) (e : Expr) → All P (visits_expr true e) → EveryExpr P e
  reach_expr P (paren_expr e) h = reach_expr P e h
  reach_expr P (binary x op y) h =
      let r = All-append P (visits_expr true x) (visits_expr true y) h in
      (reach_expr P x r.0, reach_expr P y r.1)
  reach_expr P (call name over args) h = (h.0, reach_exprs P args h.1)
  reach_expr P (select_expr s) h = reach_stmt P s h
  reach_expr P (other n args) h = reach_exprs P args h
  reach_expr P (ident _) h = tt
  reach_expr P (qualified_ref _ _) h = tt
  reach_expr P (string_lit _) h = tt
  reach_expr P (number_lit _) h = tt
  reach_expr P (bind_expr _) h = tt

  reach_exprs : (P : Visit → Type 0) (es : Exprs) → All P (visits_exprs true es) → EveryExprs P es
  reach_exprs P nil h = tt
  reach_exprs P (cons e es) h =
      let r = All-append P (visits_expr true e) (visits_exprs true es) h in
      (reach_expr P e r.0, reach_exprs P es r.1)

  reach_source : (P : Visit → Type 0) (s : Source) → All P (visits_source true s) → EverySource P s
  reach_source P (table schema name) h = h.0
  reach_source P (table_function name args) h = (h.0, reach_exprs P args h.1)
  reach_source P (join x y on) h =
      let r =
        All-append P (visits_source true x) (visits_source true y ++ visits_exprs true on) h in
      let q = All-append P (visits_source true y) (visits_exprs true on) r.1 in
      (reach_source P x r.0, reach_source P y q.0, reach_exprs P on q.1)
  reach_source P (subquery s) h = reach_stmt P s h
  reach_source P no_source h = tt

  reach_bodies : (P : Visit → Type 0) (c : Ctes) → All P (visits_bodies true c) → EveryBody P c
  reach_bodies P end h = tt
  reach_bodies P (cte name body ctes) h =
      let r = All-append P (visits_stmt true body) (visits_bodies true ctes) h in
      (reach_stmt P body r.0, reach_bodies P ctes r.1)

  reach_with :
      (P : Visit → Type 0) (recursive : Bool) (c : Ctes)
      → All P (visits_with true recursive c)
      → EveryWith P recursive c
  reach_with P recursive end h = tt
  reach_with P recursive (cte name body ctes) h =
      let r = All-append P (visits_stmt true body) (visits_bodies true ctes) h.1 in
      (h.0, reach_stmt P body r.0, reach_bodies P ctes r.1)

  pub reach_stmt : (P : Visit → Type 0) (s : Stmt) → All P (visits_stmt true s) → EveryStmt P s
  reach_stmt P (stmt recursive ctes source exprs) h =
      let r =
        All-append P (visits_with true recursive ctes)
          (visits_source true source ++ visits_exprs true exprs) h in
      let q = All-append P (visits_source true source) (visits_exprs true exprs) r.1 in
      (reach_with P recursive ctes r.0, reach_source P source q.0, reach_exprs P exprs q.1)
  reach_stmt P (compound s t) h =
      let r = All-append P (visits_stmt true s) (visits_stmt true t) h in
      (reach_stmt P s r.0, reach_stmt P t r.1)
