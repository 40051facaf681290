-- ===== src/Query/Rewrite/Meaning.antt =====
-- Which rows a rewritten query keeps.
use mathlib.Core.Path.{subst}
use pooml.Base.{
  ◌≡◌, refl, Bool, true, false, ◌&&◌, ◌||◌, Option, none, some, ◌==◌, arith, Option-cases, inl, inr,
  ℕ, ◌≤◌, ◌<◌,
}
use pooml.Base.Int.{ℤ, pos, negsuc, ltb_ℤ}
use pooml.Bytes.{Bytes, codes, str_eq_iff}
use pooml.Strings.{itoa}
use pooml.Query.Ast.{
  and_op, or_op, eq_op, lt_op, Expr, ident, number_lit, paren_expr, binary, Select,
}
use pooml.Query.Rewrite.Filter.{IsLower, quick_literal-lem, filtered_of_ok}
use pooml.Query.Rewrite.{
  filtered, drill_down, quick_literal, apply_quick_filter, Validated, ok, paren, eq_col_name,
  set_conjunct_eq, and_where, filter_where, format_int, page_condition, apply_pagination, less_than,
}

-- SQL's three values: `none` is NULL.
abbrev pub Truth : Type 0
Truth = Option Bool

unfoldable pub and_3 : Truth → Truth → Truth
and_3 (some false) b = some false
and_3 (some true) b = b
and_3 none (some false) = some false
and_3 none b = none

unfoldable pub or_3 : Truth → Truth → Truth
or_3 (some true) b = some true
or_3 (some false) b = b
or_3 none (some true) = some true
or_3 none b = none

abbrev pub eqb_ℤ : ℤ → ℤ → Bool
eqb_ℤ (pos a) (pos b) = a == b
eqb_ℤ (negsuc a) (negsuc b) = a == b
eqb_ℤ _ _ = false

-- What SQLite documents of a condition's value in a row. The two columns of the cursor are NOT NULL.
pub record Meaning (Row : Type 0) : Type 0 where
  pub truth : Expr → Row → Truth
  pub timestamp : Row → ℤ
  pub id : Row → ℤ
  pub truth-paren : (e : Expr) (r : Row) → truth (paren_expr e) r ≡ truth e r
  pub truth-and :
      (x y : Expr) (r : Row) → truth (binary x and_op y) r ≡ and_3 (truth x r) (truth y r)
  pub truth-or : (x y : Expr) (r : Row) → truth (binary x or_op y) r ≡ or_3 (truth x r) (truth y r)
  pub timestamp_lt :
      (n : ℤ) (r : Row)
      → truth (binary (ident (codes "timestamp")) lt_op (number_lit (format_int n))) r
        ≡ some (ltb_ℤ (timestamp r) n)
  pub timestamp_eq :
      (n : ℤ) (r : Row)
      → truth (binary (ident (codes "timestamp")) eq_op (number_lit (format_int n))) r
        ≡ some (eqb_ℤ (timestamp r) n)
  pub id_lt :
      (n : ℤ) (r : Row)
      → truth (binary (ident (codes "id")) lt_op (number_lit (format_int n))) r
        ≡ some (ltb_ℤ (id r) n)

abbrev pub is_true : Truth → Bool
is_true (some true) = true
is_true _ = false

module _ {Row : Type 0} (m : Meaning Row) where
  -- A WHERE clause keeps the rows of which it is true.
  abbrev pub keeps : Option Expr → Row → Bool
  keeps none r = true
  keeps (some e) r = is_true (m.truth e r)

  truth-paren_lem : (e : Expr) (r : Row) → m.truth (paren e) r ≡ m.truth e r
  unfolding paren
  truth-paren_lem (paren_expr e) r = refl
  truth-paren_lem e r = m.truth-paren e r

  is_true-and_3 : (a b : Truth) → is_true (and_3 a b) ≡ is_true a && is_true b
  unfolding and_3
  is_true-and_3 a b = ground arith

  keeps-and_where :
      (w : Option Expr) (cond : Expr) (r : Row)
      → keeps (some (and_where w cond)) r ≡ keeps w r && is_true (m.truth cond r)
  unfolding and_where
  keeps-and_where none cond r = ground arith
  keeps-and_where (some w) cond r = ground (
    arith,
    m.truth-and (paren w) cond r,
    truth-paren_lem w r,
    is_true-and_3 (m.truth w r) (m.truth cond r),
  )

  -- The row stands in the viewer's order behind the cursor: earlier, or at the same time with a smaller
  -- id.
  abbrev pub is_behind : ℤ → ℤ → Row → Bool
  is_behind before_ts before_id r =
      ltb_ℤ (m.timestamp r) before_ts
      || (eqb_ℤ (m.timestamp r) before_ts && ltb_ℤ (m.id r) before_id)

  truth-page_condition :
      (before_ts before_id : ℤ) (r : Row)
      → m.truth (page_condition before_ts before_id) r ≡ some (is_behind before_ts before_id r)
  unfolding page_condition paren and_3 or_3
  truth-page_condition before_ts before_id r =
      let ts = binary (ident (codes "timestamp")) eq_op (number_lit (format_int before_ts)) in
      let less = less_than (codes "timestamp") before_ts in
      let lower = less_than (codes "id") before_id in
      ground (
        arith,
        m.truth-paren (binary less or_op (paren_expr (binary ts and_op lower))) r,
        m.truth-or less (paren_expr (binary ts and_op lower)) r,
        m.truth-paren (binary ts and_op lower) r,
        m.truth-and ts lower r,
        m.timestamp_lt before_ts r,
        m.timestamp_eq before_ts r,
        m.id_lt before_id r,
      )

  keeps-page :
      (w : Option Expr) (before_ts before_id : ℤ) (r : Row)
      → keeps (some (and_where w (page_condition before_ts before_id))) r
        ≡ keeps w r && is_behind before_ts before_id r
  keeps-page w before_ts before_id r = ground (
    arith,
    keeps-and_where w (page_condition before_ts before_id) r,
    truth-page_condition before_ts before_id r,
  )

  -- A page that is accepted holds exactly the rows of the query that stand behind the cursor, has a limit
  -- from 1 to 10000, and no offset.
  pub apply_pagination-keeps :
      (must_parse : Bytes → Select) (before_ts before_id page_size : ℤ) (v v' : Validated) (r : Row)
      → apply_pagination must_parse before_ts before_id page_size v ≡ ok v'
      → (keeps v'.stmt.where_expr r ≡ keeps v.stmt.where_expr r && is_behind before_ts before_id r)
        × ((n : ℕ) × (v'.stmt.limit_expr ≡ some (number_lit (itoa n))) × (0 < n) × (n ≤ 10000))
        × (v'.stmt.offset_expr ≡ none)
  unfolding apply_pagination
  apply_pagination-keeps must_parse before_ts before_id (negsuc n) v v' r h =
      absurd (ground (arith, h))
  apply_pagination-keeps must_parse before_ts before_id (pos n) v v' r h = (
    ground (arith, h, keeps-page v.stmt.where_expr before_ts before_id r),
    (n, ground (arith, h), ground (arith, h), ground (arith, h)),
    ground (arith, h),
  )

  -- What the rows kept by a replaced conjunct satisfy
  keeps-set_conjunct_eq :
      (col : Bytes) (lit e e' : Expr) (r : Row)
      → set_conjunct_eq col lit e ≡ some e'
      → is_true (m.truth e' r) ≡ true
      → (x : Expr) × (eq_col_name x ≡ col) × (is_true (m.truth (binary x eq_op lit) r) ≡ true)
  unfolding set_conjunct_eq
  keeps-set_conjunct_eq col lit (paren_expr e) e' r h k =
      elim (Option-cases (set_conjunct_eq col lit e)) [
        | inl n ↦ absurd (ground (arith, h, n))
        | inr (f, n) ↦
            let same : paren_expr f ≡ e' = ground (arith, h, n) in
            keeps-set_conjunct_eq col lit e f r n (ground (arith, k, same, m.truth-paren f r))
      ]
  keeps-set_conjunct_eq col lit (binary x and_op y) e' r h k =
      elim (Option-cases (set_conjunct_eq col lit x)) [
        | inr (f, n) ↦
            let same : binary f and_op y ≡ e' = ground (arith, h, n) in
            keeps-set_conjunct_eq col lit x f r n (
              ground (arith, k, same, m.truth-and f y r, is_true-and_3 (m.truth f r) (m.truth y r)))
        | inl n ↦ elim (Option-cases (set_conjunct_eq col lit y)) [
          | inl o ↦ absurd (ground (arith, h, n, o))
          | inr (g, o) ↦
              let same : binary x and_op g ≡ e' = ground (arith, h, n, o) in
              keeps-set_conjunct_eq col lit y g r o (
                ground
                  (arith, k, same, m.truth-and x g r, is_true-and_3 (m.truth x r) (m.truth g r)))
        ]
      ]
  keeps-set_conjunct_eq col lit (binary x eq_op y) e' r h k =
      let same : binary x eq_op lit ≡ e' = ground (arith, h) in
      (x, (str_eq_iff (eq_col_name x) col).0 (ground (arith, h)), ground (arith, k, same))
  keeps-set_conjunct_eq col lit e e' r h k = absurd (ground (arith, h))

  keeps-filter_where :
      (col : Bytes) (lit : Expr) (w : Option Expr) (r : Row)
      → IsLower col
      → keeps (some (filter_where col lit w)) r ≡ true
      → (x : Expr) × (eq_col_name x ≡ col) × (is_true (m.truth (binary x eq_op lit) r) ≡ true)
  unfolding filter_where eq_col_name
  keeps-filter_where col lit none r lower k = (ident col, lower, k)
  keeps-filter_where col lit (some w) r lower k = elim (Option-cases (set_conjunct_eq col lit w)) [
    | inr (f, n) ↦ keeps-set_conjunct_eq col lit w f r n (ground (arith, k, n))
    | inl n ↦ (
      ident col,
      lower,
      ground (arith, k, n, keeps-and_where (some w) (binary (ident col) eq_op lit) r),
    )
  ]

  -- Every row that a quick filter keeps satisfies the filter: an equation of its column, by itself or
  -- qualified, with the value that the filter stands for.
  pub apply_quick_filter-keeps :
      (must_parse : Bytes → Select) (atoi : Bytes → Option ℤ) (col value : Bytes) (v v' : Validated)
      (r : Row)
      → apply_quick_filter must_parse atoi col value v ≡ ok v'
      → keeps v'.stmt.where_expr r ≡ true
      → (lit : Expr) × (quick_literal atoi col value ≡ some (some lit))
        × ((x : Expr) × (eq_col_name x ≡ col) × (is_true (m.truth (binary x eq_op lit) r) ≡ true))
  apply_quick_filter-keeps must_parse atoi col value v v' r h k =
      let (lit, e, same, plain) = filtered_of_ok must_parse atoi col value v v' h in
      (
        lit,
        e,
        keeps-filter_where col lit (drill_down must_parse v).stmt.where_expr r
            (quick_literal-lem atoi col value lit e).0
            (unfold filtered in subst (λ t. keeps t.stmt.where_expr r ≡ true) same k),
      )
