-- ===== src/Query/Rewrite/Filter.antt =====
-- Quick filters: a second click on a column takes the place of the first.
use mathlib.Core.Path.{subst}
use pooml.Base.{
  ◌≡◌, refl, sym, ap, ◌∙◌, inl, inr, true, false, Option, none, some, map, arith, Option-cases,
  Bool-cases,
}
use pooml.Base.Int.{ℤ}
use pooml.Bytes.{Bytes, codes, str_eq, str_eq_iff}
use pooml.Strings.{to_lower}
use pooml.Query.Ast.{and_op, eq_op, Expr, ident, paren_expr, binary, Select}
use pooml.Query.Rewrite.{
  Validated, ok, paren, eq_col_name, is_literal, set_conjunct_eq, and_where, quick_literal,
  drill_down, filter_where, filtered, with_where, apply_quick_filter,
}

-- Whether there is a conjunct to replace does not depend on the literal.
set_conjunct_eq-none :
    (col : Bytes) (l m e : Expr) → set_conjunct_eq col l e ≡ none → set_conjunct_eq col m e ≡ none
unfolding set_conjunct_eq
set_conjunct_eq-none col l m (paren_expr e) h =
    ground (arith, h, Option-cases (set_conjunct_eq col l e), set_conjunct_eq-none col l m e)
set_conjunct_eq-none col l m (binary x and_op y) h = elim (Option-cases (set_conjunct_eq col l x)) [
  | inr (f, n) ↦ absurd (ground (arith, h, n))
  | inl n ↦ ground (
    arith,
    h,
    n,
    Option-cases (set_conjunct_eq col l y),
    set_conjunct_eq-none col l m x n,
    set_conjunct_eq-none col l m y,
  )
]
set_conjunct_eq-none col l m (binary x eq_op y) h = ground (arith, h)
set_conjunct_eq-none col l m e h = refl

-- Replacing twice is replacing once, where the first replacement is a literal.
set_conjunct_eq_twice :
    (col : Bytes) (l m e e' : Expr)
    → is_literal l ≡ true
    → set_conjunct_eq col l e ≡ some e'
    → set_conjunct_eq col m e' ≡ set_conjunct_eq col m e
unfolding set_conjunct_eq
set_conjunct_eq_twice col l m (paren_expr e) e' lit h =
    elim (Option-cases (set_conjunct_eq col l e)) [
      | inl n ↦ absurd (ground (arith, h, n))
      | inr (f, n) ↦
          let same : paren_expr f ≡ e' = (ground (arith, h, n)) in
          subst (λ t. set_conjunct_eq col m t ≡ set_conjunct_eq col m (paren_expr e)) same
            (ground (arith, set_conjunct_eq_twice col l m e f lit n))
    ]
set_conjunct_eq_twice col l m (binary x and_op y) e' lit h =
    elim (Option-cases (set_conjunct_eq col l x)) [
      | inr (f, n) ↦
          let same : binary f and_op y ≡ e' = (ground (arith, h, n)) in
          subst (λ t. set_conjunct_eq col m t ≡ set_conjunct_eq col m (binary x and_op y)) same
            (ground
              (arith, n, set_conjunct_eq_twice col l m x f lit n, set_conjunct_eq-none col m l x))
      | inl n ↦ elim (Option-cases (set_conjunct_eq col l y)) [
        | inl k ↦ absurd (ground (arith, h, n, k))
        | inr (g, k) ↦
            let same : binary x and_op g ≡ e' = (ground (arith, h, n, k)) in
            subst (λ t. set_conjunct_eq col m t ≡ set_conjunct_eq col m (binary x and_op y)) same
              (ground
                (arith, set_conjunct_eq-none col l m x n, set_conjunct_eq_twice col l m y g lit k))
      ]
    ]
set_conjunct_eq_twice col l m (binary x eq_op y) e' lit h =
    let same : binary x eq_op l ≡ e' = (ground (arith, h)) in
    subst (λ t. set_conjunct_eq col m t ≡ set_conjunct_eq col m (binary x eq_op y)) same
      (ground (arith, h, lit))
set_conjunct_eq_twice col l m e e' lit h = absurd (ground (arith, h))

-- Parentheses do not hide a conjunct.
set_conjunct_eq-paren :
    (col : Bytes) (m e : Expr)
    → set_conjunct_eq col m e ≡ none
    → set_conjunct_eq col m (paren e) ≡ none
unfolding set_conjunct_eq paren
set_conjunct_eq-paren col m (paren_expr e) h = h
set_conjunct_eq-paren col m e h = ground (arith, h)

-- The three columns are in lower case.
abbrev pub IsLower : Bytes → Type 0
IsLower col = map to_lower col ≡ col

-- What `filter_where` makes of a clause with such a conjunct, and of one without
filter_where-hit :
    (col : Bytes) (m w f : Expr)
    → set_conjunct_eq col m w ≡ some f
    → filter_where col m (some w) ≡ f
unfolding filter_where
filter_where-hit col m w f h = ground (arith, h)

filter_where-miss :
    (col : Bytes) (m w : Expr)
    → set_conjunct_eq col m w ≡ none
    → filter_where col m (some w) ≡ binary (paren w) and_op (binary (ident col) eq_op m)
unfolding filter_where and_where
filter_where-miss col m w h = ground (arith, h)

set_conjunct_eq-ident :
    (col : Bytes) (l m : Expr)
    → IsLower col
    → is_literal l ≡ true
    → set_conjunct_eq col m (binary (ident col) eq_op l) ≡ some (binary (ident col) eq_op m)
unfolding set_conjunct_eq eq_col_name
set_conjunct_eq-ident col l m lower lit =
    let same : str_eq (map to_lower col) col ≡ true = (str_eq_iff (map to_lower col) col).1 lower in
    ground (arith, same, lit)

set_conjunct_eq-and :
    (col : Bytes) (m x y f : Expr)
    → set_conjunct_eq col m x ≡ none
    → set_conjunct_eq col m y ≡ some f
    → set_conjunct_eq col m (binary x and_op y) ≡ some (binary x and_op f)
unfolding set_conjunct_eq
set_conjunct_eq-and col m x y f h k = ground (arith, h, k)

filter_where_twice :
    (col : Bytes) (l m : Expr) (w : Option Expr)
    → IsLower col
    → is_literal l ≡ true
    → filter_where col m (some (filter_where col l w)) ≡ filter_where col m w
filter_where_twice col l m none lower lit =
    unfold filter_where in
    filter_where-hit col m (binary (ident col) eq_op l) (binary (ident col) eq_op m)
      (set_conjunct_eq-ident col l m lower lit)
filter_where_twice col l m (some w) lower lit = elim (Option-cases (set_conjunct_eq col l w)) [
  | inl n ↦
      let missed = set_conjunct_eq-none col l m w n in
      ap (λ t. filter_where col m (some t)) (filter_where-miss col l w n)
      ∙ filter_where-hit col m (binary (paren w) and_op (binary (ident col) eq_op l)) _ (
          set_conjunct_eq-and col m (paren w) (binary (ident col) eq_op l) _
            (set_conjunct_eq-paren col m w missed) (set_conjunct_eq-ident col l m lower lit))
      ∙ sym (filter_where-miss col m w missed)
  | inr (f, n) ↦
      ap (λ t. filter_where col m (some t)) (filter_where-hit col l w f n)
      ∙ elim (Option-cases (set_conjunct_eq col m w)) [
        | inl k ↦ absurd (ground (arith, n, set_conjunct_eq-none col m l w k))
        | inr (g, k) ↦
            filter_where-hit col m f g (set_conjunct_eq_twice col l m w f lit n ∙ k)
            ∙ sym (filter_where-hit col m w g k)
      ]
]

IsLower-same : (col name : Bytes) → str_eq col name ≡ true → IsLower name → IsLower col
IsLower-same col name e lower = subst IsLower (sym ((str_eq_iff col name).0 e)) lower

-- The columns that a filter takes are in lower case, and its operand is a literal.
pub quick_literal-lem :
    (atoi : Bytes → Option ℤ) (col value : Bytes) (lit : Expr)
    → quick_literal atoi col value ≡ some (some lit)
    → IsLower col × (is_literal lit ≡ true)
unfolding to_lower
quick_literal-lem atoi col value lit h = elim (Bool-cases (str_eq col (codes "service"))) [
  | inl e ↦ (IsLower-same col (codes "service") e refl, ground (arith, e, h))
  | inr ne ↦ elim (Bool-cases (str_eq col (codes "host"))) [
    | inl e ↦ (IsLower-same col (codes "host") e refl, ground (arith, ne, e, h))
    | inr ne' ↦ elim (Bool-cases (str_eq col (codes "level"))) [
      | inl e ↦ (IsLower-same col (codes "level") e refl, ground (arith, ne, ne', e, h))
      | inr ne'' ↦ absurd (ground (arith, ne, ne', ne'', h))
    ]
  ]
]

module _ (must_parse : Bytes → Select) where
  drill_down-with_where :
      (v : Validated) (e : Expr)
      → drill_down must_parse (with_where (drill_down must_parse v) e)
        ≡ with_where (drill_down must_parse v) e
  unfolding drill_down
  drill_down-with_where v e = ground arith

  filtered_twice :
      (col : Bytes) (l m : Expr) (v : Validated)
      → IsLower col
      → is_literal l ≡ true
      → filtered must_parse col m (filtered must_parse col l v) ≡ filtered must_parse col m v
  unfolding filtered
  filtered_twice col l m v lower lit =
      let d = drill_down must_parse v in
      ap (λ t. with_where t (filter_where col m t.stmt.where_expr))
        (drill_down-with_where v (filter_where col l d.stmt.where_expr))
      ∙ ap (with_where d) (filter_where_twice col l m d.stmt.where_expr lower lit)

  is_compound-filtered :
      (col : Bytes) (l : Expr) (v : Validated)
      → (filtered must_parse col l v).is_compound ≡ v.is_compound
  unfolding filtered drill_down
  is_compound-filtered col l v = ground arith

  pub filtered_of_ok :
      (atoi : Bytes → Option ℤ) (col value : Bytes) (v v' : Validated)
      → apply_quick_filter must_parse atoi col value v ≡ ok v'
      → (lit : Expr) × (quick_literal atoi col value ≡ some (some lit))
        × (v' ≡ filtered must_parse col lit v)
        × (v.is_compound ≡ false)
  unfolding apply_quick_filter
  filtered_of_ok atoi col value v v' h = elim (Option-cases (quick_literal atoi col value)) [
    | inl e ↦ absurd (ground (arith, e, h))
    | inr (none, e) ↦ absurd (ground (arith, e, h))
    | inr (some lit, e) ↦ (lit, e, ground (arith, e, h), ground (arith, e, h))
  ]

  -- A quick filter takes the place of an earlier one on its column: the query is what it would be had
  -- the earlier filter not been applied. So a second click on one value changes nothing.
  pub apply_quick_filter_twice :
      (atoi : Bytes → Option ℤ) (col first second : Bytes) (v v' : Validated)
      → apply_quick_filter must_parse atoi col first v ≡ ok v'
      → apply_quick_filter must_parse atoi col second v'
        ≡ apply_quick_filter must_parse atoi col second v
  unfolding apply_quick_filter
  apply_quick_filter_twice atoi col first second v v' h =
      let (lit, e, same, plain) = filtered_of_ok atoi col first v v' h in
      let (lower, is_lit) = quick_literal-lem atoi col first lit e in
      elim (Option-cases (quick_literal atoi col second)) [
        | inl f ↦ ground (arith, f, same, is_compound-filtered col lit v)
        | inr (none, f) ↦ ground (arith, f, same, is_compound-filtered col lit v)
        | inr (some m, f) ↦ ground (
          arith,
          f,
          same,
          is_compound-filtered col lit v,
          filtered_twice col lit m v lower is_lit,
        )
      ]
