-- ===== src/Query/Fts/Phrases.antt =====
-- The MATCH expression that query/fts.go makes, read back.
use mathlib.Core.List.{append-nil, append_assoc}
use mathlib.Core.Path.{subst}
use pooml.Base.{
  ℕ, ◌≢◌, ◌⊎◌, inl, inr, Bool-cases, Bool, true, false, not, ◌||◌, List, [], ◌∷◌, ◌++◌, ◌≡◌, refl,
  sym, ap, ◌∙◌, ◌==◌, if◌then◌else◌, map, arith,
}
use pooml.Bytes.{codes, str_eq, str_eq_iff}
use pooml.Strings.{Text, is_space, trim_both, fields, join}
use pooml.Query.Fts.{is_operator, has_syntax, is_expression, prefix_query, fts_match}

-- The phrases of a MATCH expression: what stands between its quotes. The list starts in a phrase or
-- out of one; `word` is what has been read of it.
unfoldable pub phrases_from : Bool → Text → Text → List Text
phrases_from inside word [] = []
phrases_from inside word (c ∷ s) =
    let other_side = phrases_from (not inside) [] s in
    let longer = phrases_from inside (word ++ c ∷ []) s in
    let skipped = phrases_from inside word s in
    if c == b'"'
    then if inside then word ∷ other_side else other_side
    else if inside
    then longer
    else skipped

abbrev pub phrases : Text → List Text
phrases = phrases_from false []

-- ... and what stands outside of them.
unfoldable pub between : Bool → Text → Text
between inside [] = []
between inside (c ∷ s) =
    let other_side = between (not inside) s in
    let rest = between inside s in
    if c == b'"' then other_side else if inside then rest else c ∷ rest

-- Only stars and spaces.
unfoldable pub is_glue : Text → Bool
is_glue [] = true
is_glue (c ∷ s) = let rest = is_glue s in if c == b'*' || c == b' ' then rest else false

phrases-term :
    (word t s : Text)
    → has_syntax t ≡ false
    → phrases_from true word (t ++ (b'"' ∷ s)) ≡ (word ++ t) ∷ phrases_from false [] s
unfolding phrases_from has_syntax
phrases-term word [] s h = ap (λ w. w ∷ phrases_from false [] s) (sym (append-nil word))
phrases-term word (c ∷ t) s h =
    ground (arith, phrases-term (word ++ c ∷ []) t s, append_assoc word (c ∷ []) t)

between-term :
    (t s : Text) → has_syntax t ≡ false → between true (t ++ (b'"' ∷ s)) ≡ between false s
unfolding between has_syntax
between-term [] s h = refl
between-term (c ∷ t) s h = ground (arith, between-term t s)

-- What the two readers see of a list of plain terms.
record Reads (terms : List Text) (s : Text) : Type 0 where
  seen : phrases s ≡ terms
  glue : is_glue (between false s) ≡ true

-- A quoted term in front
prefix-Reads :
    (t rest : Text) (terms : List Text)
    → has_syntax t ≡ false
    → Reads terms rest
    → Reads (t ∷ terms) (prefix_query t ++ rest)
unfolding phrases_from between is_glue
prefix-Reads t rest terms h r =
    let tail = append_assoc t (codes "\"*") rest in
    record {
      seen =
          ap (phrases_from true []) tail
          ∙ phrases-term [] t (b'*' ∷ rest) h
          ∙ ap (λ ts. t ∷ ts) r.seen;
      glue =
          ap (λ s. is_glue (between true s)) tail
          ∙ ap is_glue (between-term t (b'*' ∷ rest) h)
          ∙ r.glue;
    }

space-Reads : (terms : List Text) (s : Text) → Reads terms s → Reads terms (b' ' ∷ s)
unfolding phrases_from between is_glue
space-Reads terms s r = record { seen = r.seen; glue = r.glue }

nil-Reads : Reads [] []
unfolding phrases_from between is_glue
nil-Reads = record { seen = refl; glue = refl }

join-Reads :
    (terms : List Text)
    → is_expression terms ≡ false
    → Reads terms (join (codes " ") (map prefix_query terms))
unfolding join is_expression
join-Reads [] h = nil-Reads
join-Reads (t ∷ []) h =
    subst (Reads (t ∷ [])) (append-nil (prefix_query t))
      (prefix-Reads t [] [] (ground (arith, h)) nil-Reads)
join-Reads (t ∷ u ∷ terms) h =
    prefix-Reads t (codes " " ++ join (codes " ") (map prefix_query (u ∷ terms))) (u ∷ terms)
      (ground (arith, h))
      (space-Reads (u ∷ terms) (join (codes " ") (map prefix_query (u ∷ terms)))
        (join-Reads (u ∷ terms) (ground (arith, h))))

-- The operators and the syntax of FTS5, as fts.go's comment lists them.
abbrev pub IsOperator : Text → Type 0
IsOperator t = (((t ≡ codes "AND") ⊎ (t ≡ codes "OR")) ⊎ (t ≡ codes "NOT")) ⊎ (t ≡ codes "NEAR")

abbrev pub IsSyntax : ℕ → Type 0
IsSyntax c = ((((c ≡ b'"') ⊎ (c ≡ b'*')) ⊎ (c ≡ b'(')) ⊎ (c ≡ b')')) ⊎ (c ≡ b'^')

abbrev pub HasSyntax : Text → Type 0
HasSyntax [] = ⊥
HasSyntax (c ∷ t) = IsSyntax c ⊎ HasSyntax t

abbrev pub IsExpression : List Text → Type 0
IsExpression [] = ⊥
IsExpression (t ∷ terms) = (IsOperator t ⊎ HasSyntax t) ⊎ IsExpression terms

-- A test that says whether something holds
abbrev Decides : Bool → Type 0 → Type 0
Decides b P = ((b ≡ true) × P) ⊎ ((b ≡ false) × ¬ P)

or-Decides : {P Q : Type 0} {b c : Bool} → Decides b P → Decides c Q → Decides (b || c) (P ⊎ Q)
or-Decides (inl (e, p)) d = inl (rw e refl, inl p)
or-Decides (inr (e, p)) (inl (f, q)) = inl (rw (e, f) refl, inr q)
or-Decides (inr (e, p)) (inr (f, q)) =
    inr (rw (e, f) refl, λ w. elim w [ inl x ↦ p x | inr y ↦ q y ])

str_eq-Decides : (t u : Text) → Decides (str_eq t u) (t ≡ u)
str_eq-Decides t u = elim (Bool-cases (str_eq t u)) [
  | inl e ↦ inl (e, (str_eq_iff t u).0 e)
  | inr e ↦ inr (e, λ same. absurd (ground (arith, e, (str_eq_iff t u).1 same)))
]

eq-Decides : (c d : ℕ) → Decides (c == d) (c ≡ d)
eq-Decides c d = elim (Bool-cases (c == d)) [
  | inl e ↦ inl (e, ground (arith, e))
  | inr e ↦ inr (e, λ same. absurd (ground (arith, e, same)))
]

has_syntax-Decides : (t : Text) → Decides (has_syntax t) (HasSyntax t)
unfolding has_syntax
has_syntax-Decides [] = inr (refl, λ none. none)
has_syntax-Decides (c ∷ t) =
    or-Decides
      (or-Decides
        (or-Decides
          (or-Decides (or-Decides (eq-Decides c b'"') (eq-Decides c b'*')) (eq-Decides c b'('))
          (eq-Decides c b')'))
        (eq-Decides c b'^'))
      (has_syntax-Decides t)

is_operator-Decides : (t : Text) → Decides (is_operator t) (IsOperator t)
unfolding is_operator
is_operator-Decides t =
    or-Decides
      (or-Decides (or-Decides (str_eq-Decides t (codes "AND")) (str_eq-Decides t (codes "OR")))
        (str_eq-Decides t (codes "NOT")))
      (str_eq-Decides t (codes "NEAR"))

is_expression-Decides : (terms : List Text) → Decides (is_expression terms) (IsExpression terms)
unfolding is_expression
is_expression-Decides [] = inr (refl, λ none. none)
is_expression-Decides (t ∷ terms) =
    or-Decides (or-Decides (is_operator-Decides t) (has_syntax-Decides t))
      (is_expression-Decides terms)

-- The search bar's input, trimmed, is passed on as it is if it is empty, or if one of its words is AND,
-- OR, NOT or NEAR or holds a quote, a star, a parenthesis or a caret. Otherwise the expression's phrases
-- are exactly the words in their order, and outside of them stand only stars and spaces.
pub phrases-fts_match :
    (input : Text)
    → let trimmed = trim_both is_space input in
      (((trimmed ≡ []) ⊎ IsExpression (fields trimmed)) × (fts_match input ≡ trimmed))
      ⊎ ((trimmed ≢ [])
          × (¬ IsExpression (fields trimmed))
          × (phrases (fts_match input) ≡ fields trimmed)
          × (is_glue (between false (fts_match input)) ≡ true))
unfolding fts_match
phrases-fts_match input =
    let trimmed = trim_both is_space input in
    elim (str_eq-Decides trimmed []) [
      | inl (e, empty) ↦ inl (inl empty, rw (e, fts_match) refl)
      | inr (e, some_text) ↦ elim (is_expression-Decides (fields trimmed)) [
        | inl (f, x) ↦ inl (inr x, rw (e, f, fts_match) refl)
        | inr (f, x) ↦
            let r = join-Reads (fields trimmed) f in
            inr (some_text, x, rw (e, f, fts_match) r.seen, rw (e, f, fts_match) r.glue)
      ]
    ]
