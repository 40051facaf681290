-- ===== src/Query/Fts.antt =====
-- `FTSMatch` of query/fts.go.
pub mod Phrases
use mathlib.Core.List.{append-nil, append_assoc}
use mathlib.Core.Path.{subst}
use pooml.Base.{
  ℕ, ◌≢◌, ◌⊎◌, inl, inr, Bool-cases, Bool, true, false, not, ◌||◌, List, [], ◌∷◌, ◌++◌, ◌≡◌, refl,
  sym, ap, ◌∙◌, ◌==◌, if◌then◌else◌, map, arith,
}
use pooml.Bytes.{codes, str_eq, str_eq_iff}
use pooml.Strings.{Text, is_space, trim_both, fields, join}

unfoldable pub is_operator : Text → Bool
is_operator t =
    str_eq t (codes "AND")
    || str_eq t (codes "OR")
    || str_eq t (codes "NOT")
    || str_eq t (codes "NEAR")

-- `strings.ContainsAny(t, ...)` with the characters of the FTS5 syntax
unfoldable pub has_syntax : Text → Bool
has_syntax [] = false
has_syntax (c ∷ t) = (c == b'"' || c == b'*' || c == b'(' || c == b')' || c == b'^') || has_syntax t

-- The loop that looks for operators and syntax.
unfoldable pub is_expression : List Text → Bool
unfolding is_operator has_syntax
is_expression [] = false
is_expression (t ∷ terms) = is_operator t || has_syntax t || is_expression terms

abbrev pub prefix_query : Text → Text
prefix_query t = b'"' ∷ (t ++ codes "\"*")

unfoldable pub fts_match : Text → Text
unfolding is_expression
fts_match input =
    let trimmed = trim_both is_space input in
    if str_eq trimmed []
    then trimmed
    else if is_expression (fields trimmed)
    then trimmed
    else join (codes " ") (map prefix_query (fields trimmed))
