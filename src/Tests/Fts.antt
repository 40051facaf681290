-- ===== src/Tests/Fts.antt =====
-- Inputs of the search bar.
use pooml.Base.{◌≡◌, ◌≢◌, ◌⊎◌, refl, true, false, []}
use pooml.Bytes.{codes, str_eq}
use pooml.Strings.{trim_both, is_space, fields, fields_from, skip_while, reverse_onto, join}
use pooml.Query.Fts.{fts_match, is_expression, is_operator, has_syntax}
use pooml.Query.Fts.Phrases.{phrases, between, is_glue, IsExpression, phrases-fts_match}

plain_words : fts_match (codes " order u_991: ") ≡ codes "\"order\"* \"u_991:\"*"
unfolding fts_match is_expression is_operator has_syntax trim_both is_space fields fields_from
    skip_while reverse_onto join str_eq
plain_words = refl

operator_passes : fts_match (codes "disk AND full") ≡ codes "disk AND full"
unfolding fts_match is_expression is_operator has_syntax trim_both is_space fields fields_from
    skip_while reverse_onto join str_eq
operator_passes = refl

phrases-fts_match_example :
    let input = codes " order u_991: " in
    let trimmed = trim_both is_space input in
    (((trimmed ≡ []) ⊎ IsExpression (fields trimmed)) × (fts_match input ≡ trimmed))
    ⊎ ((trimmed ≢ [])
        × (¬ IsExpression (fields trimmed))
        × (phrases (fts_match input) ≡ fields trimmed)
        × (is_glue (between false (fts_match input)) ≡ true))
phrases-fts_match_example = phrases-fts_match (codes " order u_991: ")
