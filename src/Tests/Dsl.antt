-- ===== src/Tests/Dsl.antt =====
-- A metrics query from its text to its WHERE clause.
use pooml.Base.{◌*◌, ◌^◌, ◌<◌, ◌≡◌, refl, false, ℕ, [], ◌∷◌, ◌++◌, some, map}
use pooml.Base.Int.{pos}
use pooml.Bytes.{codes, str_eq}
use pooml.Strings.{
  Text, fields, fields_from, is_space, number_of, span, trim_both, skip_while, reverse_onto, cut,
  join, is_re_space, to_lower,
}
use pooml.Query.Dsl.{
  ok, err, per_twice, Query, parse_dsl, parse_duration, match_duration, unit_ms, duration_ms,
  match_head, match_metric, metric_of, parse_tokens, parse_filter, is_key, all_key, keyword,
  complete, contains,
}
use pooml.Query.Dsl.Parsed.{IsParsed, parse_dsl-IsParsed, parse_duration_exact}
use pooml.Query.Dsl.Sql.{time_condition, where_clause}
use pooml.Query.Dsl.Quoting.{outside, ends_inside, filter_shown, where_clause-outside}

abbrev query : Query
query = record {
  verb = codes "rate";
  metric = codes "o'hits";
  filters = record { key = codes "service"; value = codes "a'b" } ∷ [];
  bucket_ms = 600000;
  window_ms = 86400000;
  by_service = false;
  from_ms = pos 0;
  to_ms = pos 0;
}

query_parses : parse_dsl (codes "RATE( o'hits ) service='a'b' per 10m") ≡ ok query
unfolding parse_dsl match_head match_metric metric_of parse_tokens parse_filter is_key all_key
    keyword complete contains parse_duration match_duration duration_ms fields fields_from is_space
    number_of span trim_both skip_while reverse_onto cut is_re_space str_eq to_lower
query_parses = refl

per_given_twice : parse_dsl (codes "rate(x) per 1m per 1m") ≡ err per_twice
unfolding parse_dsl match_head match_metric metric_of parse_tokens parse_filter is_key all_key
    keyword complete contains parse_duration match_duration duration_ms fields fields_from is_space
    number_of span trim_both skip_while reverse_onto cut is_re_space str_eq to_lower
per_given_twice = refl

parse_dsl-IsParsed_example : IsParsed query
parse_dsl-IsParsed_example =
    parse_dsl-IsParsed (codes "RATE( o'hits ) service='a'b' per 10m") query query_parses

ten_minutes : parse_duration (codes "10m") ≡ ok 600000
unfolding parse_duration match_duration duration_ms number_of span
ten_minutes = refl

parse_duration_exact_example :
    (digits : Text) × (u : ℕ) × (match_duration (codes "10m") ≡ some (digits, u))
    × (600000 ≡ number_of 0 digits * unit_ms u)
    × (0 < 600000)
    × (600000 < 2 ^ 63)
parse_duration_exact_example = parse_duration_exact (codes "10m") 600000 ten_minutes

where_clause-outside_example :
    (outside false (where_clause query)
      ≡ join
          (codes " AND ")
          (codes "name = " ∷ (map filter_shown query.filters ++ time_condition query ∷ [])))
    × (ends_inside false (where_clause query) ≡ false)
where_clause-outside_example = where_clause-outside query
