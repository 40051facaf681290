-- ===== src/Query/Dsl/Sql.antt =====
-- `OverrideWindow`, `NeedsServices`, `SQL`, `increaseSQL`, `whereClause` and `pivotCase` of
-- query/dsl.go.
use pooml.Base.{
  ℕ, suc, ◌+◌, ◌-◌, ◌/◌, ◌%◌, ◌^◌, Bool, not, ◌&&◌, ◌||◌, List, [], ◌∷◌, ◌++◌, Option, none, some,
  ltb, leb, ◌==◌, if◌then◌else◌, map, take, length,
}
use pooml.Base.Int.{ℤ, pos, negsuc, pos_part, neg_part, ltb_ℤ, ◌-ℤ◌}
use pooml.Bytes.{codes, str_eq}
use pooml.Strings.{Text, to_upper, double, join, itoa}
use pooml.Query.Dsl.{Filter, Query}

-- The 64-bit pattern of an int64 result.
unfoldable pub bits64 : ℤ → ℕ
bits64 z = (pos_part z + (2 ^ 64 - neg_part z % 2 ^ 64)) % 2 ^ 64

-- Go's `/` of an int64 by a positive number, on patterns: it rounds towards zero.
unfoldable pub quot64 : ℕ → ℕ → ℕ
quot64 n k = if ltb n (2 ^ 63) then n / k else (2 ^ 64 - (2 ^ 64 - n) / k) % 2 ^ 64

-- `%d` of a pattern
unfoldable pub show64 : ℕ → Text
show64 n = if ltb n (2 ^ 63) then itoa n else b'-' ∷ itoa (2 ^ 64 - n)

unfoldable pub show_ℤ : ℤ → Text
show_ℤ (pos n) = itoa n
show_ℤ (negsuc n) = b'-' ∷ itoa (suc n)

unfoldable pub override_window : ℤ → ℤ → Query → Query
unfolding bits64
override_window from to d = record d { from_ms = from; to_ms = to; window_ms = bits64 (to -ℤ from) }

abbrev pub pivot_service_cap : ℕ
pivot_service_cap = 6

unfoldable pub needs_services : Query → Bool
needs_services d = d.by_service && not (d.bucket_ms == 0) && not (str_eq d.verb (codes "latest"))

-- `fmt.Sprintf` and `+`: the pieces in order.
abbrev pub cat : List Text → Text
cat [] = []
cat (s ∷ []) = s
cat (s ∷ t ∷ ss) = s ++ cat (t ∷ ss)

unfoldable pub quote_str : Text → Text
quote_str s = double b'\'' s

unfoldable pub quote_ident : Text → Text
quote_ident s = b'"' ∷ (double b'"' s ++ b'"' ∷ [])

-- A string literal of the text.
abbrev pub literal : Text → Text
literal s = codes "'" ++ (quote_str s ++ codes "'")

unfoldable pub filter_condition : Filter → Text
filter_condition f =
    if str_eq f.key (codes "service") || str_eq f.key (codes "host")
    then cat (f.key ∷ codes " = " ∷ literal f.value ∷ [])
    else cat
        (codes "json_extract(labels, '$." ∷ quote_str f.key ∷ codes "') = " ∷ literal f.value ∷ [])

unfoldable pub time_condition : Query → Text
unfolding show64 quot64 show_ℤ
time_condition d =
    if ltb_ℤ (pos 0) d.to_ms
    then cat (codes "timestamp BETWEEN " ∷ show_ℤ d.from_ms ∷ codes " AND " ∷ show_ℤ d.to_ms ∷ [])
    else cat (
        codes "timestamp > (unixepoch() - "
        ∷ show64 (quot64 d.window_ms 1000)
        ∷ codes ") * 1000"
        ∷ [])

abbrev pub conditions : Query → List Text
conditions d =
    (codes "name = " ++ literal d.metric)
    ∷ (map filter_condition d.filters ++ time_condition d ∷ [])

unfoldable pub where_clause : Query → Text
where_clause d = join (codes " AND ") (conditions d)

unfoldable pub pivot_case : Text → Text → Text
pivot_case verb service =
    if str_eq verb (codes "count")
    then cat (codes "COUNT(CASE WHEN service = " ∷ literal service ∷ codes " THEN 1 END)" ∷ [])
    else cat (
        map to_upper verb
        ∷ codes "(CASE WHEN service = "
        ∷ literal service
        ∷ codes " THEN value END)"
        ∷ [])

-- `dslAggFn[verb]`; the empty text for a verb that is not in the map
unfoldable pub agg_fn : Text → Text
agg_fn verb =
    if str_eq verb (codes "avg")
    then codes "AVG(value)"
    else if str_eq verb (codes "min")
    then codes "MIN(value)"
    else if str_eq verb (codes "max")
    then codes "MAX(value)"
    else if str_eq verb (codes "sum")
    then codes "SUM(value)"
    else if str_eq verb (codes "count")
    then codes "COUNT(*)"
    else []

-- One column for each service.
unfoldable pub pivot_columns : (Text → Text) → List Text → List Text
pivot_columns value [] = []
pivot_columns value (s ∷ services) =
    cat (codes "       " ∷ value s ∷ codes " AS " ∷ quote_ident s ∷ [])
    ∷ pivot_columns value services

unfoldable pub aggregate_sql : Query → Text → List Text → Text
unfolding agg_fn pivot_columns pivot_case show64
aggregate_sql d where_text services =
    let fn = agg_fn d.verb in
    let alias =
      if str_eq d.verb (codes "count") then codes "samples" else d.verb ++ codes "_value" in
    let bucket = show64 d.bucket_ms in
    if not (d.bucket_ms == 0) && d.by_service
    then cat (
        codes "SELECT timestamp / "
        ∷ bucket
        ∷ codes " * "
        ∷ bucket
        ∷ codes " AS bucket,\n"
        ∷ join (codes ",\n") (pivot_columns (pivot_case d.verb) services)
        ∷ codes "\nFROM metrics\nWHERE "
        ∷ where_text
        ∷ codes "\nGROUP BY bucket\nORDER BY bucket"
        ∷ [])
    else if not (d.bucket_ms == 0)
    then cat (
        codes "SELECT timestamp / "
        ∷ bucket
        ∷ codes " * "
        ∷ bucket
        ∷ codes " AS bucket, "
        ∷ fn
        ∷ codes " AS "
        ∷ alias
        ∷ codes "\nFROM metrics\nWHERE "
        ∷ where_text
        ∷ codes "\nGROUP BY bucket\nORDER BY bucket"
        ∷ [])
    else if d.by_service
    then cat (
        codes "SELECT service, "
        ∷ fn
        ∷ codes " AS "
        ∷ alias
        ∷ codes "\nFROM metrics\nWHERE "
        ∷ where_text
        ∷ codes "\nGROUP BY service\nORDER BY "
        ∷ alias
        ∷ codes " DESC"
        ∷ [])
    else cat (
        codes "SELECT "
        ∷ fn
        ∷ codes " AS "
        ∷ alias
        ∷ codes "\nFROM metrics\nWHERE "
        ∷ where_text
        ∷ [])

unfoldable pub increase_value : Bool → Text → Text → Text
increase_value rate frame_secs service =
    let val =
      cat (codes "SUM(CASE WHEN service = " ∷ literal service ∷ codes " THEN inc END)" ∷ []) in
    if rate then cat (val ∷ codes " / " ∷ frame_secs ∷ codes ".0" ∷ []) else val

unfoldable pub increase_sql : Query → Text → List Text → Text
unfolding increase_value pivot_columns show64 quot64
increase_sql d where_text services =
    let rate = str_eq d.verb (codes "rate") in
    let bucketed = not (d.bucket_ms == 0) in
    let bucket = show64 d.bucket_ms in
    let frame_secs = show64 (quot64 (if bucketed then d.bucket_ms else d.window_ms) 1000) in
    let alias = if rate then codes "rate_per_s" else codes "increase" in
    let outer =
      if rate then cat (codes "SUM(inc) / " ∷ frame_secs ∷ codes ".0" ∷ []) else codes "SUM(inc)" in
    let inner =
      if bucketed
      then cat (
          codes "  SELECT timestamp / "
          ∷ bucket
          ∷ codes " * "
          ∷ bucket
          ∷ codes
              " AS bucket, service, host, labels, MAX(value) - MIN(value) AS inc\n  FROM metrics\n  WHERE "
          ∷ where_text
          ∷ codes "\n  GROUP BY bucket, service, host, labels"
          ∷ [])
      else cat (
          codes
            "  SELECT service, host, labels, MAX(value) - MIN(value) AS inc\n  FROM metrics\n  WHERE "
          ∷ where_text
          ∷ codes "\n  GROUP BY service, host, labels"
          ∷ []) in
    if bucketed && d.by_service
    then cat (
        codes "SELECT bucket,\n"
        ∷ join (codes ",\n") (pivot_columns (increase_value rate frame_secs) services)
        ∷ codes "\nFROM (\n"
        ∷ inner
        ∷ codes "\n)\nGROUP BY bucket\nORDER BY bucket"
        ∷ [])
    else if bucketed
    then cat (
        codes "SELECT bucket, "
        ∷ outer
        ∷ codes " AS "
        ∷ alias
        ∷ codes "\nFROM (\n"
        ∷ inner
        ∷ codes "\n)\nGROUP BY bucket\nORDER BY bucket"
        ∷ [])
    else if d.by_service
    then cat (
        codes "SELECT service, "
        ∷ outer
        ∷ codes " AS "
        ∷ alias
        ∷ codes "\nFROM (\n"
        ∷ inner
        ∷ codes "\n)\nGROUP BY service\nORDER BY "
        ∷ alias
        ∷ codes " DESC"
        ∷ [])
    else cat (
        codes "SELECT "
        ∷ outer
        ∷ codes " AS "
        ∷ alias
        ∷ codes "\nFROM (\n"
        ∷ inner
        ∷ codes "\n)"
        ∷ [])

unfoldable pub latest_sql : Query → Text → Text
latest_sql d where_text =
    if d.by_service
    then cat (
        codes
          "SELECT service, latest\nFROM (\n  SELECT service, value AS latest, MAX(id) AS latest_id\n  FROM metrics\n  WHERE "
        ∷ where_text
        ∷ codes "\n  GROUP BY service\n)\nORDER BY latest DESC"
        ∷ [])
    else cat (
        codes "SELECT value AS latest\nFROM metrics\nWHERE "
        ∷ where_text
        ∷ codes "\nORDER BY id DESC\nLIMIT 1"
        ∷ [])

-- `none` stands for the error "no data for metric yet".
unfoldable pub sql : Query → List Text → Option Text
unfolding needs_services where_clause latest_sql increase_sql aggregate_sql
sql d services =
    if needs_services d && leb (length services) 0
    then none
    else let shown = if needs_services d then take pivot_service_cap services else services in
      let where_text = where_clause d in
      some (
        if str_eq d.verb (codes "latest")
        then latest_sql d where_text
        else if str_eq d.verb (codes "increase") || str_eq d.verb (codes "rate")
        then increase_sql d where_text shown
        else aggregate_sql d where_text shown)
