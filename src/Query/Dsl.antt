-- ===== src/Query/Dsl.antt =====
-- `ParseDSL` and `parseDSLDuration` of query/dsl.go. An error stands for its message.
pub mod Parsed
pub mod Sql
pub mod Quoting
use pooml.Base.{
  ℕ, zero, suc, ◌+◌, ◌-◌, ◌*◌, ◌/◌, ◌%◌, ◌^◌, Bool, true, false, not, ◌&&◌, ◌||◌, List, [], ◌∷◌,
  ◌++◌, Option, none, some, ltb, leb, ◌==◌, if◌then◌else◌, map,
}
use pooml.Base.Int.{ℤ}
use pooml.Bytes.{codes, str_eq}
use pooml.Strings.{
  Text, within, is_re_space, to_lower, skip_while, span, trim_both, reverse_onto, fields, cut,
  number_of,
}

pub data DslError : Type 0 where
  bad_head unknown_verb per_twice per_needs_duration last_twice last_needs_duration : DslError
  only_by_service not_understood bad_filter latest_takes_no_per : DslError
  bad_duration duration_out_of_range duration_zero : DslError

-- Go's `(T, error)`: the error first, as the code tests it first.
pub data Result {ℓ} (T : Type ℓ) : Type ℓ where
  err : DslError → Result T
  ok : T → Result T

-- `if err != nil { return nil, err }`
infixl 10 ◌>>=◌
abbrev pub ◌>>=◌ {ℓ ℓ'} :
    {T : Type ℓ} {S : Type ℓ'} (r : Result T) (next : (value : T) → Result S) → Result S
(err why) >>= next = err why
(ok value) >>= next = next value

-- `DSLFilter`
pub record Filter : Type 0 where
  pub key : Text
  pub value : Text

-- `DSLQuery`. Milliseconds of the two clauses are int64 values, kept as 64-bit patterns; 0 where
-- the clause is absent. An absolute window is set by `OverrideWindow` only.
pub record Query : Type 0 where
  pub verb : Text
  pub metric : Text
  pub filters : List Filter
  pub bucket_ms : ℕ
  pub window_ms : ℕ
  pub by_service : Bool
  pub from_ms : ℤ
  pub to_ms : ℤ

abbrev pub default_window_ms : ℕ
default_window_ms = 86400000

abbrev pub verbs : List Text
verbs =
    codes "increase"
    ∷ codes "rate"
    ∷ codes "avg"
    ∷ codes "min"
    ∷ codes "max"
    ∷ codes "sum"
    ∷ codes "count"
    ∷ codes "latest"
    ∷ []

-- `m[s]` of a set
unfoldable pub contains : List Text → Text → Bool
contains [] s = false
contains (t ∷ ts) s = str_eq t s || contains ts s

abbrev pub is_alpha : ℕ → Bool
is_alpha c = within b'A' b'Z' c || within b'a' b'z' c

abbrev pub is_digit : ℕ → Bool
is_digit c = within b'0' b'9' c

-- The group `([^)]+?)` of `dslHeadRe`, from what stands between the parentheses: trimmed, but one
-- character where it is all white space.
unfoldable pub metric_of : Text → Option Text
metric_of inner = elim (trim_both is_re_space inner) [
  | c ∷ s ↦ some (c ∷ s)
  | [] ↦ elim (reverse_onto inner []) [ [] ↦ none | c ∷ s ↦ some (c ∷ []) ]
]

abbrev pub has_newline : Text → Bool
has_newline [] = false
has_newline (c ∷ s) = c == 10 || has_newline s

-- `dslHeadRe` behind its opening parenthesis
unfoldable pub match_metric : Text → Text → Option (Text × Text × Text)
unfolding metric_of
match_metric verb s =
    let (inner, close) = span (λ c. not (c == b')')) s in
    elim close [
      | [] ↦ none
      | _ ∷ after ↦
          let rest = skip_while is_re_space after in
          elim (metric_of inner) [
            | none ↦ none
            | some metric ↦ if has_newline rest then none else some (verb, metric, rest)
          ]
    ]

-- `dslHeadRe.FindStringSubmatch`: the verb, the metric and the rest
unfoldable pub match_head : Text → Option (Text × Text × Text)
unfolding match_metric
match_head input =
    let (verb, behind) = span is_alpha (skip_while is_re_space input) in
    elim verb [
      | [] ↦ none
      | v ∷ erb ↦ elim (skip_while is_re_space behind) [
        | [] ↦ none
        | c ∷ s ↦ if c == b'(' then match_metric (v ∷ erb) s else none
      ]
    ]

-- `dslDurRe`: digits, and one of m, h and d
unfoldable pub match_duration : Text → Option (Text × ℕ)
match_duration s =
    let (digits, unit) = span is_digit s in
    elim digits [
      | [] ↦ none
      | d ∷ more ↦ elim unit [
        | u ∷ [] ↦ if u == b'm' || u == b'h' || u == b'd' then some (d ∷ more, u) else none
        | _ ↦ none
      ]
    ]

abbrev pub max_int64 : ℕ
max_int64 = 2 ^ 63 - 1

abbrev pub unit_ms : ℕ → ℕ
unit_ms u = if u == b'm' then 60000 else if u == b'h' then 3600000 else 86400000

unfoldable pub duration_ms : ℕ → ℕ → Result ℕ
duration_ms n mult =
    if ltb max_int64 n
    then err duration_out_of_range
    else if n == 0
    then err duration_zero
    else if ltb (max_int64 / mult) n
    then err duration_out_of_range
    else ok (n * mult % 2 ^ 64)

unfoldable pub parse_duration : Text → Result ℕ
unfolding match_duration duration_ms
parse_duration s = elim (match_duration s) [
  | none ↦ err bad_duration
  | some (digits, u) ↦ duration_ms (number_of 0 digits) (unit_ms u)
]

-- `dslKeyRe`
unfoldable pub all_key : Text → Bool
all_key [] = true
all_key (d ∷ t) = (is_alpha d || is_digit d || d == b'_' || d == b'.') && all_key t

unfoldable pub is_key : Text → Bool
unfolding all_key
is_key [] = false
is_key (c ∷ s) = (is_alpha c || c == b'_') && all_key s

abbrev pub is_quote : ℕ → Bool
is_quote c = c == b'\'' || c == b'"'

-- The `default` case of the token loop
unfoldable pub parse_filter : Text → Result Filter
unfolding is_key
parse_filter tok = elim (cut b'=' tok) [
  | none ↦ err not_understood
  | some (key, val) ↦ elim (trim_both is_quote val) [
    | [] ↦ err bad_filter
    | c ∷ s ↦ if is_key key then ok (record { key = key; value = c ∷ s }) else err bad_filter
  ]
]

pub data Keyword : Type 0 where
  per last by other : Keyword

-- the `switch` of the token loop
unfoldable pub keyword : Text → Keyword
keyword tok =
    let t = map to_lower tok in
    if str_eq t (codes "per")
    then per
    else if str_eq t (codes "last")
    then last
    else if str_eq t (codes "by")
    then by
    else other

unfoldable pub parse_tokens : Query → List Text → Result Query
unfolding parse_duration parse_filter keyword
parse_tokens d [] = ok d
parse_tokens d (tok ∷ []) = elim (keyword tok) [
  | per ↦ err (if d.bucket_ms == 0 then per_needs_duration else per_twice)
  | last ↦ err (if d.window_ms == 0 then last_needs_duration else last_twice)
  | by ↦ err only_by_service
  | other ↦ do f ← parse_filter tok; ok (record d { filters = d.filters ++ f ∷ [] })
]
parse_tokens d (tok ∷ next ∷ rest) = elim (keyword tok) [
  | per ↦
      if not (d.bucket_ms == 0)
      then err per_twice
      else do ms ← parse_duration next; parse_tokens (record d { bucket_ms = ms }) rest
  | last ↦
      if not (d.window_ms == 0)
      then err last_twice
      else do ms ← parse_duration next; parse_tokens (record d { window_ms = ms }) rest
  | by ↦
      let counted = parse_tokens (record d { by_service = true }) rest in
      if str_eq (map to_lower next) (codes "service") then counted else err only_by_service
  | other ↦ do
    f ← parse_filter tok
    parse_tokens (record d { filters = d.filters ++ f ∷ [] }) (next ∷ rest)
]

-- What `ParseDSL` does behind its loop.
unfoldable pub complete : Query → Result Query
complete d =
    if str_eq d.verb (codes "latest") && not (d.bucket_ms == 0)
    then err latest_takes_no_per
    else ok (if d.window_ms == 0 then record d { window_ms = default_window_ms } else d)

-- The query before its first token.
abbrev pub no_clauses : Text → Text → Query
no_clauses verb metric = record {
  verb = verb;
  metric = metric;
  filters = [];
  bucket_ms = 0;
  window_ms = 0;
  by_service = false;
  from_ms = ℤ.pos 0;
  to_ms = ℤ.pos 0;
}

unfoldable pub parse_dsl : Text → Result Query
unfolding match_head parse_tokens complete
parse_dsl input = elim (match_head input) [
  | none ↦ err bad_head
  | some (verb, metric, rest) ↦
      if not (contains verbs (map to_lower verb))
      then err unknown_verb
      else do d ← parse_tokens (no_clauses (map to_lower verb) metric) (fields rest); complete d
]
