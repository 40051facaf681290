-- ===== src/Query/Dsl/Parsed.antt =====
-- What a parsed query satisfies.
use pooml.Base.{
  ℕ, ◌*◌, ◌^◌, ◌<◌, ◌≡◌, ◌≢◌, ◌⊎◌, refl, Bool, true, false, not, List, [], ◌∷◌, ◌++◌, some, ◌==◌,
  if◌then◌else◌, arith, map, Option-cases, Bool-cases, inl, inr,
}
use pooml.Bytes.{codes, str_eq}
use pooml.Strings.{Text, number_of, fields, to_lower}
use pooml.Query.Dsl.{
  Result, ok, err, per_twice, last_twice, only_by_service, unknown_verb, DslError, ◌>>=◌, Filter,
  Query, Keyword, per, last, by, other, contains, verbs, is_key, match_head, match_metric,
  metric_of, match_duration, unit_ms, duration_ms, parse_duration, parse_filter, keyword,
  parse_tokens, complete, no_clauses, parse_dsl,
}

duration_ms-ok :
    (n u ms : ℕ)
    → duration_ms n (unit_ms u) ≡ ok ms
    → (ms ≡ n * unit_ms u) × (0 < ms) × (ms < 2 ^ 63)
unfolding duration_ms
duration_ms-ok n u ms h = ground arith

-- A duration that is accepted is the product that its digits and unit say, is not zero, and fits
-- an int64: the multiplication never wraps.
pub parse_duration_exact :
    (s : Text) (ms : ℕ)
    → parse_duration s ≡ ok ms
    → (digits : Text) × (u : ℕ) × (match_duration s ≡ some (digits, u))
      × (ms ≡ number_of 0 digits * unit_ms u)
      × (0 < ms)
      × (ms < 2 ^ 63)
unfolding parse_duration
parse_duration_exact s ms h = elim (Option-cases (match_duration s)) [
  | inl bad ↦ absurd (ground (arith, bad))
  | inr ((digits, u), m) ↦
      let exact = duration_ms-ok (number_of 0 digits) u ms (rw (m, parse_duration) at h) in
      (digits, u, m, exact.0, exact.1, exact.2)
]

abbrev pub IsFilter : Filter → Type 0
IsFilter f = (is_key f.key ≡ true) × (f.value ≢ [])

abbrev pub AllFilters : List Filter → Type 0
AllFilters [] = Unit
AllFilters (f ∷ fs) = IsFilter f × AllFilters fs

AllFilters-concat :
    (fs : List Filter) (f : Filter) → AllFilters fs → IsFilter f → AllFilters (fs ++ f ∷ [])
AllFilters-concat [] f a v = (v, tt)
AllFilters-concat (g ∷ fs) f a v = (a.0, AllFilters-concat fs f a.1 v)

parse_filter-IsFilter : (tok : Text) (f : Filter) → parse_filter tok ≡ ok f → IsFilter f
unfolding parse_filter
parse_filter-IsFilter tok f h = ground arith

-- What the token loop keeps.
record IsSound (d : Query) : Type 0 where
  filters_sound : AllFilters d.filters
  bucket_fits : d.bucket_ms < 2 ^ 63
  window_fits : d.window_ms < 2 ^ 63

duration_fits : (s : Text) (ms : ℕ) → parse_duration s ≡ ok ms → ms < 2 ^ 63
duration_fits s ms h = let (digits, u, m, e, pos, fits) = parse_duration_exact s ms h in fits

-- A success of a bind, by its two successes.
>>=-eq-ok {ℓ ℓ'} :
    {T : Type ℓ} {S : Type ℓ'} (r : Result T) (next : T → Result S) {last_value : S}
    → r >>= next ≡ ok last_value
    → (value : T) × (r ≡ ok value) × (next value ≡ ok last_value)
>>=-eq-ok (err why) next e = absurd (ground (arith, e))
>>=-eq-ok (ok value) next e = (value, refl, e)

-- The verb and the metric stay, and what a clause adds is sound.
record Extends (d d' : Query) : Type 0 where
  same_verb : d'.verb ≡ d.verb
  same_metric : d'.metric ≡ d.metric
  sound : IsSound d → IsSound d'

add_filter-Extends :
    (d d' : Query) (f : Filter)
    → IsFilter f
    → Extends (record d { filters = d.filters ++ f ∷ [] }) d'
    → Extends d d'
add_filter-Extends d d' f v x = record {
  same_verb = x.same_verb;
  same_metric = x.same_metric;
  sound = λ s. x.sound (record {
    filters_sound = AllFilters-concat d.filters f s.filters_sound v;
    bucket_fits = s.bucket_fits;
    window_fits = s.window_fits;
  });
}

Keyword-cases : (k : Keyword) → (k ≡ other) ⊎ ((k ≡ per) ⊎ (k ≡ last) ⊎ (k ≡ by))
Keyword-cases other = inl refl
Keyword-cases per = inr (inl refl)
Keyword-cases last = inr (inr (inl refl))
Keyword-cases by = inr (inr (inr refl))

set_bucket-Extends :
    (d d' : Query) (ms : ℕ) → ms < 2 ^ 63 → Extends (record d { bucket_ms = ms }) d' → Extends d d'
set_bucket-Extends d d' ms f x = record {
  same_verb = x.same_verb;
  same_metric = x.same_metric;
  sound = λ s.
      x.sound
        (record { filters_sound = s.filters_sound; bucket_fits = f; window_fits = s.window_fits });
}

set_window-Extends :
    (d d' : Query) (ms : ℕ) → ms < 2 ^ 63 → Extends (record d { window_ms = ms }) d' → Extends d d'
set_window-Extends d d' ms f x = record {
  same_verb = x.same_verb;
  same_metric = x.same_metric;
  sound = λ s.
      x.sound
        (record { filters_sound = s.filters_sound; bucket_fits = s.bucket_fits; window_fits = f });
}

if_err {ℓ} :
    {A : Type ℓ} (b : Bool) (e : DslError) (m : Result A) {a : A}
    → (if b then err e else m) ≡ ok a
    → m ≡ ok a
if_err true e m h = cc
if_err false e m h = h

if_ok {ℓ} :
    {A : Type ℓ} (b : Bool) (e : DslError) (m : Result A) {a : A}
    → (if b then m else err e) ≡ ok a
    → m ≡ ok a
if_ok true e m h = h
if_ok false e m h = cc

-- One turn of the loop with a token behind it, from the rest of the loop.
two_tokens-Extends :
    (d d' : Query) (tok next : Text) (rest : List Text) (k : Keyword)
    → keyword tok ≡ k
    → ((e : Query) → parse_tokens e rest ≡ ok d' → Extends e d')
    → ((e : Query) → parse_tokens e (next ∷ rest) ≡ ok d' → Extends e d')
    → parse_tokens d (tok ∷ next ∷ rest) ≡ ok d'
    → Extends d d'
unfolding parse_tokens
two_tokens-Extends d d' tok next rest per e skip2 skip1 h =
    let (ms, parsed, later) =
      >>=-eq-ok (parse_duration next) (λ ms. parse_tokens (record d { bucket_ms = ms }) rest)
        (if_err (not (d.bucket_ms == 0)) per_twice _ (rw (e, parse_tokens) at h)) in
    set_bucket-Extends d d' ms (duration_fits next ms parsed) (skip2 _ later)
two_tokens-Extends d d' tok next rest last e skip2 skip1 h =
    let (ms, parsed, later) =
      >>=-eq-ok (parse_duration next) (λ ms. parse_tokens (record d { window_ms = ms }) rest)
        (if_err (not (d.window_ms == 0)) last_twice _ (rw (e, parse_tokens) at h)) in
    set_window-Extends d d' ms (duration_fits next ms parsed) (skip2 _ later)
two_tokens-Extends d d' tok next rest by e skip2 skip1 h =
    let counted =
      skip2 (record d { by_service = true })
        (if_ok (str_eq (map to_lower next) (codes "service")) only_by_service _
          (rw (e, parse_tokens) at h)) in
    record {
      same_verb = counted.same_verb;
      same_metric = counted.same_metric;
      sound = λ s. counted.sound (record {
        filters_sound = s.filters_sound;
        bucket_fits = s.bucket_fits;
        window_fits = s.window_fits;
      });
    }
two_tokens-Extends d d' tok next rest other e skip2 skip1 h =
    let (f, parsed, later) =
      >>=-eq-ok (parse_filter tok)
        (λ f. parse_tokens (record d { filters = d.filters ++ f ∷ [] }) (next ∷ rest))
        (rw (e, parse_tokens) at h) in
    add_filter-Extends d d' f (parse_filter-IsFilter tok f parsed) (skip1 _ later)

parse_tokens-Extends :
    (d d' : Query) (toks : List Text) → parse_tokens d toks ≡ ok d' → Extends d d'
unfolding parse_tokens
parse_tokens-Extends d d' [] h = ground arith
parse_tokens-Extends d d' (tok ∷ []) h = elim (Keyword-cases (keyword tok)) [
  | inl k ↦
      let (f, parsed, e) = >>=-eq-ok (parse_filter tok) _ (rw (k, parse_tokens) at h) in
      add_filter-Extends d d' f (parse_filter-IsFilter tok f parsed) (ground (arith, e))
  | inr k ↦ ground (arith, k)
]
parse_tokens-Extends d d' (tok ∷ next ∷ rest) h =
    two_tokens-Extends d d' tok next rest (keyword tok) refl (λ e. parse_tokens-Extends e d' rest)
      (λ e. parse_tokens-Extends e d' (next ∷ rest)) h

complete-lem :
    (d d' : Query)
    → complete d ≡ ok d'
    → IsSound d
    → (d'.verb ≡ d.verb)
      × (d'.metric ≡ d.metric)
      × IsSound d'
      × (0 < d'.window_ms)
      × (str_eq d'.verb (codes "latest") ≡ true → d'.bucket_ms ≡ 0)
unfolding complete
complete-lem d d' h s = ground arith

metric_of-ne-nil : (inner metric : Text) → metric_of inner ≡ some metric → metric ≢ []
unfolding metric_of
metric_of-ne-nil inner metric h = ground arith

match_metric-ne-nil :
    (v s : Text) {verb metric rest : Text}
    → match_metric v s ≡ some (verb, metric, rest)
    → metric ≢ []
unfolding match_metric
match_metric-ne-nil v s h = ground arith

match_head-ne-nil :
    (input : Text) {verb metric rest : Text}
    → match_head input ≡ some (verb, metric, rest)
    → metric ≢ []
unfolding match_head
match_head-ne-nil input h = ground arith

-- What the SQL generation relies on.
pub record IsParsed (d : Query) : Type 0 where
  pub known_verb : contains verbs d.verb ≡ true
  pub metric_named : d.metric ≢ []
  pub filters_sound : AllFilters d.filters
  pub window_set : 0 < d.window_ms
  pub window_fits : d.window_ms < 2 ^ 63
  pub bucket_fits : d.bucket_ms < 2 ^ 63
  pub latest_plain : str_eq d.verb (codes "latest") ≡ true → d.bucket_ms ≡ 0

tokens-IsParsed :
    (verb metric rest : Text) (d : Query)
    → metric ≢ []
    → contains verbs (map to_lower verb) ≡ true
    → (do d ← parse_tokens (no_clauses (map to_lower verb) metric) (fields rest); complete d) ≡ ok d
    → IsParsed d
tokens-IsParsed verb metric rest d named known h =
    let start = no_clauses (map to_lower verb) metric in
    let (mid, tokens, last_part) = >>=-eq-ok (parse_tokens start (fields rest)) complete h in
    let x = parse_tokens-Extends start mid (fields rest) tokens in
    let sound =
      x.sound
        (record { filters_sound = tt; bucket_fits = omega arith; window_fits = omega arith }) in
    let (v, m, s, w, l) = complete-lem mid d last_part sound in
    record {
      known_verb = rw (v, x.same_verb) known;
      metric_named = rw (m, x.same_metric) named;
      filters_sound = s.filters_sound;
      window_set = w;
      window_fits = s.window_fits;
      bucket_fits = s.bucket_fits;
      latest_plain = l;
    }

-- A query that parses has a known verb, a metric, filters with a proper key and a value, a window
-- that is set, durations that fit an int64, and no bucket under `latest`.
pub parse_dsl-IsParsed : (input : Text) (d : Query) → parse_dsl input ≡ ok d → IsParsed d
unfolding parse_dsl
parse_dsl-IsParsed input d h = elim (Option-cases (match_head input)) [
  | inl bad ↦ absurd (ground (arith, bad))
  | inr ((verb, metric, rest), m) ↦
      let body = rw (m, parse_dsl) at h in
      elim (Bool-cases (contains verbs (map to_lower verb))) [
        | inl known ↦
            tokens-IsParsed verb metric rest d (match_head-ne-nil input m) known
              (if_err (not (contains verbs (map to_lower verb))) unknown_verb _ body)
        | inr unknown ↦ absurd (ground (arith, body, unknown))
      ]
]
