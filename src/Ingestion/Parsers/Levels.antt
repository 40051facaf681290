-- ===== src/Ingestion/Parsers/Levels.antt =====
-- What every log that the parsers return carries.
use mathlib.Core.Path.{subst}
use pooml.Base.{
  ℕ, ◌≤◌, ◌≡◌, refl, sym, false, List, [], ◌∷◌, some, if◌then◌else◌, map, length, take, length-take,
  length-map, arith, Option-cases, inl, inr, if_cases, ◌⊎◌,
}
use pooml.Base.Int.{ℤ}
use pooml.Bytes.{Bytes, codes}
use pooml.Common.{StandardLog}
use pooml.Dict.{bytes_eq, lookup}
use pooml.Strings.{lines}
use pooml.Ingestion.Parsers.{
  Value, Object, Stdlib, level_names, numeric_level, level_from, first_level, json_log, clf_log,
  parse_plain_line, parse_line, line_log, fallback_level, is_zero, max_records_per_payload,
}
use pooml.Ingestion.Parsers.Lines.{
  parse_line_cases, parse_plain_payload, parse_plain_payload_lem, kept,
}
use pooml.Ingestion.Parsers.Fluentbit.{
  trim_line_end, string_at, record_line, stamped_record, record_log, record_logs, record_date,
  record_timestamp, parse_fluent_bit, envelope_records, array_records, parse_payload,
}

abbrev LevelsIn : List (Bytes × ℕ) → Type 0
LevelsIn [] = Unit
LevelsIn ((name, n) ∷ names) = (n ≤ 5) × LevelsIn names

lookup-le :
    (name : Bytes) (names : List (Bytes × ℕ)) (n : ℕ)
    → LevelsIn names
    → lookup name names ≡ some n
    → n ≤ 5
unfolding lookup
lookup-le name [] n v h = ground (arith, h)
lookup-le name ((key, m) ∷ names) n v h = ground (arith, lookup-le name names n v.1)

level_names-le : (name : Bytes) (n : ℕ) → lookup name level_names ≡ some n → n ≤ 5
level_names-le name n h = lookup-le name level_names n (omega arith) h

numeric_level-le : (z : ℤ) (n : ℕ) → numeric_level z ≡ some n → n ≤ 5
unfolding numeric_level
numeric_level-le z n h = ground arith

level_from-le : (std : Stdlib) (v : Value std.Float) (n : ℕ) → level_from std v ≡ some n → n ≤ 5
unfolding level_from
level_from-le std (Value.str s) n h = level_names-le (std.to_lower s) n h
level_from-le std (Value.num x) n h = numeric_level-le (std.trunc x) n h
level_from-le std (Value.int z) n h = ground (arith, h)
level_from-le std (Value.opaque_value z) n h = ground (arith, h)

first_level-le :
    (std : Stdlib) (keys : List Bytes) (m : Object std.Float) (n : ℕ)
    → first_level std keys m ≡ some n
    → n ≤ 5
unfolding first_level
first_level-le std [] m n h = ground (arith, h)
first_level-le std (k ∷ keys) m n h = elim (Option-cases (lookup k m)) [
  | inl e ↦ ground (arith, first_level-le std keys m n)
  | inr (v, e) ↦ ground (arith, first_level-le std keys m n, level_from-le std v n)
]

parse_line-le : (std : Stdlib) (line : Bytes) (n : ℕ) → (parse_line std line).level ≡ some n → n ≤ 5
unfolding json_log clf_log parse_plain_line
parse_line-le std line n =
    parse_line_cases std (λ l. l.level ≡ some n → n ≤ 5) line
      (λ m h. first_level-le std (codes "level" ∷ codes "lvl" ∷ codes "severity" ∷ []) m n h)
      (λ m h. ground arith)
      (λ h. ground (arith, level_names-le (std.to_lower (std.find_plain_level line)) n))

-- A log as the store takes it: a known level, the host and the arrival of its payload, and an event
-- time.
pub record IsStamped (host : Bytes) (received_at : ℤ) (l : StandardLog) : Type 0 where
  pub known : (n : ℕ) × (l.level ≡ some n) × (n ≤ 5)
  pub same_host : l.host ≡ host
  pub same_arrival : l.ingested_at ≡ received_at
  pub timed : (is_zero l.timestamp ≡ false) ⊎ (l.timestamp ≡ received_at)

abbrev pub AllStamped : Bytes → ℤ → List StandardLog → Type 0
AllStamped host received_at [] = Unit
AllStamped host received_at (l ∷ ls) = IsStamped host received_at l × AllStamped host received_at ls

fallback_level-IsStamped :
    (host : Bytes) (received_at : ℤ) (l : StandardLog)
    → ((n : ℕ) → l.level ≡ some n → n ≤ 5)
    → l.host ≡ host
    → l.ingested_at ≡ received_at
    → (is_zero l.timestamp ≡ false) ⊎ (l.timestamp ≡ received_at)
    → IsStamped host received_at (fallback_level l)
unfolding fallback_level
fallback_level-IsStamped host received_at l le h a t = record {
  known = elim (Option-cases l.level) [
    | inl e ↦ (2, ground (arith, e), omega arith)
    | inr (n, e) ↦ (n, ground (arith, e), le n e)
  ];
  same_host = ground (arith, h);
  same_arrival = ground (arith, a);
  timed = ground (arith, t);
}

stamp_cases :
    (t received_at : ℤ)
    → let t' = if is_zero t then received_at else t in (is_zero t' ≡ false) ⊎ (t' ≡ received_at)
stamp_cases t received_at =
    if_cases (λ t'. (is_zero t' ≡ false) ⊎ (t' ≡ received_at)) (is_zero t) received_at t
      (λ _. inr refl) (λ e. inl e)

line_log-IsStamped :
    (std : Stdlib) (service host : Bytes) (received_at : ℤ) (line : Bytes)
    → IsStamped host received_at (line_log std service host received_at line)
unfolding line_log
line_log-IsStamped std service host received_at line =
    fallback_level-IsStamped host received_at _ (parse_line-le std line) refl refl
      (stamp_cases (parse_line std line).timestamp received_at)

record_line-le :
    (std : Stdlib) (r : Object std.Float) (l : StandardLog) (n : ℕ)
    → record_line std r ≡ some l
    → l.level ≡ some n
    → n ≤ 5
unfolding record_line
record_line-le std r l n e h =
    ground (arith, parse_line-le std (trim_line_end (string_at std (codes "log") r)) n)

record_timestamp_cases :
    (std : Stdlib) (r : Object std.Float) (received_at t : ℤ)
    → (is_zero (record_timestamp std r received_at t) ≡ false)
      ⊎ (record_timestamp std r received_at t ≡ received_at)
unfolding record_timestamp
record_timestamp_cases std r received_at t = stamp_cases (record_date std r t) received_at

record_log-IsStamped :
    (std : Stdlib) (service host : Bytes) (received_at : ℤ) (r : Object std.Float) (l : StandardLog)
    → ((n : ℕ) → l.level ≡ some n → n ≤ 5)
    → IsStamped host received_at (record_log std service host received_at r l)
unfolding record_log stamped_record
record_log-IsStamped std service host received_at r l le =
    fallback_level-IsStamped host received_at (stamped_record std service host received_at r l) le
      refl refl (record_timestamp_cases std r received_at l.timestamp)

record_logs-AllStamped :
    (std : Stdlib) (service host : Bytes) (received_at : ℤ) (rs : List (Object std.Float))
    → AllStamped host received_at (record_logs std service host received_at rs)
      × (length (record_logs std service host received_at rs) ≤ length rs)
unfolding record_logs
record_logs-AllStamped std service host received_at [] = (tt, omega arith)
record_logs-AllStamped std service host received_at (r ∷ rs) =
    let rest = record_logs-AllStamped std service host received_at rs in
    elim (Option-cases (record_line std r)) [
      | inl e ↦ rw (e, record_logs) (rest.0, omega (arith, rest.1))
      | inr (l, e) ↦
          rw (e, record_logs)
            (
              (
                record_log-IsStamped std service host received_at r l
                    (λ n h. record_line-le std r l n e h),
                rest.0,
              ),
              omega (arith, rest.1),
            )
    ]

map-AllStamped :
    (std : Stdlib) (service host : Bytes) (received_at : ℤ) (ls : List Bytes)
    → AllStamped host received_at (map (line_log std service host received_at) ls)
map-AllStamped std service host received_at [] = tt
map-AllStamped std service host received_at (s ∷ ls) = (
  line_log-IsStamped std service host received_at s,
  map-AllStamped std service host received_at ls,
)

module _ (std : Stdlib) (service host payload : Bytes) (received_at : ℤ) where
  -- What the theorem below says of the logs.
  abbrev Kept : List StandardLog → Type 0
  Kept logs = AllStamped host received_at logs × (length logs ≤ max_records_per_payload)

  -- ... where the number of lines is at most n
  length-map-take :
      (n : ℕ) (ls : List Bytes)
      → length (map (line_log std service host received_at) (take n ls)) ≤ n
  length-map-take n ls =
      omega
        (arith, length-map (take n ls) (line_log std service host received_at), length-take n ls)

  plain-Kept : Kept (parse_plain_payload std service host payload received_at)
  plain-Kept =
      let ls = kept std.trim_space (lines payload) in
      subst Kept (sym (parse_plain_payload_lem std service host received_at payload).0) (
        map-AllStamped std service host received_at (take max_records_per_payload ls),
        length-map-take max_records_per_payload ls,
      )

  records-Kept :
      (rs : List (Object std.Float))
      → Kept (record_logs std service host received_at (take max_records_per_payload rs))
  records-Kept rs =
      let all =
        record_logs-AllStamped std service host received_at (take max_records_per_payload rs) in
      (all.0, omega (arith, all.1, length-take max_records_per_payload rs))

  fluent_bit-Kept :
      (logs : List StandardLog)
      → parse_fluent_bit std service host payload received_at ≡ some logs
      → Kept logs
  unfolding parse_fluent_bit
  fluent_bit-Kept logs h = elim (Option-cases (array_records std (std.trim_space payload))) [
    | inl e ↦ absurd (ground (arith, e, h))
    | inr ([], e) ↦ absurd (ground (arith, e, h))
    | inr (r ∷ rs, e) ↦ elim (Option-cases (envelope_records std (r ∷ rs))) [
      | inl f ↦ absurd (ground (arith, e, f, h))
      | inr (records, f) ↦ subst Kept (ground (arith, e, f, h)) (records-Kept records)
    ]
  ]

  -- Whatever the payload, `parsePayload` returns at most 100000 logs, and every one of them has a
  -- level from 0 to 5, the host and the arrival it was called with, and an event time that is not
  -- zero or else is the arrival.
  pub parse_payload-AllStamped :
      let logs = parse_payload std service host payload received_at in
      AllStamped host received_at logs × (length logs ≤ max_records_per_payload)
  unfolding parse_payload
  parse_payload-AllStamped =
      elim (Option-cases (parse_fluent_bit std service host payload received_at)) [
        | inl e ↦ rw (e, parse_payload) plain-Kept
        | inr (logs, e) ↦ rw (e, parse_payload) (fluent_bit-Kept logs e)
      ]
