-- ===== src/Ingestion/Parsers.antt =====
-- ingestion/parsers.go. Of the standard library, the JSON codec, the layouts of `time.Parse`, the
-- access-log expression and the floats are arguments, about which nothing is assumed.
pub mod Fluentbit
pub mod Lines
pub mod Levels
use pooml.Base.{
  ℕ, zero, suc, ◌+◌, ◌-◌, ◌*◌, ◌/◌, ◌%◌, Bool, true, false, not, ◌&&◌, ◌||◌, List, [], ◌∷◌, ◌++◌,
  Option, none, some, ltb, leb, ◌==◌, if◌then◌else◌, map, length,
}
use pooml.Base.Int.{ℤ, pos, negsuc}
use pooml.Bytes.{Bytes, codes, str_eq}
use pooml.Common.{
  StandardLog, level_trace, level_debug, level_info, level_warn, level_error, level_fatal,
}
use pooml.Dict.{bytes_eq, lookup}
use pooml.Strings.{cut, itoa, split_3, number_of}

-- A decoded JSON value as the parsers tell them apart. Numbers decode to float64; an integer
-- stands only in what is encoded.
pub data Value (F : Type 0) : Type 0 where
  str : Bytes → Value F
  num : F → Value F
  int : ℤ → Value F
  opaque_value : ℕ → Value F

abbrev pub Object : Type 0 → Type 0
Object F = List (Bytes × Value F)

-- The groups of `clfRe`.
pub record ClfMatch : Type 0 where
  pub ip : Bytes
  pub user : Bytes
  pub time : Bytes
  pub request : Bytes
  pub status : Bytes
  pub bytes : Bytes
  pub referer : Bytes
  pub user_agent : Bytes

-- What the parsers use of Go's standard library.
pub record Stdlib : Type 1 where
  pub Float : Type 0  -- float64
  pub float_le : Float → Float → Bool
  pub float_lt : Float → Float → Bool
  pub of_ℕ : ℕ → Float
  pub times : Float → Float → Float
  pub over : Float → Float → Float
  pub trunc : Float → ℤ  -- the conversion to int64
  pub unmarshal : Bytes → Option (Object Float)
  pub unmarshal_array : Bytes → Option (List (Option (Object Float)))  -- `none` is null
  pub marshal : Object Float → Option Bytes
  pub parse_time : Bytes → Bytes → Option ℤ  -- layout and text, to Unix milliseconds
  pub match_clf : Bytes → Option ClfMatch
  pub find_plain_level : Bytes → Bytes  -- empty where there is no match
  pub to_lower : Bytes → Bytes
  pub trim_space : Bytes → Bytes
  pub atoi : Bytes → Option ℤ

-- The largest number of logs from one payload
abbrev pub max_records_per_payload : ℕ
max_records_per_payload = 100000

abbrev pub level_names : List (Bytes × ℕ)
level_names =
    (codes "trace", level_trace)
    ∷ (codes "debug", level_debug)
    ∷ (codes "info", level_info)
    ∷ (codes "information", level_info)
    ∷ (codes "warn", level_warn)
    ∷ (codes "warning", level_warn)
    ∷ (codes "error", level_error)
    ∷ (codes "err", level_error)
    ∷ (codes "fatal", level_fatal)
    ∷ (codes "panic", level_fatal)
    ∷ (codes "critical", level_fatal)
    ∷ []

abbrev pub time_layouts : List Bytes
time_layouts =
    codes "2006-01-02T15:04:05.999999999Z07:00"
    ∷ codes "2006-01-02T15:04:05Z07:00"
    ∷ codes "2006-01-02T15:04:05"
    ∷ codes "2006-01-02 15:04:05"
    ∷ []

-- `common.StandardLog{Raw: raw}`
abbrev pub raw_log : Bytes → StandardLog
raw_log raw = record {
  timestamp = pos 0;
  ingested_at = pos 0;
  level = none;
  service = [];
  host = [];
  message = none;
  parsed = none;
  raw = raw;
}

unfoldable pub fallback_level : StandardLog → StandardLog
fallback_level l = elim l.level [ none ↦ record l { level = some level_info } | some n ↦ l ]

-- Numeric levels: 0 to 5, or bunyan's 10 to 60.
unfoldable pub numeric_level : ℤ → Option ℕ
numeric_level (pos n) =
    if leb n 5
    then some n
    else if leb 10 n && leb n 60 && n % 10 == 0
    then some (n / 10 - 1)
    else none
numeric_level (negsuc n) = none

unfoldable pub split_request : Bytes → Bytes × Bytes × Bytes
unfolding split_3
split_request req = elim (split_3 b' ' req) [
  | method ∷ path ∷ proto ∷ [] ↦ (method, path, proto)
  | method ∷ path ∷ [] ↦ (method, path, [])
  | _ ↦ (req, [], [])
]

-- `ts != 0`
abbrev pub is_zero : ℤ → Bool
is_zero (pos n) = n == 0
is_zero (negsuc n) = false

module _ (std : Stdlib) where
  open std use {
    Float, float_le, float_lt, of_ℕ, times, over, trunc, unmarshal, marshal, parse_time, match_clf,
    find_plain_level, to_lower, trim_space, atoi,
  }

  unfoldable pub level_from : Value Float → Option ℕ
  unfolding numeric_level
  level_from (Value.str s) = lookup (to_lower s) level_names
  level_from (Value.num x) = numeric_level (trunc x)
  level_from _ = none

  unfoldable pub to_ms : Float → ℤ
  to_ms v =
      if float_le v (of_ℕ 0)
      then pos 0
      else if float_lt v (of_ℕ 100000000000)
      then trunc (times v (of_ℕ 1000))
      else if float_lt v (of_ℕ 100000000000000)
      then trunc v
      else if float_lt v (of_ℕ 100000000000000000)
      then trunc (over v (of_ℕ 1000))
      else trunc (over v (of_ℕ 1000000))

  unfoldable pub try_layouts : List Bytes → Bytes → ℤ
  try_layouts [] s = pos 0
  try_layouts (layout ∷ layouts) s = elim (parse_time layout s) [
    | some t ↦ t
    | none ↦ try_layouts layouts s
  ]

  unfoldable pub parse_time_string : Bytes → ℤ
  unfolding try_layouts
  parse_time_string s = try_layouts time_layouts s

  unfoldable pub ts_from : Value Float → ℤ
  unfolding to_ms parse_time_string
  ts_from (Value.num x) = to_ms x
  ts_from (Value.str s) = parse_time_string s
  ts_from _ = pos 0

  -- `strings.Cut` at a space: what stands before it, and what stands behind it.
  abbrev pub cut_space : Bytes → Bytes × Bytes
  cut_space s = elim (cut b' ' s) [ none ↦ (s, []) | some (before, after) ↦ (before, after) ]

  unfoldable pub leading_timestamp : Bytes → ℤ
  unfolding parse_time_string
  leading_timestamp s =
      let (first, rest) = cut_space s in
      let ts = parse_time_string first in
      let second = (cut_space rest).0 in
      if not (is_zero ts)
      then ts
      else if str_eq second []
      then pos 0
      else parse_time_string (first ++ (b' ' ∷ second))

  unfoldable pub first_level : List Bytes → Object Float → Option ℕ
  unfolding level_from
  first_level [] m = none
  first_level (k ∷ ks) m =
      let rest = first_level ks m in
      elim (lookup k m) [
        | none ↦ rest
        | some v ↦ elim (level_from v) [ some lv ↦ some lv | none ↦ rest ]
      ]

  unfoldable pub first_timestamp : List Bytes → Object Float → ℤ
  unfolding ts_from
  first_timestamp [] m = pos 0
  first_timestamp (k ∷ ks) m =
      let rest = first_timestamp ks m in
      elim (lookup k m) [ none ↦ rest | some v ↦ if is_zero (ts_from v) then rest else ts_from v ]

  unfoldable pub first_message : List Bytes → Object Float → Option Bytes
  first_message [] m = none
  first_message (k ∷ ks) m =
      let rest = first_message ks m in
      elim (lookup k m) [ some (Value.str s) ↦ if str_eq s [] then rest else some s | _ ↦ rest ]

  unfoldable pub json_log : Bytes → Object Float → StandardLog
  unfolding first_level first_timestamp first_message
  json_log line m = record (raw_log line) {
    timestamp =
        first_timestamp
          (codes "ts" ∷ codes "time" ∷ codes "timestamp" ∷ codes "@timestamp" ∷ codes "date" ∷ [])
          m;
    level = first_level (codes "level" ∷ codes "lvl" ∷ codes "severity" ∷ []) m;
    message = first_message (codes "msg" ∷ codes "message" ∷ []) m;
    parsed = some line;
  }

  unfoldable pub parse_json_line : Bytes → Option StandardLog
  unfolding json_log
  parse_json_line [] = none
  parse_json_line (c ∷ line) =
      if c == b'{'
      then elim (unmarshal (c ∷ line)) [ none ↦ none | some m ↦ some (json_log (c ∷ line) m) ]
      else none

  abbrev pub member_unless_dash : Bytes → Bytes → Object Float
  member_unless_dash key s =
      if str_eq s [] || str_eq s (codes "-") then [] else (key, Value.str s) ∷ []

  unfoldable pub clf_object : ClfMatch → ℕ → Object Float
  unfolding split_request
  clf_object m status =
      let (method, path, proto) = split_request m.request in
      let size : Object Float = elim (atoi m.bytes) [
        | none ↦ []
        | some b ↦ (codes "bytes", Value.int b) ∷ []
      ] in
      (codes "ip", Value.str m.ip)
      ∷ (codes "method", Value.str method)
      ∷ (codes "path", Value.str path)
      ∷ (codes "status", Value.int (pos status))
      ∷ ((if str_eq proto [] then [] else (codes "proto", Value.str proto) ∷ [])
          ++ (member_unless_dash (codes "user") m.user
              ++ (size
                  ++ (member_unless_dash (codes "referer") m.referer
                      ++ member_unless_dash (codes "user_agent") m.user_agent))))

  unfoldable pub clf_log : Bytes → ClfMatch → StandardLog
  unfolding split_request clf_object
  clf_log line m =
      let status = number_of 0 m.status in
      let lvl =
        if leb 500 status then level_error else if leb 400 status then level_warn else level_info in
      let (method, path, proto) = split_request m.request in
      record (raw_log line) {
        timestamp = elim (parse_time (codes "02/Jan/2006:15:04:05 -0700") m.time) [
          | none ↦ pos 0
          | some t ↦ t
        ];
        level = some lvl;
        message = some (method ++ (b' ' ∷ (path ++ (b' ' ∷ itoa status))));
        parsed = marshal (clf_object m status);
      }

  unfoldable pub parse_clf_line : Bytes → Option StandardLog
  unfolding clf_log
  parse_clf_line line = elim (match_clf line) [ none ↦ none | some m ↦ some (clf_log line m) ]

  unfoldable pub parse_plain_line : Bytes → StandardLog
  unfolding leading_timestamp
  parse_plain_line line =
      let m = find_plain_level line in
      record (raw_log line) {
        timestamp = leading_timestamp line;
        level = if str_eq m [] then none else lookup (to_lower m) level_names;
        message = some line;
      }

  unfoldable pub parse_line : Bytes → StandardLog
  unfolding parse_json_line parse_clf_line parse_plain_line
  parse_line line = elim (parse_json_line line) [
    | some l ↦ l
    | none ↦ elim (parse_clf_line line) [ some l ↦ l | none ↦ parse_plain_line line ]
  ]

  -- What the loop of `parsePayload` makes of one line.
  unfoldable pub line_log : Bytes → Bytes → ℤ → Bytes → StandardLog
  unfolding parse_line fallback_level
  line_log service host received_at line =
      let l = parse_line line in
      fallback_level (record l {
        service = service;
        host = host;
        ingested_at = received_at;
        timestamp = if is_zero l.timestamp then received_at else l.timestamp;
      })

  -- The loop of `parsePayload`, whose rounds shorten `rest`.
  unfoldable pub parse_lines : ℕ → Bytes → Bytes → ℤ → Bytes → List StandardLog → List StandardLog
  unfolding line_log
  parse_lines zero service host received_at rest out = out
  parse_lines (suc fuel) service host received_at [] out = out
  parse_lines (suc fuel) service host received_at (c ∷ s) out =
      let (line, rest) : Bytes × Bytes = elim (cut 10 (c ∷ s)) [
        | none ↦ (c ∷ s, [])
        | some (line, rest) ↦ (line, rest)
      ] in
      let skipped = parse_lines fuel service host received_at rest out in
      let parsed =
        parse_lines fuel service host received_at rest
          (out ++ line_log service host received_at (trim_space line) ∷ []) in
      if str_eq (trim_space line) []
      then skipped
      else if leb max_records_per_payload (length out)
      then out
      else parsed
