-- ===== src/Tests/Parsers.antt =====
-- A payload of two lines through the parsers, over a small standard library.
use pooml.Base.{ℕ, ◌*◌, ◌/◌, ◌≤◌, ◌≡◌, refl, leb, ltb, [], ◌∷◌, none, some, map, length, take, ◌++◌}
use pooml.Base.Int.{pos}
use pooml.Bytes.{Bytes, codes, str_eq}
use pooml.Dict.{lookup, bytes_eq}
use pooml.Strings.{lines, lines_from, trim_both, is_space, skip_while, reverse_onto}
use pooml.Ingestion.Parsers.{
  Stdlib, Value, max_records_per_payload, line_log, parse_line, parse_json_line, json_log,
  fallback_level, first_level, level_from, numeric_level, to_ms,
}
use pooml.Ingestion.Parsers.Lines.{kept, parse_plain_payload, parse_plain_payload_lem}
use pooml.Ingestion.Parsers.Levels.{AllStamped, parse_payload-AllStamped}
use pooml.Ingestion.Parsers.Fluentbit.{parse_payload}

-- Numbers are whole; only one object decodes.
abbrev small : Stdlib
small = record {
  Float = ℕ;
  float_le = leb;
  float_lt = ltb;
  of_ℕ = λ n. n;
  times = λ a b. a * b;
  over = λ a b. a / b;
  trunc = pos;
  unmarshal = λ s. lookup s (
      (codes "{level:50}", (codes "level", Value.num 50) ∷ (codes "ts", Value.num 1780000000) ∷ [])
      ∷ []);
  unmarshal_array = λ s. none;
  marshal = λ m. none;
  parse_time = λ layout s. none;
  match_clf = λ s. none;
  find_plain_level = λ s. [];
  to_lower = λ s. s;
  trim_space = trim_both is_space;
  atoi = λ s. none;
}

abbrev payload : Bytes
payload = codes "{level:50} " ++ (10 ∷ 10 ∷ codes "started")

-- bunyan's 50 is an error, and a second is a thousand milliseconds.
bunyan_level :
    (line_log small (codes "api") (codes "h1") (pos 7) (codes "{level:50}")).level ≡ some 4
unfolding line_log parse_line parse_json_line json_log fallback_level first_level level_from
    numeric_level lookup str_eq
bunyan_level = refl

seconds : to_ms small 1780000000 ≡ pos 1780000000000
unfolding to_ms
seconds = refl

two_lines : kept (trim_both is_space) (lines payload) ≡ codes "{level:50}" ∷ codes "started" ∷ []
unfolding kept lines_from trim_both is_space skip_while reverse_onto str_eq
two_lines = refl

parse_plain_payload_example :
    let ls = take max_records_per_payload (kept (trim_both is_space) (lines payload)) in
    (parse_plain_payload small (codes "api") (codes "h1") payload (pos 7)
      ≡ map (line_log small (codes "api") (codes "h1") (pos 7)) ls)
    × (map (λ l. l.raw) (parse_plain_payload small (codes "api") (codes "h1") payload (pos 7)) ≡ ls)
parse_plain_payload_example =
    parse_plain_payload_lem small (codes "api") (codes "h1") (pos 7) payload

parse_payload-AllStamped_example :
    let logs = parse_payload small (codes "api") (codes "h1") payload (pos 7) in
    AllStamped (codes "h1") (pos 7) logs × (length logs ≤ max_records_per_payload)
parse_payload-AllStamped_example =
    parse_payload-AllStamped small (codes "api") (codes "h1") payload (pos 7)
