-- ===== src/Ingestion/Parsers/Fluentbit.antt =====
-- ingestion/fluentbit.go, and `parsePayload` of ingestion/parsers.go, which tries it first.
use pooml.Base.{not, ◌||◌, List, [], ◌∷◌, Option, none, some, ◌==◌, if◌then◌else◌, take}
use pooml.Base.Int.{ℤ}
use pooml.Bytes.{Bytes, codes, str_eq}
use pooml.Common.{StandardLog}
use pooml.Dict.{bytes_eq, lookup, is_some}
use pooml.Strings.{skip_while, reverse_onto}
use pooml.Ingestion.Parsers.{
  Value, Object, Stdlib, parse_line, to_ms, fallback_level, raw_log, is_zero,
  max_records_per_payload,
}
use pooml.Ingestion.Parsers.Lines.{parse_plain_payload}

-- `strings.TrimRight(line, "\r\n")`
unfoldable pub trim_line_end : Bytes → Bytes
unfolding skip_while reverse_onto
trim_line_end s = reverse_onto (skip_while (λ c. c == 13 || c == 10) (reverse_onto s [])) []

-- `strings.TrimPrefix(name, "/")`
unfoldable pub trim_slash : Bytes → Bytes
trim_slash [] = []
trim_slash (c ∷ s) = if c == b'/' then s else c ∷ s

module _ (std : Stdlib) where
  open std use {Float, unmarshal_array, marshal, trim_space}

  unfoldable pub string_at : Bytes → Object Float → Bytes
  string_at key r = elim (lookup key r) [ some (Value.str s) ↦ s | _ ↦ [] ]

  -- The records of an envelope: none is null, and each has a log line or a date.
  unfoldable pub envelope_records : List (Option (Object Float)) → Option (List (Object Float))
  envelope_records [] = some []
  envelope_records (none ∷ records) = none
  envelope_records (some r ∷ records) =
      let rest = envelope_records records in
      if is_some (lookup (codes "log") r) || is_some (lookup (codes "date") r)
      then elim rest [ none ↦ none | some rs ↦ some (r ∷ rs) ]
      else none

  -- The log line of a record, or the record itself; `none` where it cannot be encoded.
  unfoldable pub record_line : Object Float → Option StandardLog
  unfolding string_at trim_line_end
  record_line r =
      let line = trim_line_end (string_at (codes "log") r) in
      if not (str_eq line [])
      then some (parse_line std line)
      else elim (marshal r) [ none ↦ none | some s ↦ some (record (raw_log s) { parsed = some s }) ]

  -- The event time of the log line, else of the record.
  unfoldable pub record_date : Object Float → ℤ → ℤ
  record_date r ts =
      let date : ℤ = elim (lookup (codes "date") r) [ some (Value.num d) ↦ to_ms std d | _ ↦ ts ] in
      if is_zero ts then date else ts

  unfoldable pub record_timestamp : Object Float → ℤ → ℤ → ℤ
  unfolding record_date
  record_timestamp r received_at ts =
      let ts = record_date r ts in if is_zero ts then received_at else ts

  unfoldable pub stamped_record : Bytes → Bytes → ℤ → Object Float → StandardLog → StandardLog
  unfolding record_timestamp string_at trim_slash
  stamped_record service host received_at r l =
      let name = string_at (codes "container_name") r in
      record l {
        timestamp = record_timestamp r received_at l.timestamp;
        service = if str_eq name [] then service else trim_slash name;
        host = host;
        ingested_at = received_at;
      }

  unfoldable pub record_log : Bytes → Bytes → ℤ → Object Float → StandardLog → StandardLog
  unfolding stamped_record fallback_level
  record_log service host received_at r l =
      fallback_level (stamped_record service host received_at r l)

  unfoldable pub record_logs : Bytes → Bytes → ℤ → List (Object Float) → List StandardLog
  unfolding record_line record_log
  record_logs service host received_at [] = []
  record_logs service host received_at (r ∷ records) =
      let rest = record_logs service host received_at records in
      elim (record_line r) [ none ↦ rest | some l ↦ record_log service host received_at r l ∷ rest ]

  -- `json.Unmarshal` of a text that starts an array
  unfoldable pub array_records : Bytes → Option (List (Option (Object Float)))
  array_records [] = none
  array_records (c ∷ s) = if c == b'[' then unmarshal_array (c ∷ s) else none

  -- `none` where the payload is no envelope.
  unfoldable pub parse_fluent_bit : Bytes → Bytes → Bytes → ℤ → Option (List StandardLog)
  unfolding array_records envelope_records record_logs
  parse_fluent_bit service host payload received_at = elim (array_records (trim_space payload)) [
    | none ↦ none
    | some [] ↦ none
    | some (r ∷ rs) ↦ elim (envelope_records (r ∷ rs)) [
      | none ↦ none
      | some records ↦
          some (record_logs service host received_at (take max_records_per_payload records))
    ]
  ]

  unfoldable pub parse_payload : Bytes → Bytes → Bytes → ℤ → List StandardLog
  unfolding parse_fluent_bit
  parse_payload service host payload received_at =
      elim (parse_fluent_bit service host payload received_at) [
        | some logs ↦ logs
        | none ↦ parse_plain_payload std service host payload received_at
      ]
