-- ===== src/Api/Otlp.antt =====
-- api/otlp.go: OTLP/HTTP metrics export. The messages are what protobuf decodes, with the fields that
-- the code reads; a getter on an absent message gives the zero value, so only presence that the code
-- asks for is kept. Decoding, the conversion and printing of numbers and `json.Marshal` are a record of
-- arguments. The warnings of `warnDowncast` are log output and are left out.
pub mod Messages
pub mod Cap
use pooml.Base.{
  ℕ, ◌+◌, ◌/◌, ◌%◌, Bool, true, false, ◌&&◌, not, List, [], ◌∷◌, ◌++◌, map, Option, none, some, ltb,
  ◌==◌, if◌then◌else◌, length,
}
use pooml.Base.Int.{ℤ, pos}
use pooml.Bytes.{Bytes, codes, str_eq}
use pooml.Common.{clamp_timestamp}
use pooml.Dict.{bytes_eq, put}
use pooml.Metrics.Row.{Row, type_counter, type_gauge}
use pooml.Api.Otlp.Messages.{
  AnyValue, Attributes, CountPoint, Metric, MetricData, NumberPoint, NumberValue, ResourceMetrics,
  Stdlib, as_double, as_int, bool_value, double_value, exponential_histogram, gauge, histogram,
  int_value, no_data, no_value, other_value, string_value, sum, summary,
}

-- maxOTLPRowsPerRequest of api/router.go
abbrev pub max_rows_per_request : ℕ
max_rows_per_request = 50000

-- DATA_POINT_FLAGS_NO_RECORDED_VALUE_MASK is the lowest bit.
abbrev pub not_recorded : ℕ → Bool
not_recorded flags = not (flags % 2 == 0)

unfoldable pub otlp_timestamp_ms : ℕ → ℤ → ℤ
otlp_timestamp_ms nano received_at =
    if nano == 0 then received_at else clamp_timestamp (pos (nano / 1000000)) received_at

abbrev pub unless_empty : Bytes → Bytes → Bytes
unless_empty [] old = old
unless_empty (c ∷ s) old = c ∷ s

module _ {Value : Type 0} where
  -- The text of a Boolean is that of `strconv.FormatBool`.
  unfoldable pub any_value_string : Stdlib Value → AnyValue Value → Bytes
  any_value_string c (string_value s) = s
  any_value_string c (bool_value true) = codes "true"
  any_value_string c (bool_value false) = codes "false"
  any_value_string c (int_value n) = c.format_int n
  any_value_string c (double_value x) = c.format_float x
  any_value_string c (other_value s) = s

  -- The map of the labels; an attribute with no key is left out, and the last of a key counts.
  unfoldable pub label_map :
      Stdlib Value → List (Bytes × Bytes) → Attributes Value → List (Bytes × Bytes)
  unfolding any_value_string
  label_map c m [] = m
  label_map c m ((key, v) ∷ attrs) =
      label_map c (if str_eq key [] then m else put key (any_value_string c v) m) attrs

  unfoldable pub labels_json : Stdlib Value → Attributes Value → Bytes
  unfolding label_map
  labels_json c [] = []
  labels_json c (a ∷ attrs) = c.marshal (label_map c [] (a ∷ attrs))

  -- `GetStringValue`
  abbrev pub get_string_value : AnyValue Value → Bytes
  get_string_value (string_value s) = s
  get_string_value _ = []

  -- The service and the host, in the loop over the attributes.
  unfoldable pub identity_from : Bytes × Bytes → Attributes Value → Bytes × Bytes
  identity_from found [] = found
  identity_from (service, host) ((key, v) ∷ attrs) =
      let s = unless_empty (get_string_value v) service in
      let h = unless_empty (get_string_value v) host in
      identity_from
        (if str_eq key (codes "service.name")
          then (s, host)
          else if str_eq key (codes "host.name")
          then (service, h)
          else (service, host))
        attrs

  unfoldable pub resource_identity : Attributes Value → Bytes × Bytes
  unfolding identity_from
  resource_identity = identity_from (codes "unknown", codes "unknown")

  -- The value of a point; `none` where the code skips it.
  abbrev pub number : Stdlib Value → NumberValue Value → Option Value
  number c (as_double x) = some x
  number c (as_int n) = some (c.of_int n)
  number c no_value = none

  abbrev pub base_row : Stdlib Value → Bytes × Bytes → Row Value
  base_row c identity = record {
    timestamp = pos 0;
    name = [];
    type = 0;
    value = c.zero_value;
    service = identity.0;
    host = identity.1;
    labels = [];
  }

  -- The row with a value, where there is one.
  abbrev pub valued : Row Value → Option Value → List (Row Value)
  valued r none = []
  valued r (some x) = record r { value = x } ∷ []

  unfoldable pub append_number_point :
      Stdlib Value
      → List (Row Value)
      → Row Value
      → Bytes
      → ℕ
      → NumberPoint Value
      → ℤ
      → List (Row Value)
  unfolding otlp_timestamp_ms labels_json
  append_number_point c rows base name type dp received_at =
      let added = record base {
        name = name;
        type = type;
        timestamp = otlp_timestamp_ms dp.time_unix_nano received_at;
        labels = labels_json c dp.attributes;
      } in
      if not_recorded dp.flags then rows else rows ++ valued added (number c dp.value)

  unfoldable pub append_sum_count :
      Stdlib Value → List (Row Value) → Row Value → Bytes → CountPoint Value → ℤ → List (Row Value)
  unfolding otlp_timestamp_ms labels_json
  append_sum_count c rows base name dp received_at =
      let named = record base {
        name = name ++ codes "_sum";
        type = type_counter;
        timestamp = otlp_timestamp_ms dp.time_unix_nano received_at;
        labels = labels_json c dp.attributes;
      } in
      let counted = record named { name = name ++ codes "_count"; value = c.of_count dp.count } in
      if not_recorded dp.flags then rows else rows ++ valued named dp.sum ++ counted ∷ []

  unfoldable pub append_number_points :
      Stdlib Value
      → List (Row Value)
      → Row Value
      → Bytes
      → ℕ
      → List (NumberPoint Value)
      → ℤ
      → List (Row Value)
  unfolding append_number_point
  append_number_points c rows base name type [] received_at = rows
  append_number_points c rows base name type (dp ∷ dps) received_at =
      append_number_points c (append_number_point c rows base name type dp received_at) base name
        type dps received_at

  unfoldable pub append_count_points :
      Stdlib Value
      → List (Row Value)
      → Row Value
      → Bytes
      → List (CountPoint Value)
      → ℤ
      → List (Row Value)
  unfolding append_sum_count
  append_count_points c rows base name [] received_at = rows
  append_count_points c rows base name (dp ∷ dps) received_at =
      append_count_points c (append_sum_count c rows base name dp received_at) base name dps
        received_at

  -- A summary's sum is no optional field.
  abbrev pub with_sum : Stdlib Value → CountPoint Value → CountPoint Value
  with_sum c dp = record dp { sum = some (elim dp.sum [ none ↦ c.zero_value | some x ↦ x ]) }

  unfoldable pub append_data :
      Stdlib Value → List (Row Value) → Row Value → Bytes → MetricData Value → ℤ → List (Row Value)
  unfolding append_number_points append_count_points
  append_data c rows base name (gauge dps) at =
      append_number_points c rows base name type_gauge dps at
  append_data c rows base name (sum monotonic dps) at =
      append_number_points c rows base name (if monotonic then type_counter else type_gauge) dps at
  append_data c rows base name (histogram dps) at = append_count_points c rows base name dps at
  append_data c rows base name (exponential_histogram dps) at =
      append_count_points c rows base name dps at
  append_data c rows base name (summary dps) at =
      append_count_points c rows base name (map (with_sum c) dps) at
  append_data c rows base name no_data at = rows

  unfoldable pub append_metric :
      Stdlib Value → List (Row Value) → Metric Value → Bytes × Bytes → ℤ → List (Row Value)
  unfolding append_data
  append_metric c rows m identity received_at =
      let added = append_data c rows (base_row c identity) m.name m.data_of received_at in
      if str_eq m.name [] then rows else added

  -- The innermost loop; the flag says that it has returned from all three.
  unfoldable pub scope_rows :
      Stdlib Value
      → Bytes × Bytes
      → ℤ
      → List (Row Value)
      → List (Metric Value)
      → List (Row Value) × Bool
  unfolding append_metric
  scope_rows c identity at rows [] = (rows, false)
  scope_rows c identity at rows (m ∷ metrics) =
      let added = append_metric c rows m identity at in
      let rest = scope_rows c identity at added metrics in
      if ltb max_rows_per_request (length added) then (added, true) else rest

  unfoldable pub resource_rows :
      Stdlib Value
      → Bytes × Bytes
      → ℤ
      → List (Row Value)
      → List (List (Metric Value))
      → List (Row Value) × Bool
  unfolding scope_rows
  resource_rows c identity at rows [] = (rows, false)
  resource_rows c identity at rows (metrics ∷ scopes) =
      let here = scope_rows c identity at rows metrics in
      let rest = resource_rows c identity at here.0 scopes in if here.1 then here else rest

  unfoldable pub request_rows :
      Stdlib Value → ℤ → List (Row Value) → List (ResourceMetrics Value) → List (Row Value) × Bool
  unfolding resource_rows resource_identity
  request_rows c at rows [] = (rows, false)
  request_rows c at rows (rm ∷ rms) =
      let here = resource_rows c (resource_identity rm.attributes) at rows rm.scope_metrics in
      let rest = request_rows c at here.0 rms in if here.1 then here else rest

  unfoldable pub otlp_to_rows : Stdlib Value → List (ResourceMetrics Value) → ℤ → List (Row Value)
  unfolding request_rows
  otlp_to_rows c request received_at = (request_rows c received_at [] request).0

  -- The test of the handler: `none` where it answers 413.
  unfoldable pub within_cap : List (Row Value) → Option (List (Row Value))
  within_cap rows = if ltb max_rows_per_request (length rows) then none else some rows

-- The statuses of the handler's answers.
pub data Status : Type 0 where
  ok bad_request unsupported_media_type payload_too_large too_many_requests : Status

-- Reading the body: its bytes, one that is over the limit, or another error.
pub data Body : Type 0 where
  read : Bytes → Body
  too_large : Body
  unreadable : Body

module _ {Value : Type 0} where
  -- The handler behind the conversion; `try_push` is the pipeline's answer.
  unfoldable pub push_rows : (List (Row Value) → Bool) → Option (List (Row Value)) → Status
  push_rows try_push none = payload_too_large
  push_rows try_push (some rows) = if try_push rows then ok else too_many_requests

  unfoldable pub export_decoded :
      Stdlib Value → (List (Row Value) → Bool) → ℤ → Option (List (ResourceMetrics Value)) → Status
  unfolding push_rows within_cap otlp_to_rows
  export_decoded c try_push now none = bad_request
  export_decoded c try_push now (some request) =
      push_rows try_push (within_cap (otlp_to_rows c request now))

  -- `otlpMetrics`; whether the content type is JSON is the decoders' argument, and `none` stands for
  -- another type.
  unfoldable pub otlp_metrics :
      Stdlib Value
      → (Bool → Bytes → Option (List (ResourceMetrics Value)))
      → (List (Row Value) → Bool)
      → Option Bool
      → Body
      → ℤ
      → Status
  unfolding export_decoded
  otlp_metrics c decode try_push none body now = unsupported_media_type
  otlp_metrics c decode try_push (some is_json) (read payload) now =
      export_decoded c try_push now (decode is_json payload)
  otlp_metrics c decode try_push (some is_json) too_large now = payload_too_large
  otlp_metrics c decode try_push (some is_json) unreadable now = bad_request
