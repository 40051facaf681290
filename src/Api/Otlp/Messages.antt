-- ===== src/Api/Otlp/Messages.antt =====
-- The decoded messages that api/otlp.go reads, and what it takes from Go's standard library.
use pooml.Base.{ℕ, Bool, List, Option}
use pooml.Base.Int.{ℤ}
use pooml.Bytes.{Bytes}
use pooml.Dict.{bytes_eq}

-- `AnyValue`; arrays, lists of pairs, bytes and an absent value are the last constructor, as the
-- debug string that `%v` makes of them.
pub data AnyValue (Value : Type 0) : Type 0 where
  string_value : Bytes → AnyValue Value
  bool_value : Bool → AnyValue Value
  int_value : ℤ → AnyValue Value
  double_value : Value → AnyValue Value
  other_value : Bytes → AnyValue Value

abbrev pub Attributes : Type 0 → Type 0
Attributes Value = List (Bytes × AnyValue Value)

pub data NumberValue (Value : Type 0) : Type 0 where
  as_double : Value → NumberValue Value
  as_int : ℤ → NumberValue Value
  no_value : NumberValue Value

pub record NumberPoint (Value : Type 0) : Type 0 where
  pub attributes : Attributes Value
  pub time_unix_nano : ℕ
  pub flags : ℕ
  pub value : NumberValue Value

-- A point of a histogram or a summary.
pub record CountPoint (Value : Type 0) : Type 0 where
  pub attributes : Attributes Value
  pub time_unix_nano : ℕ
  pub flags : ℕ
  pub sum : Option Value
  pub count : ℕ

pub data MetricData (Value : Type 0) : Type 0 where
  gauge : List (NumberPoint Value) → MetricData Value
  sum : Bool → List (NumberPoint Value) → MetricData Value  -- monotonic
  histogram : List (CountPoint Value) → MetricData Value
  exponential_histogram : List (CountPoint Value) → MetricData Value
  summary : List (CountPoint Value) → MetricData Value
  no_data : MetricData Value

pub record Metric (Value : Type 0) : Type 0 where
  pub name : Bytes
  pub data_of : MetricData Value

-- A resource's attributes, with the metrics of each of its scopes.
pub record ResourceMetrics (Value : Type 0) : Type 0 where
  pub attributes : Attributes Value
  pub scope_metrics : List (List (Metric Value))

-- What the code takes from Go's standard library.
pub record Stdlib (Value : Type 0) : Type 0 where
  pub zero_value : Value
  pub of_int : ℤ → Value  -- float64(int64)
  pub of_count : ℕ → Value  -- float64(uint64)
  pub format_int : ℤ → Bytes
  pub format_float : Value → Bytes
  pub marshal : List (Bytes × Bytes) → Bytes  -- of a map
