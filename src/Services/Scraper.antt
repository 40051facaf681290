-- ===== src/Services/Scraper.antt =====
-- services/scraper.go: one scrape, from the response to the rows and the outcome that is recorded. The
-- text format, the HTTP client and `json.Marshal` are a record of arguments. Which targets are due is
-- here too; their goroutines are not.
pub mod Capped
use pooml.Base.{
  ℕ, suc, ◌+◌, ◌*◌, ◌-◌, ◌≤◌, ◌<◌, ◌≡◌, refl, sym, ap, ◌∙◌, Bool, true, false, not, ◌&&◌, ◌||◌,
  List, [], ◌∷◌, ◌++◌, Option, none, some, ltb, leb, ◌==◌, if◌then◌else◌, length, length-append,
  take, arith, Bool-cases, inl, inr,
}
use pooml.Base.Int.{ℤ, pos, negsuc, ◌-ℤ◌, ltb_ℤ}
use pooml.Bytes.{Bytes, codes, str_eq}
use pooml.Common.{clamp_timestamp}
use pooml.Dict.{bytes_eq, put}
use pooml.Services.ScrapeTargets.{TargetRow, record_scrape}
use pooml.Metrics.Row.{Row, type_counter, type_gauge}

-- 10 << 20
abbrev pub max_scrape_body_bytes : ℕ
max_scrape_body_bytes = 10485760

abbrev pub max_scrape_rows : ℕ
max_scrape_rows = 500000

-- A sample of a counter, a gauge or an untyped metric.
pub record Sample (Value : Type 0) : Type 0 where
  pub labels : List (Bytes × Bytes)
  pub timestamp_ms : ℤ
  pub value : Value

-- A sample of a histogram or a summary.
pub record CountSample (Value : Type 0) : Type 0 where
  pub labels : List (Bytes × Bytes)
  pub timestamp_ms : ℤ
  pub sample_sum : Value
  pub sample_count : ℕ

pub data Family (Value : Type 0) : Type 0 where
  counter : List (Sample Value) → Family Value
  gauge : List (Sample Value) → Family Value
  untyped : List (Sample Value) → Family Value
  histogram : List (CountSample Value) → Family Value
  summary : List (CountSample Value) → Family Value
  other_type : Family Value

-- The families by name, in the order of one range over their map.
abbrev pub Families : Type 0 → Type 0
Families Value = List (Bytes × Family Value)

pub record Stdlib (Value : Type 0) : Type 0 where
  pub of_count : ℕ → Value  -- float64(uint64)
  pub marshal : List (Bytes × Bytes) → Bytes  -- of a map
  pub parse : Bytes → Option (Families Value)  -- TextToMetricFamilies

pub record Origin : Type 0 where
  pub service : Bytes
  pub host : Bytes
  pub now : ℤ

unfoldable pub label_pairs : List (Bytes × Bytes) → List (Bytes × Bytes) → List (Bytes × Bytes)
label_pairs m [] = m
label_pairs m ((name, value) ∷ pairs) =
    label_pairs (if str_eq name [] then m else put name value m) pairs

-- What a request comes to: no answer, or a status and a body, `none` where reading it fails.
pub data Response : Type 0 where
  no_answer : Response
  answered : ℕ → Option Bytes → Response

-- Where the pipeline refuses the rows
abbrev pub saturated_error : Bool → Option Bytes
saturated_error true = none
saturated_error false = some (codes "metrics pipeline saturated, scrape dropped")

-- The time of a sample, or now
abbrev pub sample_time : ℤ → ℤ → ℤ
sample_time (pos n) now = if n == 0 then now else clamp_timestamp (pos n) now
sample_time (negsuc n) now = clamp_timestamp (negsuc n) now

module _ {Value : Type 0} where
  unfoldable pub prom_labels_json : Stdlib Value → List (Bytes × Bytes) → Bytes
  unfolding label_pairs
  prom_labels_json c [] = []
  prom_labels_json c (p ∷ pairs) = c.marshal (label_pairs [] (p ∷ pairs))

  abbrev pub sample_row :
      Stdlib Value → Origin → List (Bytes × Bytes) → ℤ → Bytes → ℕ → Value → Row Value
  sample_row c o labels timestamp_ms name type value = record {
    timestamp = sample_time timestamp_ms o.now;
    name = name;
    type = type;
    value = value;
    service = o.service;
    host = o.host;
    labels = prom_labels_json c labels;
  }

  -- `appendRow`
  unfoldable pub append_row : List (Row Value) → Row Value → List (Row Value)
  append_row rows r = if leb max_scrape_rows (length rows) then rows else rows ++ r ∷ []

  unfoldable pub append_samples :
      Stdlib Value → Origin → Bytes → ℕ → List (Row Value) → List (Sample Value) → List (Row Value)
  unfolding append_row prom_labels_json
  append_samples c o name type rows [] = rows
  append_samples c o name type rows (m ∷ metrics) =
      append_samples c o name type
        (append_row rows (sample_row c o m.labels m.timestamp_ms name type m.value)) metrics

  unfoldable pub append_counts :
      Stdlib Value → Origin → Bytes → List (Row Value) → List (CountSample Value) → List (Row Value)
  unfolding append_row prom_labels_json
  append_counts c o name rows [] = rows
  append_counts c o name rows (m ∷ metrics) =
      let sums =
        append_row rows (
          sample_row c o m.labels m.timestamp_ms (name ++ codes "_sum") type_counter
            m.sample_sum) in
      let counts = append_row sums (
        sample_row c o m.labels m.timestamp_ms (name ++ codes "_count") type_counter
          (c.of_count m.sample_count)) in
      append_counts c o name counts metrics

  unfoldable pub append_family :
      Stdlib Value → Origin → Bytes → List (Row Value) → Family Value → List (Row Value)
  unfolding append_samples append_counts
  append_family c o name rows (counter metrics) = append_samples c o name type_counter rows metrics
  append_family c o name rows (gauge metrics) = append_samples c o name type_gauge rows metrics
  append_family c o name rows (untyped metrics) = append_samples c o name type_gauge rows metrics
  append_family c o name rows (histogram metrics) = append_counts c o name rows metrics
  append_family c o name rows (summary metrics) = append_counts c o name rows metrics
  append_family c o name rows other_type = rows

  unfoldable pub families_to_rows :
      Stdlib Value → Origin → List (Row Value) → Families Value → List (Row Value)
  unfolding append_family
  families_to_rows c o rows [] = rows
  families_to_rows c o rows ((name, family) ∷ families) =
      families_to_rows c o (append_family c o name rows family) families

  unfoldable pub parsed_rows :
      Stdlib Value → Origin → Option (Families Value) → Option (List (Row Value))
  unfolding families_to_rows
  parsed_rows c o none = none
  parsed_rows c o (some families) = some (families_to_rows c o [] families)

  -- The body as `io.ReadAll` of the limited reader gives it, and the test of its length.
  unfoldable pub body_rows : Stdlib Value → Origin → Option Bytes → Option (List (Row Value))
  unfolding parsed_rows
  body_rows c o none = none
  body_rows c o (some whole) =
      let body = take (max_scrape_body_bytes + 1) whole in
      let rows = parsed_rows c o (c.parse body) in
      if ltb max_scrape_body_bytes (length body) then none else rows

  -- `fetch`; `none` stands for its errors.
  unfoldable pub fetch : Stdlib Value → Origin → Response → Option (List (Row Value))
  unfolding body_rows
  fetch c o no_answer = none
  fetch c o (answered status body) =
      let rows = body_rows c o body in if ltb status 200 || ltb 299 status then none else rows

  -- The error that a scrape records; the second argument is the text of one of `fetch`.
  unfoldable pub scrape_error :
      (List (Row Value) → Bool) → Bytes → Option (List (Row Value)) → Option Bytes
  scrape_error try_push err none = some err
  scrape_error try_push err (some rows) = saturated_error (try_push rows)

  unfoldable pub scrape :
      Stdlib Value
      → (List (Row Value) → Bool)
      → Bytes
      → ℕ
      → Origin
      → Response
      → List TargetRow
      → List TargetRow
  unfolding fetch scrape_error record_scrape
  scrape c try_push err id o response targets =
      record_scrape id o.now (scrape_error try_push err (fetch c o response)) targets

-- The test of `tick`.
unfoldable pub is_due : ℤ → TargetRow → Bool
is_due now t = elim t.last_scraped_at [
  | none ↦ true
  | some last ↦ not (ltb_ℤ (now -ℤ last) (pos t.scrape_interval_ms))
]
