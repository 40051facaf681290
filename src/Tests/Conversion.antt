-- ===== src/Tests/Conversion.antt =====
-- Concrete runs of the conversions of api/otlp.go and services/scraper.go; a value is a number.
use pooml.Base.{ℕ, ◌≡◌, refl, List, [], ◌∷◌, Option, some, length, map}
use pooml.Base.Int.{pos}
use pooml.Bytes.{Bytes, codes, str_eq}
use pooml.Metrics.Row.{Row}
use pooml.Api.Otlp
use pooml.Api.Otlp.Messages
use pooml.Api.Otlp.Cap.{all_rows, within_cap-otlp_to_rows}
use pooml.Services.Scraper
use pooml.Services.Scraper.Capped.{response_rows, fetch-response_rows}

abbrev otlp : Messages.Stdlib ℕ
otlp = record {
  zero_value = 0;
  of_int = λ z. 1;
  of_count = λ n. n;
  format_int = λ z. [];
  format_float = λ x. [];
  marshal = λ m. codes "{}";
}

abbrev point : Messages.NumberPoint ℕ
point = record {
  attributes = (codes "path", Messages.string_value (codes "/")) ∷ [];
  time_unix_nano = 0;
  flags = 0;
  value = Messages.as_double 7;
}

abbrev histogram_point : Messages.CountPoint ℕ
histogram_point = record { attributes = []; time_unix_nano = 0; flags = 0; sum = some 9; count = 2 }

-- A gauge, and a histogram that gives two rows
abbrev request : List (Messages.ResourceMetrics ℕ)
request =
    record {
      attributes = (codes "service.name", Messages.string_value (codes "shop")) ∷ [];
      scope_metrics =
          (record { name = codes "load"; data_of = Messages.gauge (point ∷ []) }
            ∷ record { name = codes "lat"; data_of = Messages.histogram (histogram_point ∷ []) }
            ∷ [])
          ∷ [];
    }
    ∷ []

abbrev row_name : Row ℕ → Bytes
row_name r = r.name

three_names :
    map row_name (Otlp.otlp_to_rows otlp request (pos 5))
    ≡ codes "load" ∷ codes "lat_sum" ∷ codes "lat_count" ∷ []
unfolding Otlp.otlp_to_rows str_eq
three_names = refl

within_cap-otlp_to_rows_example :
    Otlp.within_cap (Otlp.otlp_to_rows otlp request (pos 5))
    ≡ Otlp.within_cap (all_rows otlp request (pos 5))
within_cap-otlp_to_rows_example = within_cap-otlp_to_rows otlp request (pos 5)

abbrev families : Bytes → Option (Scraper.Families ℕ)
families body = some (
    (
      codes "up",
      Scraper.gauge (record { labels = []; timestamp_ms = pos 0; value = length body } ∷ []),
    )
    ∷ [])

abbrev prom : Scraper.Stdlib ℕ
prom = record { of_count = λ n. n; marshal = λ m. codes "{}"; parse = families }

abbrev origin : Scraper.Origin
origin = record { service = codes "shop"; host = codes "a"; now = pos 5 }

fetch-response_rows_example :
    Scraper.fetch prom origin (Scraper.answered 200 (some (codes "up 1")))
    ≡ response_rows prom origin (Scraper.answered 200 (some (codes "up 1")))
fetch-response_rows_example =
    fetch-response_rows prom origin (Scraper.answered 200 (some (codes "up 1")))
