-- ===== src/Api/Otlp/Cap.antt =====
-- The cap on the rows of one request in api/otlp.go: stopping early, the conversion gives the handler
-- the same answer as converting everything.
use mathlib.Core.Path.{subst}
use mathlib.Core.List.{append_assoc, append-nil}
use pooml.Base.{
  ℕ, ◌<◌, ◌≡◌, refl, sym, ap, ◌∙◌, ◌⊎◌, inl, inr, Bool, true, false, List, [], ◌∷◌, ◌++◌, map, ltb,
  if◌then◌else◌, if_cases, Bool-cases, length, length-append, arith,
}
use pooml.Base.Int.{ℤ}
use pooml.Bytes.{Bytes, str_eq}
use pooml.Metrics.Row.{Row, type_counter, type_gauge}
use pooml.Api.Otlp.{
  max_rows_per_request, not_recorded, with_sum, append_number_point, append_sum_count,
  append_number_points, append_count_points, append_data, append_metric, base_row, scope_rows,
  resource_rows, request_rows, resource_identity, otlp_to_rows, within_cap,
}
use pooml.Api.Otlp.Messages.{
  NumberPoint, CountPoint, MetricData, gauge, histogram, exponential_histogram, summary, no_data,
  Metric, ResourceMetrics, Stdlib,
}
use pooml.Api.Otlp.Messages.{sum as sum_data}

module _ {Value : Type 0} (c : Stdlib Value) where
  number_point-append :
      (rows : List (Row Value)) (base : Row Value) (name : Bytes) (type : ℕ)
      (dp : NumberPoint Value) (at : ℤ)
      → append_number_point c rows base name type dp at
        ≡ rows ++ append_number_point c [] base name type dp at
  unfolding append_number_point
  number_point-append rows base name type dp at = elim (Bool-cases (not_recorded dp.flags)) [
    | inl e ↦ rw (e, append_number_point) (sym (append-nil rows))
    | inr e ↦ rw (e, append_number_point) refl
  ]

  number_points-append :
      (rows : List (Row Value)) (base : Row Value) (name : Bytes) (type : ℕ)
      (dps : List (NumberPoint Value)) (at : ℤ)
      → append_number_points c rows base name type dps at
        ≡ rows ++ append_number_points c [] base name type dps at
  unfolding append_number_points
  number_points-append rows base name type [] at = sym (append-nil rows)
  number_points-append rows base name type (dp ∷ dps) at =
      let one = append_number_point c [] base name type dp at in
      let rest = append_number_points c [] base name type dps at in
      number_points-append (append_number_point c rows base name type dp at) base name type dps at
      ∙ ap (λ l. l ++ rest) (number_point-append rows base name type dp at)
      ∙ append_assoc rows one rest
      ∙ ap (λ l. rows ++ l) (sym (number_points-append one base name type dps at))

  sum_count-append :
      (rows : List (Row Value)) (base : Row Value) (name : Bytes) (dp : CountPoint Value) (at : ℤ)
      → append_sum_count c rows base name dp at ≡ rows ++ append_sum_count c [] base name dp at
  unfolding append_sum_count
  sum_count-append rows base name dp at = elim (Bool-cases (not_recorded dp.flags)) [
    | inl e ↦ rw (e, append_sum_count) (sym (append-nil rows))
    | inr e ↦ rw (e, append_sum_count) (append_assoc rows _ _)
  ]

  count_points-append :
      (rows : List (Row Value)) (base : Row Value) (name : Bytes) (dps : List (CountPoint Value))
      (at : ℤ)
      → append_count_points c rows base name dps at
        ≡ rows ++ append_count_points c [] base name dps at
  unfolding append_count_points
  count_points-append rows base name [] at = sym (append-nil rows)
  count_points-append rows base name (dp ∷ dps) at =
      let one = append_sum_count c [] base name dp at in
      let rest = append_count_points c [] base name dps at in
      count_points-append (append_sum_count c rows base name dp at) base name dps at
      ∙ ap (λ l. l ++ rest) (sum_count-append rows base name dp at)
      ∙ append_assoc rows one rest
      ∙ ap (λ l. rows ++ l) (sym (count_points-append one base name dps at))

  data-append :
      (rows : List (Row Value)) (base : Row Value) (name : Bytes) (d : MetricData Value) (at : ℤ)
      → append_data c rows base name d at ≡ rows ++ append_data c [] base name d at
  unfolding append_data
  data-append rows base name (gauge dps) at = number_points-append rows base name type_gauge dps at
  data-append rows base name (sum_data monotonic dps) at =
      number_points-append rows base name (if monotonic then type_counter else type_gauge) dps at
  data-append rows base name (histogram dps) at = count_points-append rows base name dps at
  data-append rows base name (exponential_histogram dps) at =
      count_points-append rows base name dps at
  data-append rows base name (summary dps) at =
      count_points-append rows base name (map (with_sum c) dps) at
  data-append rows base name no_data at = sym (append-nil rows)

  metric-append :
      (rows : List (Row Value)) (m : Metric Value) (identity : Bytes × Bytes) (at : ℤ)
      → append_metric c rows m identity at ≡ rows ++ append_metric c [] m identity at
  unfolding append_metric
  metric-append rows m identity at = elim (Bool-cases (str_eq m.name [])) [
    | inl e ↦ rw (e, append_metric) (sym (append-nil rows))
    | inr e ↦ rw (e, append_metric) (data-append rows (base_row c identity) m.name m.data_of at)
  ]

  -- The rows of every metric, with no cap.
  abbrev pub scope_all : Bytes × Bytes → ℤ → List (Metric Value) → List (Row Value)
  scope_all identity at [] = []
  scope_all identity at (m ∷ metrics) =
      append_metric c [] m identity at ++ scope_all identity at metrics

  abbrev pub resource_all : Bytes × Bytes → ℤ → List (List (Metric Value)) → List (Row Value)
  resource_all identity at [] = []
  resource_all identity at (metrics ∷ scopes) =
      scope_all identity at metrics ++ resource_all identity at scopes

  abbrev pub all_rows : List (ResourceMetrics Value) → ℤ → List (Row Value)
  all_rows [] at = []
  all_rows (rm ∷ rms) at =
      resource_all (resource_identity rm.attributes) at rm.scope_metrics ++ all_rows rms at

  -- A conversion that may have stopped, and all rows: it has not stopped and gives all, or it has
  -- and both are over the cap.
  abbrev Capped : List (Row Value) × Bool → List (Row Value) → Type 0
  Capped r total =
      ((r.1 ≡ false) × (r.0 ≡ total))
      ⊎ ((r.1 ≡ true) × (max_rows_per_request < length r.0) × (max_rows_per_request < length total))

  -- Loops that stand behind one another.
  Capped-then :
      (here rest : List (Row Value) × Bool) (total more : List (Row Value))
      → Capped here total
      → Capped rest (here.0 ++ more)
      → Capped (if here.1 then here else rest) (total ++ more)
  Capped-then here rest total more (inl (on, same)) k =
      rw on (subst (λ t. Capped rest (t ++ more)) same k)
  Capped-then here rest total more (inr (stopped, over, over_all)) k =
      let longer = length-append total more in
      rw stopped (inr (refl, over, omega (arith, longer, over_all)))

  scope-Capped :
      (identity : Bytes × Bytes) (at : ℤ) (rows : List (Row Value)) (metrics : List (Metric Value))
      → Capped (scope_rows c identity at rows metrics) (rows ++ scope_all identity at metrics)
  unfolding scope_rows
  scope-Capped identity at rows [] = inl (refl, sym (append-nil rows))
  scope-Capped identity at rows (m ∷ metrics) =
      let added = append_metric c rows m identity at in
      let one = append_metric c [] m identity at in
      let rest = scope_all identity at metrics in
      let total : added ++ rest ≡ rows ++ (one ++ rest) =
        ap (λ l. l ++ rest) (metric-append rows m identity at) ∙ append_assoc rows one rest in
      subst (Capped (scope_rows c identity at rows (m ∷ metrics))) total (
        if_cases (λ r. Capped r (added ++ rest)) (ltb max_rows_per_request (length added))
          (added, true) (scope_rows c identity at added metrics)
          (λ over. inr (refl, ground (arith, over), ground (arith, over, length-append added rest)))
          (λ _. scope-Capped identity at added metrics))

  resource-Capped :
      (identity : Bytes × Bytes) (at : ℤ) (rows : List (Row Value))
      (scopes : List (List (Metric Value)))
      → Capped (resource_rows c identity at rows scopes) (rows ++ resource_all identity at scopes)
  unfolding resource_rows
  resource-Capped identity at rows [] = inl (refl, sym (append-nil rows))
  resource-Capped identity at rows (metrics ∷ scopes) =
      let here = scope_rows c identity at rows metrics in
      let mine = scope_all identity at metrics in
      let more = resource_all identity at scopes in
      subst (Capped (resource_rows c identity at rows (metrics ∷ scopes)))
        (append_assoc rows mine more)
        (Capped-then here (resource_rows c identity at here.0 scopes) (rows ++ mine) more
          (scope-Capped identity at rows metrics) (resource-Capped identity at here.0 scopes))

  request-Capped :
      (at : ℤ) (rows : List (Row Value)) (rms : List (ResourceMetrics Value))
      → Capped (request_rows c at rows rms) (rows ++ all_rows rms at)
  unfolding request_rows
  request-Capped at rows [] = inl (refl, sym (append-nil rows))
  request-Capped at rows (rm ∷ rms) =
      let identity = resource_identity rm.attributes in
      let here = resource_rows c identity at rows rm.scope_metrics in
      let mine = resource_all identity at rm.scope_metrics in
      subst (Capped (request_rows c at rows (rm ∷ rms))) (append_assoc rows mine (all_rows rms at))
        (Capped-then here (request_rows c at here.0 rms) (rows ++ mine) (all_rows rms at)
          (resource-Capped identity at rows rm.scope_metrics) (request-Capped at here.0 rms))

  -- Stopping early shows neither in the answer nor in what is stored: over the cap, both conversions
  -- are refused, and else they give the same rows, the points of all metrics in their order.
  pub within_cap-otlp_to_rows :
      (request : List (ResourceMetrics Value)) (at : ℤ)
      → within_cap (otlp_to_rows c request at) ≡ within_cap (all_rows request at)
  unfolding otlp_to_rows within_cap
  within_cap-otlp_to_rows request at = elim (request-Capped at [] request) [
    | inl (on, same) ↦ ap within_cap same
    | inr (stopped, over, over_all) ↦ ground (arith, over, over_all)
  ]
