-- ===== src/Services/Scraper/Capped.antt =====
-- What one scrape of services/scraper.go hands on, against a description with no loop: all rows of all
-- families, cut at the cap, if the status is a success and the body is within its limit.
use mathlib.Core.List.{append_assoc, append-nil}
use pooml.Base.{
  ℕ, zero, suc, ◌+◌, ◌≤◌, ◌≡◌, refl, sym, ap, ◌∙◌, Bool, true, false, ◌||◌, List, [], ◌∷◌, ◌++◌,
  Option, none, some, ltb, leb, if◌then◌else◌, length, take, length-take, arith,
}
use pooml.Bytes.{Bytes, codes}
use pooml.Metrics.Row.{Row, type_counter, type_gauge}
use pooml.Services.Scraper.{
  Sample, CountSample, Family, counter, gauge, untyped, histogram, summary, other_type, Families,
  Stdlib, Origin, Response, no_answer, answered, max_scrape_rows, max_scrape_body_bytes, sample_row,
  append_row, append_samples, append_counts, append_family, families_to_rows, parsed_rows,
  body_rows, fetch,
}

take_nil {ℓ} : {A : Type ℓ} (n : ℕ) (l : List A) → l ≡ [] → take n l ≡ []
take_nil zero l h = refl
take_nil (suc n) [] h = refl
take_nil (suc n) (x ∷ l) h = ground (arith, h)

take_snoc {ℓ} :
    {A : Type ℓ} (n : ℕ) (l : List A) (r : A)
    → (if leb n (length (take n l)) then take n l else take n l ++ r ∷ []) ≡ take n (l ++ r ∷ [])
take_snoc zero l r = refl
take_snoc {A} (suc n) [] r = ground (arith, take_nil {A = A} n [] refl)
take_snoc (suc n) (x ∷ l) r = ground (arith, take_snoc n l r)

take_whole {ℓ} : {A : Type ℓ} (n : ℕ) (l : List A) → length l ≤ n → take n l ≡ l
take_whole zero [] h = refl
take_whole zero (x ∷ l) h = absurd (omega arith)
take_whole (suc n) [] h = refl
take_whole (suc n) (x ∷ l) h = ap (◌∷◌ x) (take_whole n l (omega arith))

-- One byte more than the limit tells whether a body is longer.
over_limit {ℓ} :
    {A : Type ℓ} (n : ℕ) (l : List A) → ltb n (length (take (n + 1) l)) ≡ ltb n (length l)
over_limit n l = let bound = length-take (n + 1) l in ground (arith, bound)

refused_first {ℓ} :
    {A : Type ℓ} (a b over : Bool) (x y : Option A)
    → (over ≡ false → x ≡ y)
    → (if a || b then none else if over then none else x) ≡ (if a || b || over then none else y)
refused_first true b over x y h = refl
refused_first false true over x y h = refl
refused_first false false true x y h = refl
refused_first false false false x y h = h refl

module _ {Value : Type 0} (c : Stdlib Value) (o : Origin) where
  -- The rows of all samples, with no cap.
  abbrev pub sample_rows : Bytes → ℕ → List (Sample Value) → List (Row Value)
  sample_rows name type [] = []
  sample_rows name type (m ∷ metrics) =
      sample_row c o m.labels m.timestamp_ms name type m.value ∷ sample_rows name type metrics

  abbrev pub count_rows : Bytes → List (CountSample Value) → List (Row Value)
  count_rows name [] = []
  count_rows name (m ∷ metrics) =
      sample_row c o m.labels m.timestamp_ms (name ++ codes "_sum") type_counter m.sample_sum
      ∷ sample_row c o m.labels m.timestamp_ms (name ++ codes "_count") type_counter
          (c.of_count m.sample_count)
      ∷ count_rows name metrics

  abbrev pub family_rows : Bytes → Family Value → List (Row Value)
  family_rows name (counter metrics) = sample_rows name type_counter metrics
  family_rows name (gauge metrics) = sample_rows name type_gauge metrics
  family_rows name (untyped metrics) = sample_rows name type_gauge metrics
  family_rows name (histogram metrics) = count_rows name metrics
  family_rows name (summary metrics) = count_rows name metrics
  family_rows name other_type = []

  abbrev pub all_sample_rows : Families Value → List (Row Value)
  all_sample_rows [] = []
  all_sample_rows ((name, family) ∷ families) = family_rows name family ++ all_sample_rows families

  abbrev cut : List (Row Value) → List (Row Value)
  cut = take max_scrape_rows

  row-cut : (l : List (Row Value)) (r : Row Value) → append_row (cut l) r ≡ cut (l ++ r ∷ [])
  unfolding append_row
  row-cut l r = take_snoc max_scrape_rows l r

  samples-cut :
      (name : Bytes) (type : ℕ) (l : List (Row Value)) (metrics : List (Sample Value))
      → append_samples c o name type (cut l) metrics ≡ cut (l ++ sample_rows name type metrics)
  unfolding append_samples
  samples-cut name type l [] = ap cut (sym (append-nil l))
  samples-cut name type l (m ∷ metrics) =
      let r = sample_row c o m.labels m.timestamp_ms name type m.value in
      ap (λ rows. append_samples c o name type rows metrics) (row-cut l r)
      ∙ samples-cut name type (l ++ r ∷ []) metrics
      ∙ ap cut (append_assoc l (r ∷ []) (sample_rows name type metrics))

  counts-cut :
      (name : Bytes) (l : List (Row Value)) (metrics : List (CountSample Value))
      → append_counts c o name (cut l) metrics ≡ cut (l ++ count_rows name metrics)
  unfolding append_counts
  counts-cut name l [] = ap cut (sym (append-nil l))
  counts-cut name l (m ∷ metrics) =
      let r =
        sample_row c o m.labels m.timestamp_ms (name ++ codes "_sum") type_counter m.sample_sum in
      let s =
        sample_row c o m.labels m.timestamp_ms (name ++ codes "_count") type_counter
          (c.of_count m.sample_count) in
      ap (λ rows. append_counts c o name (append_row rows s) metrics) (row-cut l r)
      ∙ ap (λ rows. append_counts c o name rows metrics) (row-cut (l ++ r ∷ []) s)
      ∙ counts-cut name ((l ++ r ∷ []) ++ s ∷ []) metrics
      ∙ ap cut (append_assoc (l ++ r ∷ []) (s ∷ []) (count_rows name metrics))
      ∙ ap cut (append_assoc l (r ∷ []) (s ∷ count_rows name metrics))

  family-cut :
      (name : Bytes) (l : List (Row Value)) (family : Family Value)
      → append_family c o name (cut l) family ≡ cut (l ++ family_rows name family)
  unfolding append_family
  family-cut name l (counter metrics) = samples-cut name type_counter l metrics
  family-cut name l (gauge metrics) = samples-cut name type_gauge l metrics
  family-cut name l (untyped metrics) = samples-cut name type_gauge l metrics
  family-cut name l (histogram metrics) = counts-cut name l metrics
  family-cut name l (summary metrics) = counts-cut name l metrics
  family-cut name l other_type = ap cut (sym (append-nil l))

  families-cut :
      (l : List (Row Value)) (families : Families Value)
      → families_to_rows c o (cut l) families ≡ cut (l ++ all_sample_rows families)
  unfolding families_to_rows
  families-cut l [] = ap cut (sym (append-nil l))
  families-cut l ((name, family) ∷ families) =
      ap (λ rows. families_to_rows c o rows families) (family-cut name l family)
      ∙ families-cut (l ++ family_rows name family) families
      ∙ ap cut (append_assoc l (family_rows name family) (all_sample_rows families))

  abbrev pub cut_rows : Option (Families Value) → Option (List (Row Value))
  cut_rows none = none
  cut_rows (some families) = some (take max_scrape_rows (all_sample_rows families))

  parsed_rows-cut : (f : Option (Families Value)) → parsed_rows c o f ≡ cut_rows f
  unfolding parsed_rows
  parsed_rows-cut none = refl
  parsed_rows-cut (some families) = ap some (families-cut [] families)

  -- What a response is worth.
  abbrev pub response_rows : Response → Option (List (Row Value))
  response_rows no_answer = none
  response_rows (answered status none) = none
  response_rows (answered status (some body)) =
      let rows = cut_rows (c.parse body) in
      if ltb status 200 || ltb 299 status || ltb max_scrape_body_bytes (length body)
      then none
      else rows

  -- A scrape hands on the first 500000 rows of all families, of a whole body and a success only: of a
  -- body over 10 MiB, nothing, though only one byte more than that is read.
  pub fetch-response_rows : (response : Response) → fetch c o response ≡ response_rows response
  unfolding fetch body_rows
  fetch-response_rows no_answer = refl
  fetch-response_rows (answered status none) = ground arith
  fetch-response_rows (answered status (some body)) =
      let n = max_scrape_body_bytes in
      let rows = parsed_rows c o (c.parse (take (n + 1) body)) in
      ap (λ over. if ltb status 200 || ltb 299 status then none else if over then none else rows)
        (over_limit n body)
      ∙ refused_first (ltb status 200) (ltb 299 status) (ltb n (length body)) rows
          (cut_rows (c.parse body))
          (λ within.
            ap (λ b. parsed_rows c o (c.parse b)) (take_whole (n + 1) body (ground (arith, within)))
            ∙ parsed_rows-cut (c.parse body))
