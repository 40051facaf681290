-- ===== src/Services/Retention.antt =====
-- services/retention.go: the retention settings, and the deletion of expired rows in chunks. A table is
-- the list of its rows in the order of their ids. What a round of the loop meets is an argument: the
-- rows that ingestion inserts between the rounds, the context's cancelling and the errors. Freed pages
-- and log output are left out.
pub mod Expired
pub mod Chunks
use pooml.Base.{
  ℕ, zero, suc, ◌+◌, ◌-◌, ◌*◌, ◌≤◌, ◌<◌, ◌≡◌, refl, sym, ap, ◌∙◌, Bool, true, false, ◌&&◌, List, [],
  ◌∷◌, ◌++◌, Option, none, some, ltb, leb, if◌then◌else◌, if_cases, length, inl, inr, arith, ◌⊎◌,
}
use pooml.Base.Int.{ℤ, pos, negsuc, ltb_ℤ, ◌-ℤ◌}
use pooml.Bytes.{Bytes}
use pooml.Strings.{itoa}
use pooml.Strings.Split.{parse_int, parse_int-itoa, itoa-nonempty}

abbrev pub retention_default_logs_days : ℕ
retention_default_logs_days = 30

abbrev pub retention_default_metrics_days : ℕ
retention_default_metrics_days = 90

abbrev pub retention_default_firings_days : ℕ
retention_default_firings_days = 90

abbrev pub retention_min_days : ℕ
retention_min_days = 1

abbrev pub retention_max_days : ℕ
retention_max_days = 3650

abbrev pub retention_chunk : ℕ
retention_chunk = 10000

abbrev pub in_bounds : ℕ → Bool
in_bounds n = leb retention_min_days n && leb n retention_max_days

-- `RetentionDays` behind `strconv.Atoi`
abbrev pub days_from : ℕ → Option ℤ → ℕ
days_from default none = default
days_from default (some (pos n)) = if in_bounds n then n else default
days_from default (some (negsuc n)) = default

-- `RetentionDays`, of what `Get` returns; `none` is its error.
unfoldable pub retention_days : Option Bytes → ℕ → ℕ
unfolding parse_int
retention_days none default = default
retention_days (some []) default = default
retention_days (some (c ∷ s)) default = days_from default (parse_int (c ∷ s))

-- The time before which a row is expired: days of milliseconds before now
unfoldable pub threshold : ℤ → ℕ → ℤ
threshold now days = now -ℤ pos (days * 86400000)

-- A row is its id and its time stamp.
abbrev pub Rows : Type 0
Rows = List (ℕ × ℤ)

-- How a round of the loop goes: `cancelled` is the test of the context, `fails` an error of the
-- statement, which then deletes nothing, and `uncounted` one of `RowsAffected`, when the rows are deleted already.
pub data Outcome : Type 0 where
  goes_on cancelled fails uncounted : Outcome

-- What a round meets: the rows that ingestion inserts before it, the lock being free, and how it goes.
pub record Round : Type 0 where
  pub arrived : Rows
  pub outcome : Outcome

-- How `deleteExpired` ends; the last is for a loop that was cut off.
pub data Ending : Type 0 where
  returned stopped failed unfinished : Ending

pub record Deletion : Type 0 where
  pub rows : Rows
  pub total : ℕ
  pub ending : Ending

abbrev pub is_expired : ℤ → ℕ × ℤ → Bool
is_expired limit row = ltb_ℤ row.1 limit

-- The rows that one DELETE leaves: it takes the first expired ones, up to a number.
unfoldable pub delete_chunk : ℤ → ℕ → Rows → Rows
delete_chunk limit n [] = []
delete_chunk limit zero (row ∷ rows) = row ∷ rows
delete_chunk limit (suc n) (row ∷ rows) =
    let taken = delete_chunk limit n rows in
    let kept = delete_chunk limit (suc n) rows in if is_expired limit row then taken else row ∷ kept

-- The loop of `deleteExpired`, from the round `i` on. New rows have the greatest ids.
unfoldable pub delete_expired : (ℕ → Round) → ℤ → ℕ → ℕ → ℕ → Rows → Deletion
unfolding delete_chunk
delete_expired world limit zero i total rows = record {
  rows = rows;
  total = total;
  ending = unfinished;
}
delete_expired world limit (suc fuel) i total rows =
    let present = rows ++ (world i).arrived in
    let left = delete_chunk limit retention_chunk present in
    let n = length present - length left in
    let more = delete_expired world limit fuel (suc i) (total + n) left in
    elim (world i).outcome [
      | cancelled ↦ record { rows = present; total = total; ending = stopped }
      | fails ↦ record { rows = present; total = total; ending = failed }
      | uncounted ↦ record { rows = left; total = total; ending = failed }
      | goes_on ↦
          if ltb n retention_chunk
          then record { rows = left; total = total + n; ending = returned }
          else more
    ]

days_from-in_bounds :
    (default : ℕ) (o : Option ℤ) → in_bounds default ≡ true → in_bounds (days_from default o) ≡ true
days_from-in_bounds default none h = h
days_from-in_bounds default (some (pos n)) h =
    if_cases (λ d. in_bounds d ≡ true) (in_bounds n) n default (λ k. k) (λ _. h)
days_from-in_bounds default (some (negsuc n)) h = h

retention_days-in_bounds :
    (setting : Option Bytes) (default : ℕ)
    → in_bounds default ≡ true
    → in_bounds (retention_days setting default) ≡ true
unfolding retention_days
retention_days-in_bounds none default h = h
retention_days-in_bounds (some []) default h = h
retention_days-in_bounds (some (c ∷ s)) default h =
    days_from-in_bounds default (parse_int (c ∷ s)) h

retention_days_read :
    (s : Bytes) (default : ℕ)
    → 0 < length s
    → retention_days (some s) default ≡ days_from default (parse_int s)
unfolding retention_days
retention_days_read [] default h = absurd (omega arith)
retention_days_read (c ∷ s) default h = refl

-- The days that count are from 1 to 3650 if the default is, whatever the setting holds, and a number
-- in those bounds counts as it was written.
pub retention_days_lem :
    (setting : Option Bytes) (default n : ℕ)
    → in_bounds default ≡ true
    → in_bounds n ≡ true
    → (in_bounds (retention_days setting default) ≡ true)
      × (retention_days (some (itoa n)) default ≡ n)
retention_days_lem setting default n h k = (
  retention_days-in_bounds setting default h,
  retention_days_read (itoa n) default (itoa-nonempty n)
      ∙ ap (days_from default) (parse_int-itoa n (ground (arith, k)))
      ∙ rw k refl,
)
