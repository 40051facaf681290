-- ===== src/Services/Alerts.antt =====
-- `UpdateEval` and `RecordFiring` of services/alerts.go and `evaluate` of
-- services/alerts_evaluator.go. The tables of meta.db are lists of rows; clocks are milliseconds.
pub mod Tick
pub mod Cooldown
pub mod Inflight
pub mod Spacing
use pooml.Base.{
  ℕ, ◌+◌, Bool, true, false, List, [], ◌∷◌, Option, none, some, leb, ◌==◌, if◌then◌else◌, map, ◌++◌,
}
use pooml.Bytes.{Bytes, codes}

pub record Alert : Type 0 where
  pub id : ℕ
  pub name : Bytes
  pub query : Bytes
  pub check_interval_ms : ℕ
  pub cooldown_ms : ℕ
  pub target : Bytes
  pub enabled : Bool
  pub last_checked_at : Option ℕ
  pub last_fired_at : Option ℕ
  pub currently_firing : Bool
  pub last_error : Option Bytes
  pub last_error_at : Option ℕ
  pub created_at : ℕ

-- A row of `alert_firings`.
pub record Firing : Type 0 where
  pub alert_id : ℕ
  pub fired_at : ℕ
  pub matched_rows : Bytes
  pub notification_sent : Bool

-- The tables, and the alerts of which a notification was delivered, the latest first, each with the
-- clock of its evaluation.
pub record Store : Type 0 where
  pub alerts : List Alert
  pub firings : List Firing
  pub delivered : List (ℕ × ℕ)

-- What `Validate` and `Execute` say of the alert's query.
pub data Outcome : Type 0 where
  failed : Bytes → Outcome
  rows : ℕ → Outcome  -- their number

-- What one evaluation meets: its clock, the query's outcome, the notifier's error, the audited
-- rows, the clock of `UpdateEval`, and whether the two statements succeed.
pub record World : Type 0 where
  pub now : ℕ
  pub outcome : Outcome
  pub notify_err : Option Bytes
  pub matched : Bytes
  pub error_clock : ℕ
  pub updates : Bool
  pub audits : Bool

-- `COALESCE(?, old)`
abbrev pub coalesce : Option ℕ → Option ℕ → Option ℕ
coalesce none old = old
coalesce (some n) old = some n

abbrev pub error_time : Option Bytes → ℕ → Option ℕ
error_time none clock = none
error_time (some e) clock = some clock

-- The row that `UpdateEval` writes.
abbrev pub evaluated : Bool → Option ℕ → Option Bytes → World → Alert → Alert
evaluated firing fired_at eval_err w a = record a {
  currently_firing = firing;
  last_checked_at = some w.now;
  last_fired_at = coalesce fired_at a.last_fired_at;
  last_error = eval_err;
  last_error_at = error_time eval_err w.error_clock;
}

abbrev pub update_row : ℕ → (Alert → Alert) → Alert → Alert
update_row id f a = if a.id == id then f a else a

unfoldable pub update_eval : ℕ → Bool → Option ℕ → Option Bytes → World → Store → Store
update_eval id firing fired_at eval_err w s =
    if w.updates
    then record s { alerts = map (update_row id (evaluated firing fired_at eval_err w)) s.alerts }
    else s

unfoldable pub record_firing : ℕ → Bool → World → Store → Store
record_firing id sent w s =
    if w.audits
    then record s {
      firings =
          record {
            alert_id = id;
            fired_at = w.now;
            matched_rows = w.matched;
            notification_sent = sent;
          }
          ∷ s.firings;
    }
    else s

unfoldable pub cooldown_passed : ℕ → Alert → Bool
cooldown_passed now a = elim a.last_fired_at [ none ↦ true | some t ↦ leb (t + a.cooldown_ms) now ]

-- `SendAlert` with what follows it; the second argument is its error.
unfoldable pub notify : Alert → Option Bytes → World → Store → Store
unfolding update_eval record_firing
notify a (some e) w s =
    update_eval a.id true none (some (codes "notification failed: " ++ e)) w
      (record_firing a.id false w s)
notify a none w s =
    let s' = record s { delivered = (a.id, w.now) ∷ s.delivered } in
    update_eval a.id true (some w.now) none w (record_firing a.id true w s')

-- `evaluate`, of a row as `tick` read it.
unfoldable pub evaluate_outcome : Alert → Outcome → World → Store → Store
unfolding update_eval cooldown_passed notify
evaluate_outcome a (failed msg) w s = update_eval a.id a.currently_firing none (some msg) w s
evaluate_outcome a (rows n) w s =
    if leb n 0
    then update_eval a.id false none none w s
    else if cooldown_passed w.now a
    then notify a w.notify_err w s
    else update_eval a.id true none none w s

unfoldable pub evaluate : Alert → World → Store → Store
unfolding evaluate_outcome
evaluate a w s = evaluate_outcome a w.outcome w s

-- The row of an alert.
unfoldable pub get : ℕ → List Alert → Option Alert
get id [] = none
get id (a ∷ alerts) = let rest = get id alerts in if a.id == id then some a else rest
