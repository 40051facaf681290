-- ===== src/Tests/Alerts.antt =====
-- Ticks over an alert that fires each time, with a cooldown of a minute.
use pooml.Base.{ℕ, ◌≤◌, ◌≡◌, refl, true, false, List, [], ◌∷◌, none, some, inl, inr}
use pooml.Bytes.{codes}
use pooml.Services.Alerts.{
  Alert, Store, World, rows, get, evaluate, evaluate_outcome, cooldown_passed, notify, update_eval,
  record_firing,
}
use pooml.Services.Alerts.Cooldown.{deliveries, Spaced}
use pooml.Services.Alerts.Inflight.{in_flight}
use pooml.Services.Alerts.Spacing.{AllCalm, run-Spaced}
use pooml.Services.Alerts.Tick.{
  Action, idle, list, visit, evaluates, leaves, run, step, starts, is_due, is_busy, enabled_rows,
  list_rows, visit_row, evaluate_turn, leave_turn,
}

abbrev errors : Alert
errors = record {
  id = 3;
  name = codes "errors";
  query = codes "SELECT 1";
  check_interval_ms = 30000;
  cooldown_ms = 60000;
  target = [];
  enabled = true;
  last_checked_at = none;
  last_fired_at = none;
  currently_firing = false;
  last_error = none;
  last_error_at = none;
  created_at = 0;
}

abbrev table : Store
table = record { alerts = errors ∷ []; firings = []; delivered = [] }

abbrev fires_at : ℕ → World
fires_at now = record {
  now = now;
  outcome = rows 1;
  notify_err = none;
  matched = [];
  error_clock = now;
  updates = true;
  audits = true;
}

-- The second tick finds the alert in flight; the evaluation at 131000 stands in the cooldown.
abbrev actions : List Action
actions =
    list 99000
    ∷ visit
    ∷ list 100000
    ∷ visit
    ∷ evaluates 0 (fires_at 100000)
    ∷ leaves 0
    ∷ list 130500
    ∷ visit
    ∷ evaluates 0 (fires_at 131000)
    ∷ leaves 0
    ∷ list 161000
    ∷ visit
    ∷ evaluates 0 (fires_at 162000)
    ∷ []

two_delivered : deliveries 3 (run actions (idle table)).store.delivered ≡ 162000 ∷ 100000 ∷ []
unfolding deliveries run step list_rows visit_row starts is_due is_busy enabled_rows evaluate_turn
    leave_turn evaluate evaluate_outcome cooldown_passed notify update_eval record_firing get
two_delivered = refl

errors_found : get 3 table.alerts ≡ some errors
unfolding get
errors_found = refl

none_delivered : deliveries 3 table.delivered ≡ []
unfolding deliveries
none_delivered = refl

actions-AllCalm : AllCalm actions (idle table)
unfolding step list_rows visit_row starts is_due is_busy enabled_rows evaluate_turn leave_turn
    evaluate evaluate_outcome cooldown_passed notify update_eval record_firing get
actions-AllCalm = (inr refl, (inl refl, (refl, (inr refl, (refl, (inr refl, (refl, tt)))))))

run-Spaced_example :
    let e = run actions (idle table) in
    (in_flight 3 e.inflight ≤ 1) × Spaced 60000 (deliveries 3 e.store.delivered)
run-Spaced_example = run-Spaced 3 errors actions table errors_found none_delivered actions-AllCalm
