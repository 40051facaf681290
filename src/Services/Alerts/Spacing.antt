-- ===== src/Services/Alerts/Spacing.antt =====
-- How far the notifications of an alert are apart when ticks and evaluations are interleaved.
use mathlib.Core.Path.{subst}
use pooml.Base.{
  ℕ, ◌≤◌, ◌≡◌, refl, sym, ◌⊎◌, inl, inr, true, false, List, [], ◌∷◌, some, ◌==◌, arith, Bool-cases,
  if_cases,
}
use pooml.Services.Alerts.{Alert, Store, get}
use pooml.Services.Alerts.Cooldown.{IsNoted, Kept, Spaced, deliveries}
use pooml.Services.Alerts.Inflight.{
  Fits, leave_turn-Fits, evaluate_turn-Holds, in_flight, Fits-in_flight,
}
use pooml.Services.Alerts.Tick.{
  Action, Evaluator, evaluates, idle, is_busy, leaves, list, list_rows, run, starts, step, visit,
  visit_row,
}

-- A row that the tick starts an evaluation of is still the stored one, ...
abbrev pub IsFresh : List Alert → Evaluator → Type 0
IsFresh [] e = Unit
IsFresh (a ∷ rows) e = (starts a e ≡ false) ⊎ (get a.id e.store.alerts ≡ some a)

-- ... and the updates of the table succeed.
abbrev pub AllCalm : List Action → Evaluator → Type 0
AllCalm [] e = Unit
AllCalm (list now ∷ actions) e = AllCalm actions (step (list now) e)
AllCalm (visit ∷ actions) e = IsFresh e.listed e × AllCalm actions (step visit e)
AllCalm (evaluates i w ∷ actions) e = (w.updates ≡ true) × AllCalm actions (step (evaluates i w) e)
AllCalm (leaves i ∷ actions) e = AllCalm actions (step (leaves i) e)

abbrev Sound : ℕ → ℕ → Evaluator → Type 0
Sound id c e = Kept id c e.store × Fits id (get id e.store.alerts) e.inflight

list_rows-Sound :
    (id c now : ℕ) (rows : List Alert) (e : Evaluator)
    → Sound id c e
    → Sound id c (list_rows now rows e)
unfolding list_rows
list_rows-Sound id c now [] e v = v
list_rows-Sound id c now (a ∷ rows) e v = v

-- The in-flight set lets a row pass only where no other goroutine has it.
started-Fits :
    (id : ℕ) (a : Alert) (e : Evaluator)
    → starts a e ≡ true
    → get a.id e.store.alerts ≡ some a
    → Fits id (get id e.store.alerts) e.inflight
    → Fits id (get id e.store.alerts) (record { row = a; evaluated = false } ∷ e.inflight)
unfolding starts
started-Fits id a e go found f = elim (Bool-cases (a.id == id)) [
  | inl own ↦
      let same : a.id ≡ id = ground (arith, own) in
      let free : is_busy a.id e.inflight ≡ false = ground (arith, go) in
      inr (
        own,
        inr (subst (λ k. get k e.store.alerts ≡ some a) same found),
        subst (λ k. is_busy k e.inflight ≡ false) same free,
      )
  | inr ne ↦ inl (ne, f)
]

visit_row-Sound :
    (id c : ℕ) (rows : List Alert) (e : Evaluator)
    → IsFresh rows e
    → Sound id c e
    → Sound id c (visit_row rows e)
unfolding visit_row
visit_row-Sound id c [] e fresh v = v
visit_row-Sound id c (a ∷ rows) e fresh v =
    if_cases (Sound id c) (starts a e) _ _
      (λ go. (
        v.0,
        elim fresh [
          | inl stays ↦ absurd (ground (arith, go, stays))
          | inr found ↦ started-Fits id a e go found v.1
        ],
      ))
      (λ _. v)

run-Sound :
    (id c : ℕ) (actions : List Action) (e : Evaluator)
    → AllCalm actions e
    → Sound id c e
    → Sound id c (run actions e)
unfolding run step
run-Sound id c [] e h v = v
run-Sound id c (list now ∷ actions) e h v =
    run-Sound id c actions (step (list now) e) h (list_rows-Sound id c now e.listed e v)
run-Sound id c (visit ∷ actions) e h v =
    run-Sound id c actions (step visit e) h.1 (visit_row-Sound id c e.listed e h.0 v)
run-Sound id c (evaluates i w ∷ actions) e h v =
    run-Sound id c actions (step (evaluates i w) e) h.1
      (evaluate_turn-Holds id c w h.0 i e.inflight e.store v)
run-Sound id c (leaves i ∷ actions) e h v =
    run-Sound id c actions (step (leaves i) e) h
      (v.0, leave_turn-Fits id i (get id e.store.alerts) e.inflight v.1)

-- However the rounds of the ticks, the evaluations and their ends are interleaved, queries and
-- notifications failing or not, from a start with none in flight and no notification of the alert
-- delivered: never are two evaluations of the alert in flight, and of any two successive evaluations of
-- it that delivered a notification, the later took its clock at least the alert's cooldown after the
-- earlier. Two conditions: a row that a tick starts an evaluation of is, at that moment, still what the
-- table holds, so that no evaluation of its alert ended since the tick listed it; and the updates of the
-- table succeed, nobody else changing the row.
pub run-Spaced :
    (id : ℕ) (a : Alert) (actions : List Action) (s : Store)
    → get id s.alerts ≡ some a
    → deliveries id s.delivered ≡ []
    → AllCalm actions (idle s)
    → let e = run actions (idle s) in
      (in_flight id e.inflight ≤ 1) × Spaced a.cooldown_ms (deliveries id e.store.delivered)
run-Spaced id a actions s found none_yet calm =
    let v = run-Sound id a.cooldown_ms actions (idle s) calm (start, tt) in
    (Fits-in_flight id _ _ v.1, v.0.spaced)
  where
    start : Kept id a.cooldown_ms s
    start = record {
      row = a;
      found = found;
      same_cooldown = refl;
      noted = subst (λ ds. IsNoted ds a.last_fired_at) (sym none_yet) tt;
      spaced = subst (Spaced a.cooldown_ms) (sym none_yet) tt;
    }
