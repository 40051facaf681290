-- ===== src/Services/Alerts/Tick.antt =====
-- `tick` of services/alerts_evaluator.go and the goroutines that it starts. What `ListEnabled` returns is
-- read in one step and gone through row by row; an evaluation is one step, at its UpdateEval, since what
-- it does before no other step reads; the clock that it took is an argument.
use pooml.Base.{
  ℕ, zero, suc, ◌+◌, Bool, true, false, not, ◌||◌, List, [], ◌∷◌, none, some, ltb, ◌==◌,
  if◌then◌else◌,
}
use pooml.Services.Alerts.{Alert, Store, World, evaluate}

-- A goroutine: the row that it was given, and whether `evaluate` has returned. Its deferred Delete
-- follows.
pub record Turn : Type 0 where
  pub row : Alert
  pub evaluated : Bool

-- The tables, the rows that the tick has yet to look at with the clock that it took, and the goroutines
-- in flight; the in-flight set is their alerts.
pub record Evaluator : Type 0 where
  pub store : Store
  pub listed : List Alert
  pub now : ℕ
  pub inflight : List Turn

abbrev pub idle : Store → Evaluator
idle s = record { store = s; listed = []; now = 0; inflight = [] }

-- `ListEnabled`
unfoldable pub enabled_rows : List Alert → List Alert
enabled_rows [] = []
enabled_rows (a ∷ alerts) = let rest = enabled_rows alerts in if a.enabled then a ∷ rest else rest

unfoldable pub is_due : ℕ → Alert → Bool
is_due now a = elim a.last_checked_at [
  | none ↦ true
  | some t ↦ not (ltb now (t + a.check_interval_ms))
]

-- The answer of `LoadOrStore`
unfoldable pub is_busy : ℕ → List Turn → Bool
is_busy id [] = false
is_busy id (g ∷ turns) = let rest = is_busy id turns in g.row.id == id || rest

-- Whether the tick starts an evaluation of a row.
unfoldable pub starts : Alert → Evaluator → Bool
unfolding is_due is_busy
starts a e = if is_due e.now a then not (is_busy a.id e.inflight) else false

-- One round of the loop of `tick`
unfoldable pub visit_row : List Alert → Evaluator → Evaluator
unfolding starts
visit_row [] e = e
visit_row (a ∷ rows) e =
    if starts a e
    then record e { listed = rows; inflight = record { row = a; evaluated = false } ∷ e.inflight }
    else record e { listed = rows }

-- The goroutine of a number evaluates its row.
unfoldable pub evaluate_turn : ℕ → World → List Turn → Store → List Turn × Store
unfolding evaluate
evaluate_turn i w [] s = ([], s)
evaluate_turn zero w (g ∷ turns) s =
    if g.evaluated
    then (g ∷ turns, s)
    else (record g { evaluated = true } ∷ turns, evaluate g.row w s)
evaluate_turn (suc i) w (g ∷ turns) s = let rest = evaluate_turn i w turns s in (g ∷ rest.0, rest.1)

-- The goroutine of a number leaves the in-flight set; one that panicked does so without an evaluation.
unfoldable pub leave_turn : ℕ → List Turn → List Turn
leave_turn i [] = []
leave_turn zero (g ∷ turns) = turns
leave_turn (suc i) (g ∷ turns) = g ∷ leave_turn i turns

-- A tick starts, at a clock, once the one before is through its rows; it looks at a row; a goroutine
-- evaluates, or leaves.
pub data Action : Type 0 where
  list : ℕ → Action
  visit : Action
  evaluates : ℕ → World → Action
  leaves : ℕ → Action

unfoldable pub list_rows : ℕ → List Alert → Evaluator → Evaluator
unfolding enabled_rows
list_rows now [] e = record e { listed = enabled_rows e.store.alerts; now = now }
list_rows now (a ∷ rows) e = e

unfoldable pub step : Action → Evaluator → Evaluator
unfolding list_rows visit_row evaluate_turn leave_turn
step (list now) e = list_rows now e.listed e
step visit e = visit_row e.listed e
step (evaluates i w) e =
    let after = evaluate_turn i w e.inflight e.store in
    record e { inflight = after.0; store = after.1 }
step (leaves i) e = record e { inflight = leave_turn i e.inflight }

unfoldable pub run : List Action → Evaluator → Evaluator
unfolding step
run [] e = e
run (x ∷ actions) e = run actions (step x e)
