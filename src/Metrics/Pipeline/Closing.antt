-- ===== src/Metrics/Pipeline/Closing.antt =====
-- Shutdown of metrics/pipeline.go: the channel is closed when no call is left that sends on it.
use pooml.Base.{ℕ, ◌≡◌, refl, Bool, true, false, List, [], ◌∷◌, some, get_elem?, arith}
use pooml.Metrics.Pipeline.{
  Push, Pipeline, Stage, serving, marked, chan_closed, shut_down, Action, start, enter, resolve,
  flush_turn, finish, receive, keep, shutdown_step, run,
}
use pooml.Metrics.Pipeline.Steps.{Keeps, run-Keeps}

module _ {Row : Type 0} where
  -- What holds at each stage of Shutdown.
  abbrev pub AtStage : Stage → Pipeline Row → Type 0
  AtStage serving p = (p.chan_open ≡ true) × (p.closed ≡ false)
  AtStage marked p = (p.chan_open ≡ true) × (p.closed ≡ true) × (p.pushes ≡ [])
  AtStage chan_closed p = (p.chan_open ≡ false) × (p.closed ≡ true) × (p.pushes ≡ [])
  AtStage shut_down p =
      (p.chan_open ≡ false) × (p.closed ≡ true) × (p.pushes ≡ []) × (p.running ≡ false)

  pub record IsClosing (p : Pipeline Row) : Type 0 where
    pub staged : AtStage p.stage p
    pub quiet : p.panicked ≡ false

  enter-IsClosing :
      (t : Stage) (rows : List Row) (p : Pipeline Row)
      → p.stage ≡ t
      → IsClosing p
      → IsClosing (enter rows p)
  unfolding enter
  enter-IsClosing t rows p at v = ground arith

  resolve-IsClosing :
      (i : ℕ) (h : Push Row) (p : Pipeline Row)
      → get_elem? p.pushes i ≡ some h
      → IsClosing p
      → IsClosing (resolve i h p)
  unfolding resolve
  resolve-IsClosing i h p at v = ground arith

  receive-IsClosing :
      (succeeds : ℕ → Bool) (batches : List (List Row)) (p : Pipeline Row)
      → p.running ≡ true
      → IsClosing p
      → IsClosing (receive succeeds batches p)
  unfolding receive finish flush_turn
  receive-IsClosing succeeds [] p on v = ground arith
  receive-IsClosing succeeds (rows ∷ batches) p on v = ground arith

  flush_turn-IsClosing :
      (succeeds : ℕ → Bool) (p : Pipeline Row) → IsClosing p → IsClosing (flush_turn succeeds p)
  unfolding flush_turn
  flush_turn-IsClosing succeeds p v = ground arith

  keep-IsClosing : (p : Pipeline Row) → IsClosing p → IsClosing (keep p.taken p)
  unfolding keep
  keep-IsClosing p v = ground arith

  shutdown_step-IsClosing :
      (t : Stage) (p : Pipeline Row) → p.stage ≡ t → IsClosing p → IsClosing (shutdown_step t p)
  unfolding shutdown_step
  shutdown_step-IsClosing t p at v = ground arith

  Keeps-IsClosing : Keeps IsClosing
  Keeps-IsClosing = record {
    enters = λ rows p v. enter-IsClosing p.stage rows p refl v;
    resolves = resolve-IsClosing;
    keeps = λ p _ v. keep-IsClosing p v;
    flushes = λ succeeds p _ _ v. flush_turn-IsClosing succeeds p v;
    receives = λ succeeds p on _ v. receive-IsClosing succeeds p.batch_ch p on v;
    shuts = λ p v. shutdown_step-IsClosing p.stage p refl v;
  }

  start-IsClosing : IsClosing start
  unfolding start
  start-IsClosing = record { staged = (refl, refl); quiet = refl }

  pub run-IsClosing_rows : (actions : List (Action Row)) → IsClosing (run actions start)
  run-IsClosing_rows actions = run-Keeps Keeps-IsClosing actions start start-IsClosing
