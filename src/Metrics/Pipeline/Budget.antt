-- ===== src/Metrics/Pipeline/Budget.antt =====
-- The row budget of metrics/pipeline.go and the size of its channel.
use pooml.Base.{
  ℕ, ◌+◌, ◌≤◌, ◌≡◌, refl, Bool, true, List, [], ◌∷◌, some, length, get_elem?, if◌then◌else◌,
  if_cases, arith, length-append,
}
use pooml.Base.Sums.{sum, sum-append, sum-remove, sum-set}
use pooml.Metrics.Pipeline.Steps.{Keeps, run-Keeps}
use pooml.Metrics.Pipeline.{
  Push, Pipeline, Stage, Action, batch_chan_size, max_buffered_rows, start, enter, resolve,
  flush_turn, finish, receive, keep, shutdown_step, run,
}

module _ {Row : Type 0} where
  abbrev pub push_rows : Push Row → ℕ
  push_rows h = length h.rows

  -- The rows of a call that is not refused
  abbrev pub admitted_rows : Push Row → ℕ
  admitted_rows h = if h.refused then 0 else length h.rows

  -- The counter is the number of rows in the calls, in the channel and in the writer's hand; those
  -- that were let in are within the budget; and the channel holds no more than its size.
  pub record IsBalanced (p : Pipeline Row) : Type 0 where
    pub counted : p.buffered_rows ≡ sum push_rows p.pushes + sum length p.batch_ch + length p.taken
    pub within :
        sum admitted_rows p.pushes + sum length p.batch_ch + length p.taken ≤ max_buffered_rows
    pub capped : length p.batch_ch ≤ batch_chan_size

  admitted-le : (hs : List (Push Row)) → sum admitted_rows hs ≤ sum push_rows hs
  admitted-le [] = omega arith
  admitted-le (h ∷ hs) = ground (arith, admitted-le hs)

  enter-IsBalanced : (rows : List Row) (p : Pipeline Row) → IsBalanced p → IsBalanced (enter rows p)
  unfolding enter
  enter-IsBalanced [] p v = v
  enter-IsBalanced (r ∷ rows) p v = ground (arith, admitted-le p.pushes)

  resolve-IsBalanced :
      (i : ℕ) (h : Push Row) (p : Pipeline Row)
      → get_elem? p.pushes i ≡ some h
      → IsBalanced p
      → IsBalanced (resolve i h p)
  unfolding resolve
  resolve-IsBalanced i h p at v = ground (
    arith,
    sum-remove push_rows p.pushes i h at,
    sum-remove admitted_rows p.pushes i h at,
    sum-set push_rows p.pushes i h (record h { refused = true }) at,
    sum-set admitted_rows p.pushes i h (record h { refused = true }) at,
    sum-append length p.batch_ch (h.rows ∷ []),
    length-append p.batch_ch (h.rows ∷ []),
  )

  receive-IsBalanced :
      (succeeds : ℕ → Bool) (batches : List (List Row)) (p : Pipeline Row)
      → p.batch_ch ≡ batches
      → p.taken ≡ []
      → IsBalanced p
      → IsBalanced (receive succeeds batches p)
  unfolding receive finish flush_turn
  receive-IsBalanced succeeds [] p at free v =
      if_cases IsBalanced p.chan_open p _ (λ _. v)
        (λ _. record { counted = v.counted; within = v.within; capped = v.capped })
  receive-IsBalanced succeeds (rows ∷ batches) p at free v = ground arith

  keep-IsBalanced : (p : Pipeline Row) → IsBalanced p → IsBalanced (keep p.taken p)
  unfolding keep
  keep-IsBalanced p v = ground arith

  flush_turn-IsBalanced :
      (succeeds : ℕ → Bool) (p : Pipeline Row) → IsBalanced p → IsBalanced (flush_turn succeeds p)
  unfolding flush_turn
  flush_turn-IsBalanced succeeds p v = record {
    counted = v.counted;
    within = v.within;
    capped = v.capped;
  }

  shutdown_step-IsBalanced :
      (t : Stage) (p : Pipeline Row) → IsBalanced p → IsBalanced (shutdown_step t p)
  unfolding shutdown_step
  shutdown_step-IsBalanced t p v = ground arith

  Keeps-IsBalanced : Keeps IsBalanced
  Keeps-IsBalanced = record {
    enters = enter-IsBalanced;
    resolves = resolve-IsBalanced;
    keeps = λ p _ v. keep-IsBalanced p v;
    flushes = λ succeeds p _ _ v. flush_turn-IsBalanced succeeds p v;
    receives = λ succeeds p _ free v. receive-IsBalanced succeeds p.batch_ch p refl free v;
    shuts = λ p v. shutdown_step-IsBalanced p.stage p v;
  }

  start-IsBalanced : IsBalanced start
  unfolding start
  start-IsBalanced = ground arith

  -- However the calls of TryPush, the writer and Shutdown are scheduled: the row counter is exactly
  -- the number of rows in the calls, the channel and the writer's hand, so that it never goes below
  -- zero; the rows let in are at most 500000; and the channel holds at most 100 batches.
  pub run_row_budget : (actions : List (Action Row)) → IsBalanced (run actions start)
  run_row_budget actions = run-Keeps Keeps-IsBalanced actions start start-IsBalanced
