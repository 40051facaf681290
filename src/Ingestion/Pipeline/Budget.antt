-- ===== src/Ingestion/Pipeline/Budget.antt =====
-- The byte budget and the channel sizes.
use pooml.Base.{
  ℕ, ◌+◌, ◌≤◌, ◌≡◌, Bool, true, List, [], ◌∷◌, Option, none, some, length, get_elem?, if◌then◌else◌,
  arith, length-append,
}
use pooml.Common.{StandardLog}
use pooml.Ingestion.Pipeline.{
  IngestEvent, size, Handler, Worker, Pipeline, Stage, Action, serving, ingest_chan_size,
  parsed_chan_size, batch_input_chan_size, max_buffered_bytes, enter, resolve, work, pick, fanout,
  writer_turn, shutdown_step, run, start, stamped,
}
use pooml.Ingestion.Pipeline.Steps.{Keeps, run-Keeps}
use pooml.Base.Sums.{sum, sum-append, sum-remove, sum-set}

abbrev pub handler_bytes : Handler → ℕ
handler_bytes h = size h.event

-- The bytes of a call that was not refused.
abbrev pub admitted_bytes : Handler → ℕ
admitted_bytes h = if h.refused then 0 else size h.event

abbrev pub worker_bytes : Worker → ℕ
worker_bytes w = size w.event

-- The counter is the number of payload bytes in the handlers, in the channel and at the workers;
-- those that were let in are within the budget; and no channel holds more than its size.
pub record IsBalanced (p : Pipeline) : Type 0 where
  pub counted :
      p.buffered_bytes
      ≡ sum handler_bytes p.handlers + sum size p.ingest_chan + sum worker_bytes p.busy
  pub within :
      sum admitted_bytes p.handlers + sum size p.ingest_chan + sum worker_bytes p.busy
      ≤ max_buffered_bytes
  pub ingest_capped : length p.ingest_chan ≤ ingest_chan_size
  pub parsed_capped : length p.parsed_chan ≤ parsed_chan_size
  pub batch_capped : length p.batch_input_chan ≤ batch_input_chan_size

admitted-le : (hs : List Handler) → sum admitted_bytes hs ≤ sum handler_bytes hs
admitted-le [] = omega arith
admitted-le (h ∷ hs) = ground (arith, admitted-le hs)

enter-IsBalanced : (ev : IngestEvent) (p : Pipeline) → IsBalanced p → IsBalanced (enter ev p)
unfolding enter
enter-IsBalanced ev p v = ground (arith, admitted-le p.handlers)

resolve-IsBalanced :
    (i : ℕ) (h : Handler) (p : Pipeline)
    → get_elem? p.handlers i ≡ some h
    → IsBalanced p
    → IsBalanced (resolve i h p)
unfolding resolve
resolve-IsBalanced i h p at v = ground (
  arith,
  sum-remove handler_bytes p.handlers i h at,
  sum-remove admitted_bytes p.handlers i h at,
  sum-set handler_bytes p.handlers i h (record h { refused = true }) at,
  sum-set admitted_bytes p.handlers i h (record h { refused = true }) at,
  sum-append size p.ingest_chan (h.event ∷ []),
  length-append p.ingest_chan (h.event ∷ []),
)

work-IsBalanced :
    (i : ℕ) (w : Worker) (logs : List StandardLog) (p : Pipeline)
    → get_elem? p.busy i ≡ some w
    → IsBalanced p
    → IsBalanced (work i w logs p)
unfolding work
work-IsBalanced i w [] p at v = ground (arith, sum-remove worker_bytes p.busy i w at)
work-IsBalanced i w (l ∷ rest) p at v = ground (
  arith,
  sum-set worker_bytes p.busy i w (record w { rest = rest }) at,
  length-append p.parsed_chan (stamped w.event l ∷ []),
)

pick-IsBalanced :
    (parse : IngestEvent → List StandardLog) (events : List IngestEvent) (p : Pipeline)
    → p.ingest_chan ≡ events
    → IsBalanced p
    → IsBalanced (pick parse events p)
unfolding pick
pick-IsBalanced parse [] p e v = ground arith
pick-IsBalanced parse (ev ∷ events) p e v = ground arith

fanout-IsBalanced : (o : Option StandardLog) (p : Pipeline) → IsBalanced p → IsBalanced (fanout o p)
unfolding fanout
fanout-IsBalanced none p v = ground arith
fanout-IsBalanced (some l) p v = ground (arith, length-append p.batch_input_chan (l ∷ []))

writer_turn-IsBalanced :
    (fires ok : Bool) (p : Pipeline) → IsBalanced p → IsBalanced (writer_turn fires ok p)
unfolding writer_turn
writer_turn-IsBalanced fires ok p v = ground arith

shutdown_step-IsBalanced :
    (s : Stage) (p : Pipeline) → IsBalanced p → IsBalanced (shutdown_step s p)
unfolding shutdown_step
shutdown_step-IsBalanced serving p v = ground arith
shutdown_step-IsBalanced _ p v = ground arith

Keeps-IsBalanced : (parse : IngestEvent → List StandardLog) → Keeps parse IsBalanced
Keeps-IsBalanced parse = record {
  enters = enter-IsBalanced;
  resolves = resolve-IsBalanced;
  picks = λ events p e _ v. pick-IsBalanced parse events p e v;
  works = λ i w logs p at _ v. work-IsBalanced i w logs p at v;
  fans = λ o p _ _ v. fanout-IsBalanced o p v;
  writes = writer_turn-IsBalanced;
  shuts = λ p v. shutdown_step-IsBalanced p.stage p v;
}

start-IsBalanced : (workers : ℕ) → IsBalanced (start workers)
unfolding start
start-IsBalanced workers = ground arith

-- However handlers, workers and the rest are scheduled: the byte counter is exactly the payload
-- bytes held by the calls of `TryIngest`, the ingest channel and the workers, so that it never goes
-- below zero and is zero when they hold none; the payloads let in are never more than 256 MiB; and
-- no channel holds more than its size.
pub run_budget :
    (parse : IngestEvent → List StandardLog) (workers : ℕ) (actions : List Action)
    → IsBalanced (run parse actions (start workers))
run_budget parse workers actions =
    run-Keeps (Keeps-IsBalanced parse) actions (start workers) (start-IsBalanced workers)
