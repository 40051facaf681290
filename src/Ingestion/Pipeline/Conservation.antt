-- ===== src/Ingestion/Pipeline/Conservation.antt =====
-- From accepted payloads to rows: nothing is lost on the way, up to the end of `Shutdown`.
use mathlib.Core.List.{append-nil}
use pooml.Base.{
  ℕ, ◌+◌, ◌≤◌, ◌≡◌, sym, ap, ◌∙◌, Bool, false, List, [], ◌∷◌, ◌++◌, Option, none, some, get_elem?,
  arith,
}
use pooml.Common.{StandardLog}
use pooml.Ingestion.BatchWriter.Turns.{given}
use pooml.Ingestion.Pipeline.{
  IngestEvent, Handler, Worker, Pipeline, Stage, Action, serving, shut_down, enter, resolve, work,
  pick, fanout, writer_turn, shutdown_step, run, start, stamped,
}
use pooml.Ingestion.Pipeline.Steps.{Keeps, run-Keeps}
use pooml.Base.Sums.{sum, sum-append, sum-remove, sum-set}
use pooml.Ingestion.Pipeline.Budget.{IsBalanced, run_budget}
use pooml.Ingestion.Pipeline.Closing.{IsClosing, run-IsClosing}
use pooml.Ingestion.Pipeline.Order.{IsOrdered, queued, run_order}

-- `f` weighs logs: with the weight 1 for the logs of some kind and 0 for others it counts them.
module _ (f : StandardLog → ℕ) where
  abbrev pub logs_weight : IngestEvent → List StandardLog → ℕ
  logs_weight ev [] = 0
  logs_weight ev (l ∷ logs) = f (stamped ev l) + logs_weight ev logs

  abbrev pub worker_weight : Worker → ℕ
  worker_weight w = logs_weight w.event w.rest

-- The logs of an event, as they are sent.
abbrev pub event_weight : (StandardLog → ℕ) → (IngestEvent → List StandardLog) → IngestEvent → ℕ
event_weight f parse ev = logs_weight f ev (parse ev)

record IsConserved (f : StandardLog → ℕ) (parse : IngestEvent → List StandardLog) (p : Pipeline)
    : Type 0 where
  weight :
      sum f p.emitted + sum (worker_weight f) p.busy + sum (event_weight f parse) p.ingest_chan
      ≡ sum (event_weight f parse) p.accepted

module _ (f : StandardLog → ℕ) (parse : IngestEvent → List StandardLog) where
  enter-IsConserved :
      (ev : IngestEvent) (p : Pipeline) → IsConserved f parse p → IsConserved f parse (enter ev p)
  unfolding enter
  enter-IsConserved ev p v = ground arith

  resolve-IsConserved :
      (i : ℕ) (h : Handler) (p : Pipeline)
      → IsConserved f parse p
      → IsConserved f parse (resolve i h p)
  unfolding resolve
  resolve-IsConserved i h p v = ground (
    arith,
    sum-append (event_weight f parse) p.ingest_chan (h.event ∷ []),
    sum-append (event_weight f parse) p.accepted (h.event ∷ []),
  )

  work-IsConserved :
      (i : ℕ) (w : Worker) (logs : List StandardLog) (p : Pipeline)
      → get_elem? p.busy i ≡ some w
      → w.rest ≡ logs
      → IsConserved f parse p
      → IsConserved f parse (work i w logs p)
  unfolding work
  work-IsConserved i w [] p at e v =
      ground (arith, sum-remove (worker_weight f) p.busy i w at, ap (logs_weight f w.event) e)
  work-IsConserved i w (l ∷ rest) p at e v = ground (
    arith,
    sum-set (worker_weight f) p.busy i w (record w { rest = rest }) at,
    ap (logs_weight f w.event) e,
    sum-append f p.emitted (stamped w.event l ∷ []),
  )

  pick-IsConserved :
      (events : List IngestEvent) (p : Pipeline)
      → p.ingest_chan ≡ events
      → IsConserved f parse p
      → IsConserved f parse (pick parse events p)
  unfolding pick
  pick-IsConserved [] p e v = ground arith
  pick-IsConserved (ev ∷ events) p e v = ground (arith, ap (sum (event_weight f parse)) e)

  fanout-IsConserved :
      (o : Option StandardLog) (p : Pipeline)
      → IsConserved f parse p
      → IsConserved f parse (fanout o p)
  unfolding fanout
  fanout-IsConserved none p v = ground arith
  fanout-IsConserved (some l) p v = ground arith

  writer_turn-IsConserved :
      (fires ok : Bool) (p : Pipeline)
      → IsConserved f parse p
      → IsConserved f parse (writer_turn fires ok p)
  unfolding writer_turn
  writer_turn-IsConserved fires ok p v = ground arith

  shutdown_step-IsConserved :
      (s : Stage) (p : Pipeline) → IsConserved f parse p → IsConserved f parse (shutdown_step s p)
  unfolding shutdown_step
  shutdown_step-IsConserved serving p v = ground arith
  shutdown_step-IsConserved _ p v = ground arith

  Keeps-IsConserved : Keeps parse (IsConserved f parse)
  Keeps-IsConserved = record {
    enters = enter-IsConserved;
    resolves = λ i h p _ v. resolve-IsConserved i h p v;
    picks = λ events p e _ v. pick-IsConserved events p e v;
    works = work-IsConserved;
    fans = λ o p _ _ v. fanout-IsConserved o p v;
    writes = writer_turn-IsConserved;
    shuts = λ p v. shutdown_step-IsConserved p.stage p v;
  }

  start-IsConserved : (workers : ℕ) → IsConserved f parse (start workers)
  unfolding start
  start-IsConserved workers = ground arith

-- When `Shutdown` has returned, every channel is empty.
record IsDrained (p : Pipeline) : Type 0 where
  no_handlers : p.handlers ≡ []
  no_events : p.ingest_chan ≡ []
  no_busy : p.busy ≡ []
  no_logs : queued p ≡ []
  no_rows : p.writer.buf ≡ []

shut_down-IsDrained :
    (workers : ℕ) (p : Pipeline)
    → 1 ≤ workers
    → p.stage ≡ shut_down
    → IsClosing workers p
    → IsOrdered p
    → IsDrained p
shut_down-IsDrained workers p n s c o =
    let returned : p.writer.running ≡ false = ground (arith, c.over) in
    ground (arith, returned, c.written returned, c.staffed, o.valid.returned returned)

all_handed_over :
    (p : Pipeline) → IsOrdered p → IsDrained p → p.writer.stored ++ p.writer.dropped ≡ p.emitted
all_handed_over p o d =
    sym (append-nil (p.writer.stored ++ p.writer.dropped))
    ∙ ap (λ rows. (p.writer.stored ++ p.writer.dropped) ++ rows) (sym d.no_rows)
    ∙ sym (append-nil (given p.writer))
    ∙ ap (λ rows. given p.writer ++ rows) (sym d.no_logs)
    ∙ o.line

-- When `Shutdown` has returned, under every schedule before: the rows stored in logs.db and those
-- dropped by the writer's last, failed flush are together exactly the logs of the payloads that
-- `TryIngest` accepted, each as often as it was parsed (`f` weighs logs at will), and the byte
-- counter is back at zero.
pub run_delivered :
    (f : StandardLog → ℕ) (parse : IngestEvent → List StandardLog) (workers : ℕ)
    (actions : List Action)
    → 1 ≤ workers
    → let p = run parse actions (start workers) in
      p.stage ≡ shut_down
      → (sum f (p.writer.stored ++ p.writer.dropped) ≡ sum (event_weight f parse) p.accepted)
        × (p.buffered_bytes ≡ 0)
run_delivered f parse workers actions n s =
    delivered (run parse actions (start workers)) s
      (run-Keeps (Keeps-IsConserved f parse) actions (start workers)
        (start-IsConserved f parse workers))
      (run_order parse workers actions) (run_budget parse workers actions)
      (run-IsClosing parse workers actions n)
  where
    delivered :
        (p : Pipeline)
        → p.stage ≡ shut_down
        → IsConserved f parse p
        → IsOrdered p
        → IsBalanced p
        → IsClosing workers p
        → (sum f (p.writer.stored ++ p.writer.dropped) ≡ sum (event_weight f parse) p.accepted)
          × (p.buffered_bytes ≡ 0)
    delivered p s v o b c =
        let d = shut_down-IsDrained workers p n s c o in
        (ap (sum f) (all_handed_over p o d) ∙ ground (arith, v, d), ground (arith, b, d))
