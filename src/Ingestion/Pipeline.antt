-- ===== src/Ingestion/Pipeline.antt =====
-- ingestion/pipeline.go: the HTTP handlers in `TryIngest`, the parser workers, the fan-out, the
-- batch writer and `Shutdown`, as threads that take turns. An action is one atomic step of one
-- thread; a thread that is blocked stays where it is. Go's scheduler may order actions in any way,
-- so what is proved of every list of actions holds of every run.
pub mod Steps
pub mod Budget
pub mod Order
pub mod Closing
pub mod Conservation
use pooml.Base.{
  ℕ, zero, suc, ◌+◌, ◌-◌, Bool, true, false, not, ◌&&◌, List, [], ◌∷◌, ◌++◌, Option, none, some,
  ltb, leb, length, get_elem?, set, if◌then◌else◌,
}
use pooml.Base.Sums.{remove, is_nil}
use pooml.Base.Int.{ℤ}
use pooml.Bytes.{Bytes}
use pooml.Common.{StandardLog, clamp_timestamp}
use pooml.Ingestion.Broadcaster.{Broadcaster, broadcast, new_broadcaster}
use pooml.Ingestion.BatchWriter.{
  Writer, new_writer, is_full, full_turn, receive_turn, close_turn, timer_turn,
}

abbrev pub ingest_chan_size : ℕ
ingest_chan_size = 1000

abbrev pub parsed_chan_size : ℕ
parsed_chan_size = 5000

abbrev pub batch_input_chan_size : ℕ
batch_input_chan_size = 1000

-- 256 << 20
abbrev pub max_buffered_bytes : ℕ
max_buffered_bytes = 268435456

-- `ingestEvent`
pub record IngestEvent : Type 0 where
  pub service : Bytes
  pub host : Bytes
  pub payload : Bytes
  pub received_at : ℤ

abbrev pub size : IngestEvent → ℕ
size ev = length ev.payload

-- A call of `TryIngest` behind its `Add`, holding the read lock. It is refused when the budget was
-- crossed or the channel was full, and then has its bytes still to give back.
pub record Handler : Type 0 where
  pub event : IngestEvent
  pub refused : Bool

-- A parser worker in its inner loop, with the logs that it has still to send.
pub record Worker : Type 0 where
  pub event : IngestEvent
  pub rest : List StandardLog

-- How far `Shutdown` has come.
pub data Stage : Type 0 where
  serving locked ingest_closed parsed_closed batch_closed shut_down : Stage

pub record Pipeline : Type 0 where
  pub closed : Bool
  pub stage : Stage
  pub ingest_open : Bool
  pub parsed_open : Bool
  pub batch_open : Bool
  pub handlers : List Handler
  pub ingest_chan : List IngestEvent
  pub buffered_bytes : ℕ
  pub idle : ℕ  -- parser workers that wait for an event
  pub busy : List Worker
  pub parsed_chan : List StandardLog
  pub fanout_running : Bool
  pub hand : Option StandardLog  -- received by the fan-out and not yet passed on
  pub batch_input_chan : List StandardLog
  pub writer : Writer
  pub broadcaster : Broadcaster
  pub panicked : Bool  -- a send on a closed channel
  pub accepted : List IngestEvent  -- those for which `TryIngest` returns true
  pub emitted : List StandardLog  -- all that was sent to `parsedChan`

-- `NewPipeline` and `Start`, with the number of workers
unfoldable pub start : ℕ → Pipeline
start workers = record {
  closed = false;
  stage = serving;
  ingest_open = true;
  parsed_open = true;
  batch_open = true;
  handlers = [];
  ingest_chan = [];
  buffered_bytes = 0;
  idle = workers;
  busy = [];
  parsed_chan = [];
  fanout_running = true;
  hand = none;
  batch_input_chan = [];
  writer = new_writer;
  broadcaster = new_broadcaster;
  panicked = false;
  accepted = [];
  emitted = [];
}

-- `TryIngest`: the lock, the test of `closed`, and the `Add` with the test of its result.
unfoldable pub enter : IngestEvent → Pipeline → Pipeline
enter ev p =
    if p.closed
    then p
    else let total = p.buffered_bytes + size ev in
      record p {
        buffered_bytes = total;
        handlers = record { event = ev; refused = ltb max_buffered_bytes total } ∷ p.handlers;
      }

-- `TryIngest`: the `Add(-n)` of a refused call, or the `select`.
unfoldable pub resolve : ℕ → Handler → Pipeline → Pipeline
resolve i h p =
    if h.refused
    then record p {
      buffered_bytes = p.buffered_bytes - size h.event;
      handlers = remove p.handlers i;
    }
    else if not p.ingest_open
    then record p { panicked = true }
    else if ltb (length p.ingest_chan) ingest_chan_size
    then record p {
      handlers = remove p.handlers i;
      ingest_chan = p.ingest_chan ++ h.event ∷ [];
      accepted = p.accepted ++ h.event ∷ [];
    }
    else record p { handlers = set p.handlers i (record h { refused = true }) }

-- A log of the event's payload, with its time clamped.
abbrev pub stamped : IngestEvent → StandardLog → StandardLog
stamped ev l = record l { timestamp = clamp_timestamp l.timestamp ev.received_at }

-- `parserWorker`: one log of the payload is sent.
unfoldable pub emit : ℕ → Worker → StandardLog → List StandardLog → Pipeline → Pipeline
emit i w l rest p =
    let l' = stamped w.event l in
    if not p.parsed_open
    then record p { panicked = true }
    else if ltb (length p.parsed_chan) parsed_chan_size
    then record p {
      busy = set p.busy i (record w { rest = rest });
      parsed_chan = p.parsed_chan ++ l' ∷ [];
      emitted = p.emitted ++ l' ∷ [];
    }
    else p

-- `parserWorker`: behind the inner loop.
unfoldable pub finish : ℕ → Worker → Pipeline → Pipeline
finish i w p = record p {
  buffered_bytes = p.buffered_bytes - size w.event;
  idle = p.idle + 1;
  busy = remove p.busy i;
}

-- A busy worker's next step.
unfoldable pub work : ℕ → Worker → List StandardLog → Pipeline → Pipeline
unfolding emit finish
work i w [] p = finish i w p
work i w (l ∷ rest) p = emit i w l rest p

-- An idle worker receives an event, or returns when the channel is closed and empty.
unfoldable pub pick : (IngestEvent → List StandardLog) → List IngestEvent → Pipeline → Pipeline
pick parse [] p = if p.ingest_open then p else record p { idle = p.idle - 1 }
pick parse (ev ∷ events) p = record p {
  ingest_chan = events;
  idle = p.idle - 1;
  busy = record { event = ev; rest = parse ev } ∷ p.busy;
}

-- `fanout`: with nothing in hand it receives and broadcasts, or returns.
unfoldable pub fanout_take : List StandardLog → Pipeline → Pipeline
fanout_take [] p = if p.parsed_open then p else record p { fanout_running = false }
fanout_take (l ∷ logs) p = record p {
  parsed_chan = logs;
  hand = some l;
  broadcaster = broadcast l p.broadcaster;
}

-- `fanout`: `p.batchInputChan <- l`
unfoldable pub fanout_put : StandardLog → Pipeline → Pipeline
fanout_put l p =
    if not p.batch_open
    then record p { panicked = true }
    else if ltb (length p.batch_input_chan) batch_input_chan_size
    then record p { hand = none; batch_input_chan = p.batch_input_chan ++ l ∷ [] }
    else p

unfoldable pub fanout : Option StandardLog → Pipeline → Pipeline
unfolding fanout_take fanout_put
fanout none p = fanout_take p.parsed_chan p
fanout (some l) p = fanout_put l p

-- `batchWriter`: a receive, from the channel's contents.
unfoldable pub writer_receive : Bool → List StandardLog → Pipeline → Pipeline
writer_receive ok [] p = if p.batch_open then p else record p { writer = close_turn ok p.writer }
writer_receive ok (l ∷ logs) p = record p {
  batch_input_chan = logs;
  writer = receive_turn l p.writer;
}

-- The writer's turn; the flags say that the timer fires, and that an INSERT succeeds.
unfoldable pub writer_turn : Bool → Bool → Pipeline → Pipeline
unfolding writer_receive
writer_turn fires ok p =
    if not p.writer.running
    then p
    else if is_full p.writer
    then record p { writer = full_turn ok p.writer }
    else if fires && p.writer.armed && p.writer.timer
    then record p { writer = timer_turn ok p.writer }
    else writer_receive ok p.batch_input_chan p

-- `Shutdown`. The write lock is given when no handler holds the read lock; `Wait` returns when the
-- goroutines of its group have.
unfoldable pub shutdown_step : Stage → Pipeline → Pipeline
shutdown_step serving p =
    if is_nil p.handlers then record p { closed = true; stage = locked } else p
shutdown_step locked p = record p { ingest_open = false; stage = ingest_closed }
shutdown_step ingest_closed p =
    if leb p.idle 0 && is_nil p.busy
    then record p { parsed_open = false; stage = parsed_closed }
    else p
shutdown_step parsed_closed p =
    if p.fanout_running then p else record p { batch_open = false; stage = batch_closed }
shutdown_step batch_closed p = if p.writer.running then p else record p { stage = shut_down }
shutdown_step shut_down p = p

pub data Action : Type 0 where
  try_ingest : IngestEvent → Action
  handler : ℕ → Action
  worker_pick : Action
  worker : ℕ → Action
  fan_out : Action
  batch_writer : Bool → Bool → Action
  shutdown : Action

unfoldable pub at_handler : ℕ → Option Handler → Pipeline → Pipeline
at_handler i none p = p
at_handler i (some h) p = resolve i h p

unfoldable pub at_worker : ℕ → Option Worker → Pipeline → Pipeline
at_worker i none p = p
at_worker i (some w) p = work i w w.rest p

-- One step; `parse` is what the workers make of a payload.
unfoldable pub step : (IngestEvent → List StandardLog) → Action → Pipeline → Pipeline
unfolding at_handler at_worker
step parse (try_ingest ev) p = enter ev p
step parse (handler i) p = at_handler i (get_elem? p.handlers i) p
step parse worker_pick p = if leb 1 p.idle then pick parse p.ingest_chan p else p
step parse (worker i) p = at_worker i (get_elem? p.busy i) p
step parse fan_out p = if p.fanout_running then fanout p.hand p else p
step parse (batch_writer fires ok) p = writer_turn fires ok p
step parse shutdown p = shutdown_step p.stage p

unfoldable pub run : (IngestEvent → List StandardLog) → List Action → Pipeline → Pipeline
run parse [] p = p
run parse (a ∷ actions) p = run parse actions (step parse a p)
