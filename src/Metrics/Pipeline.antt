-- ===== src/Metrics/Pipeline.antt =====
-- metrics/pipeline.go: the callers of `TryPush`, the writer and `Shutdown`, as threads that take
-- turns. An action is one atomic step of one thread; a thread that is blocked stays where it is, so
-- that what is proved of every list of actions holds of every schedule. Which INSERTs of a turn
-- succeed is an argument of the turn.
pub mod Steps
pub mod Budget
pub mod Closing
pub mod Order
use pooml.Base.{
  ℕ, suc, ◌+◌, ◌-◌, Bool, true, false, not, ◌&&◌, List, [], ◌∷◌, ◌++◌, Option, none, some, ltb, leb,
  length, get_elem?, set, if◌then◌else◌,
}
use pooml.Base.Sums.{remove, is_nil}
use pooml.Metrics.Writer.{try_flush, batch_size}

abbrev pub batch_chan_size : ℕ
batch_chan_size = 100

abbrev pub max_buffered_rows : ℕ
max_buffered_rows = 500000

-- A call of `TryPush` behind its `Add`, holding the read lock. One that is refused has its rows
-- still to take off the counter.
pub record Push (Row : Type 0) : Type 0 where
  pub rows : List Row
  pub refused : Bool

-- How far `Shutdown` has come.
pub data Stage : Type 0 where
  serving marked chan_closed shut_down : Stage

pub record Pipeline (Row : Type 0) : Type 0 where
  pub closed : Bool
  pub stage : Stage
  pub chan_open : Bool
  pub pushes : List (Push Row)
  pub batch_ch : List (List Row)
  pub buffered_rows : ℕ
  pub running : Bool  -- the writer
  pub taken : List Row  -- received by the writer, and not yet taken off the counter
  pub buf : List Row
  pub stored : List Row  -- the table
  pub dropped : List Row  -- those left in the writer's buffer at its end
  pub panicked : Bool  -- a send on a closed channel
  pub accepted : List Row  -- those for which `TryPush` returned true

module _ {Row : Type 0} where
  -- `NewPipeline` and `Start`
  unfoldable pub start : Pipeline Row
  start = record {
    closed = false;
    stage = serving;
    chan_open = true;
    pushes = [];
    batch_ch = [];
    buffered_rows = 0;
    running = true;
    taken = [];
    buf = [];
    stored = [];
    dropped = [];
    panicked = false;
    accepted = [];
  }

  -- `TryPush`: the lock, the test of `closed`, and the `Add` with the test of its result. A call
  -- with no rows returns true at once.
  unfoldable pub enter : List Row → Pipeline Row → Pipeline Row
  enter [] p = p
  enter (r ∷ rows) p =
      if p.closed
      then p
      else let total = p.buffered_rows + length (r ∷ rows) in
        record p {
          buffered_rows = total;
          pushes = record { rows = r ∷ rows; refused = ltb max_buffered_rows total } ∷ p.pushes;
        }

  -- `TryPush`: the `Add(-n)` of a refused call, or the `select`.
  unfoldable pub resolve : ℕ → Push Row → Pipeline Row → Pipeline Row
  resolve i h p =
      if h.refused
      then record p { buffered_rows = p.buffered_rows - length h.rows; pushes = remove p.pushes i }
      else if not p.chan_open
      then record p { panicked = true }
      else if ltb (length p.batch_ch) batch_chan_size
      then record p {
        pushes = remove p.pushes i;
        batch_ch = p.batch_ch ++ h.rows ∷ [];
        accepted = p.accepted ++ h.rows;
      }
      else record p { pushes = set p.pushes i (record h { refused = true }) }

  unfoldable pub at_push : ℕ → Option (Push Row) → Pipeline Row → Pipeline Row
  unfolding resolve
  at_push i none p = p
  at_push i (some h) p = resolve i h p

  -- `tryFlush`, with fuel that is enough for its loop
  unfoldable pub flush_turn : (ℕ → Bool) → Pipeline Row → Pipeline Row
  flush_turn succeeds p =
      let left = try_flush succeeds (suc (length p.buf)) 0 p.buf p.stored in
      record p { buf = left.0; stored = left.1 }

  -- The end of the writer: what the last `tryFlush` leaves is dropped.
  unfoldable pub finish : (ℕ → Bool) → Pipeline Row → Pipeline Row
  unfolding flush_turn
  finish succeeds p =
      let flushed = flush_turn succeeds p in
      record flushed { buf = []; dropped = p.dropped ++ flushed.buf; running = false }

  -- A receive, from the contents of the channel.
  unfoldable pub receive : (ℕ → Bool) → List (List Row) → Pipeline Row → Pipeline Row
  unfolding finish
  receive succeeds [] p = let finished = finish succeeds p in if p.chan_open then p else finished
  receive succeeds (rows ∷ batches) p = record p { batch_ch = batches; taken = rows }

  -- `p.bufferedRows.Add(-int64(len(rows)))` and the append behind it
  unfoldable pub keep : List Row → Pipeline Row → Pipeline Row
  keep rows p = record p {
    buffered_rows = p.buffered_rows - length rows;
    taken = [];
    buf = p.buf ++ rows;
  }

  -- The writer's next step; `ticks` says that the `select` takes the ticker.
  unfoldable pub writer_turn : Bool → (ℕ → Bool) → Pipeline Row → Pipeline Row
  unfolding flush_turn receive keep
  writer_turn ticks succeeds p =
      let kept = keep p.taken p in
      let flushed = flush_turn succeeds p in
      let received = receive succeeds p.batch_ch p in
      if not p.running
      then p
      else if not (is_nil p.taken)
      then kept
      else if leb batch_size (length p.buf)
      then flushed
      else if ticks
      then flushed
      else received

  -- `Shutdown`. The write lock is given when no call holds the read lock, and `Wait` returns when
  -- the writer has.
  unfoldable pub shutdown_step : Stage → Pipeline Row → Pipeline Row
  shutdown_step serving p =
      if is_nil p.pushes then record p { closed = true; stage = marked } else p
  shutdown_step marked p = record p { chan_open = false; stage = chan_closed }
  shutdown_step chan_closed p = if p.running then p else record p { stage = shut_down }
  shutdown_step shut_down p = p

pub data Action (Row : Type 0) : Type 0 where
  try_push : List Row → Action Row
  push : ℕ → Action Row
  writer : Bool → (ℕ → Bool) → Action Row
  shutdown : Action Row

module _ {Row : Type 0} where
  unfoldable pub step : Action Row → Pipeline Row → Pipeline Row
  unfolding enter at_push writer_turn shutdown_step
  step (try_push rows) p = enter rows p
  step (push i) p = at_push i (get_elem? p.pushes i) p
  step (writer ticks succeeds) p = writer_turn ticks succeeds p
  step shutdown p = shutdown_step p.stage p

  unfoldable pub run : List (Action Row) → Pipeline Row → Pipeline Row
  unfolding step
  run [] p = p
  run (a ∷ actions) p = run actions (step a p)
