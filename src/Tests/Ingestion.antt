-- ===== src/Tests/Ingestion.antt =====
-- A run of the pipeline from one payload to the end of `Shutdown`, and a subscriber.
use pooml.Base.{ℕ, ◌+◌, true, false, List, [], ◌∷◌, ◌++◌, none, some, ◌≡◌, refl, arith, take, map}
use pooml.Base.Int.{pos, ◌+ℤ◌, ◌-ℤ◌}
use pooml.Bytes.{codes}
use pooml.Common.{StandardLog, clamp_timestamp, int64}
use pooml.Dict.{nat_eq, lookup}
use pooml.Ingestion.Broadcaster.{Broadcaster, subscriber_buf_size, offer_each, broadcast}
use pooml.Ingestion.Broadcaster.Delivery.{
  Call, log, join, leave, read, buffer, run_call, touches, subscriber_isolation,
}
use pooml.Ingestion.Broadcaster.Delivery
use pooml.Ingestion.Broadcaster.Interleaved.{run_calls, buffer-run_calls}
use pooml.Ingestion.BatchWriter.{is_full, full_turn, receive_turn, timer_turn, close_turn}
use pooml.Ingestion.Pipeline.{
  IngestEvent, Action, shut_down, run, start, step, try_ingest, handler, worker_pick, worker,
  fan_out, batch_writer, shutdown, at_handler, at_worker, enter, resolve, pick, work, fanout,
  writer_turn, shutdown_step,
}
use pooml.Base.Sums.{sum}
use pooml.Ingestion.Pipeline.Budget.{IsBalanced, run_budget}
use pooml.Ingestion.Pipeline.Closing.{IsClosing, run-IsClosing}
use pooml.Ingestion.Pipeline.Order.{IsOrdered, run_order}
use pooml.Ingestion.Pipeline.Conservation.{event_weight, run_delivered}

abbrev line : ℕ → StandardLog
line n = record {
  timestamp = pos (1780000000000 + n);
  ingested_at = pos 1780000000000;
  level = some 2;
  service = codes "api";
  host = codes "h1";
  message = none;
  parsed = none;
  raw = n ∷ [];
}

-- One log for each byte of the payload.
abbrev parse : IngestEvent → List StandardLog
parse ev = map line ev.payload

abbrev event : IngestEvent
event = record {
  service = codes "api";
  host = codes "h1";
  payload = 1 ∷ 2 ∷ [];
  received_at = pos 1780000000000;
}

-- The second call of `TryIngest` comes too late.
abbrev schedule : List Action
schedule =
    try_ingest event
    ∷ handler 0
    ∷ worker_pick
    ∷ worker 0
    ∷ shutdown
    ∷ try_ingest event
    ∷ fan_out
    ∷ fan_out
    ∷ batch_writer false true
    ∷ worker 0
    ∷ worker 0
    ∷ batch_writer true false
    ∷ shutdown
    ∷ worker_pick
    ∷ shutdown
    ∷ fan_out
    ∷ fan_out
    ∷ fan_out
    ∷ shutdown
    ∷ batch_writer false true
    ∷ batch_writer false true
    ∷ shutdown
    ∷ []

schedule_ends : (run parse schedule (start 1)).stage ≡ shut_down
unfolding run step start at_handler at_worker enter resolve pick work fanout writer_turn
    shutdown_step is_full full_turn receive_turn timer_turn close_turn broadcast offer_each
schedule_ends = refl

schedule_stores : (run parse schedule (start 1)).writer.stored ≡ line 1 ∷ line 2 ∷ []
unfolding run step start at_handler at_worker enter resolve pick work fanout writer_turn
    shutdown_step is_full full_turn receive_turn timer_turn close_turn broadcast offer_each
    clamp_timestamp int64 ◌+ℤ◌ ◌-ℤ◌
schedule_stores = refl

run_budget_example : IsBalanced (run parse schedule (start 1))
run_budget_example = run_budget parse 1 schedule

run-IsClosing_example : IsClosing 1 (run parse schedule (start 1))
run-IsClosing_example = run-IsClosing parse 1 schedule (omega arith)

run_order_example : IsOrdered (run parse schedule (start 1))
run_order_example = run_order parse 1 schedule

run_delivered_example :
    let p = run parse schedule (start 1) in
    (sum (λ _. 1) (p.writer.stored ++ p.writer.dropped)
      ≡ sum (event_weight (λ _. 1) parse) p.accepted)
    × (p.buffered_bytes ≡ 0)
run_delivered_example = run_delivered (λ _. 1) parse 1 schedule (omega arith) schedule_ends

abbrev two_logs : List StandardLog
two_logs = line 1 ∷ line 2 ∷ []

abbrev joined : Broadcaster
joined = record { subs = (0, line 1 ∷ []) ∷ (1, []) ∷ []; next_id = 2 }

joined-IsValid : Delivery.IsValid joined
unfolding lookup
joined-IsValid = record { distinct = (refl, (refl, tt)); below = omega arith }

buffer_of_0 : buffer 0 joined ≡ some (line 1 ∷ [])
unfolding lookup
buffer_of_0 = refl

-- Another subscriber reads and leaves, and a third comes, between two logs.
abbrev bustle : List Call
bustle = log (line 2) ∷ read 1 ∷ leave 1 ∷ join ∷ log (line 3) ∷ []

buffer-run_calls_example :
    buffer 0 (run_calls bustle joined)
    ≡ some (take subscriber_buf_size (line 1 ∷ line 2 ∷ line 3 ∷ []))
buffer-run_calls_example =
    buffer-run_calls 0 bustle joined (line 1 ∷ []) joined-IsValid buffer_of_0 (refl, (refl, tt))

run_call-IsValid_example : Delivery.IsValid (run_call (leave 0) joined)
run_call-IsValid_example = Delivery.run_call-IsValid (leave 0) joined joined-IsValid
