-- ===== src/Ingestion/Pipeline/Closing.antt =====
-- `Shutdown` against the other threads.
use pooml.Base.{
  ℕ, zero, suc, ◌+◌, ◌≤◌, ◌≡◌, ◌≢◌, ◌⊎◌, refl, Bool, true, false, List, [], ◌∷◌, Option, none, some,
  leb, length, get_elem?, arith, length-set,
}
use pooml.Common.{StandardLog}
use pooml.Ingestion.BatchWriter.{full_turn, receive_turn, close_turn, timer_turn}
use pooml.Ingestion.Pipeline.Steps.{Keeps, run-Keeps}
use pooml.Base.Sums.{remove}
use pooml.Ingestion.Pipeline.{
  IngestEvent, Handler, Worker, Pipeline, Stage, Action, serving, shut_down, enter, resolve, work,
  pick, fanout, writer_turn, shutdown_step, run, start,
}

abbrev pub is_serving : Stage → Bool
is_serving serving = true
is_serving _ = false

abbrev pub is_over : Stage → Bool
is_over shut_down = true
is_over _ = false

-- The order in which things close: a channel closes only when no thread is left that sends on it,
-- and a thread returns only when the channel that it receives from is closed and empty.
pub record IsClosing (workers : ℕ) (p : Pipeline) : Type 0 where
  pub calm : p.panicked ≡ false
  pub past : is_serving p.stage ≡ false → p.closed ≡ true
  pub locked_out : p.closed ≡ true → p.handlers ≡ []
  pub ingest_shut : p.ingest_open ≡ false → p.closed ≡ true
  pub staffed :
      ((p.ingest_open ≡ false) × (p.ingest_chan ≡ [])) ⊎ (p.idle + length p.busy ≡ workers)
  pub parsed_shut : p.parsed_open ≡ false → (p.idle ≡ 0) × (p.busy ≡ [])
  pub fanned :
      p.fanout_running ≡ false → (p.parsed_open ≡ false) × (p.parsed_chan ≡ []) × (p.hand ≡ none)
  pub batch_shut : p.batch_open ≡ false → p.fanout_running ≡ false
  pub written : p.writer.running ≡ false → (p.batch_open ≡ false) × (p.batch_input_chan ≡ [])
  pub over : is_over p.stage ≡ true → p.writer.running ≡ false

length-remove {ℓ} :
    {A : Type ℓ} (xs : List A) (i : ℕ) (x : A)
    → get_elem? xs i ≡ some x
    → length (remove xs i) + 1 ≡ length xs
length-remove [] i x h = cc
length-remove (y ∷ xs) zero x h = omega arith
length-remove (y ∷ xs) (suc i) x h = omega (arith, length-remove xs i x h)

get_elem-ne-nil {ℓ} : {A : Type ℓ} (xs : List A) (i : ℕ) (x : A) → get_elem? xs i ≡ some x → xs ≢ []
get_elem-ne-nil [] i x h e = cc
get_elem-ne-nil (y ∷ xs) i x h e = cc

module _ (workers : ℕ) where
  enter-IsClosing :
      (ev : IngestEvent) (p : Pipeline) → IsClosing workers p → IsClosing workers (enter ev p)
  unfolding enter
  enter-IsClosing ev p v = ground arith

  resolve-IsClosing :
      (i : ℕ) (h : Handler) (p : Pipeline)
      → get_elem? p.handlers i ≡ some h
      → IsClosing workers p
      → IsClosing workers (resolve i h p)
  unfolding resolve
  resolve-IsClosing i h p at v = ground (arith, get_elem-ne-nil p.handlers i h at)

  work-IsClosing :
      (i : ℕ) (w : Worker) (logs : List StandardLog) (p : Pipeline)
      → get_elem? p.busy i ≡ some w
      → IsClosing workers p
      → IsClosing workers (work i w logs p)
  unfolding work
  work-IsClosing i w [] p at v =
      ground (arith, get_elem-ne-nil p.busy i w at, length-remove p.busy i w at)
  work-IsClosing i w (l ∷ rest) p at v =
      ground (arith, get_elem-ne-nil p.busy i w at, length-set p.busy i (record w { rest = rest }))

  pick-IsClosing :
      (parse : IngestEvent → List StandardLog) (events : List IngestEvent) (p : Pipeline)
      → p.ingest_chan ≡ events
      → leb 1 p.idle ≡ true
      → IsClosing workers p
      → IsClosing workers (pick parse events p)
  unfolding pick
  pick-IsClosing parse [] p e h v = ground arith
  pick-IsClosing parse (ev ∷ events) p e h v = ground arith

  fanout-IsClosing :
      (o : Option StandardLog) (p : Pipeline)
      → p.hand ≡ o
      → p.fanout_running ≡ true
      → IsClosing workers p
      → IsClosing workers (fanout o p)
  unfolding fanout
  fanout-IsClosing none p e h v = ground arith
  fanout-IsClosing (some l) p e h v = ground arith

  writer_turn-IsClosing :
      (fires ok : Bool) (p : Pipeline)
      → IsClosing workers p
      → IsClosing workers (writer_turn fires ok p)
  unfolding writer_turn full_turn receive_turn close_turn timer_turn
  writer_turn-IsClosing fires ok p v = ground arith

  shutdown_step-IsClosing :
      (s : Stage) (p : Pipeline)
      → p.stage ≡ s
      → 1 ≤ workers
      → IsClosing workers p
      → IsClosing workers (shutdown_step s p)
  unfolding shutdown_step
  shutdown_step-IsClosing serving p e n v = ground arith
  shutdown_step-IsClosing _ p e n v = ground arith

  Keeps-IsClosing :
      (parse : IngestEvent → List StandardLog) → 1 ≤ workers → Keeps parse (IsClosing workers)
  Keeps-IsClosing parse n = record {
    enters = enter-IsClosing;
    resolves = resolve-IsClosing;
    picks = pick-IsClosing parse;
    works = λ i w logs p at _ v. work-IsClosing i w logs p at v;
    fans = fanout-IsClosing;
    writes = writer_turn-IsClosing;
    shuts = λ p v. shutdown_step-IsClosing p.stage p refl n v;
  }

  start-IsClosing : IsClosing workers (start workers)
  unfolding start
  start-IsClosing = ground arith

-- With at least one worker, under every schedule: nothing is ever sent on a closed channel, and the
-- channels close from producer to consumer, each only when no thread is left that sends on it.
pub run-IsClosing :
    (parse : IngestEvent → List StandardLog) (workers : ℕ) (actions : List Action)
    → 1 ≤ workers
    → IsClosing workers (run parse actions (start workers))
run-IsClosing parse workers actions n =
    run-Keeps (Keeps-IsClosing workers parse n) actions (start workers) (start-IsClosing workers)
