-- ===== src/Ingestion/Pipeline/Steps.antt =====
-- Invariants of the pipeline: what each thread's step keeps, every run keeps.
use pooml.Base.{
  ℕ, ◌≡◌, refl, Bool, true, List, [], ◌∷◌, Option, none, some, leb, get_elem?, if_cases,
}
use pooml.Common.{StandardLog}
use pooml.Ingestion.Pipeline.{
  IngestEvent, Handler, Worker, Pipeline, Action, enter, resolve, work, pick, fanout, writer_turn,
  shutdown_step, at_handler, at_worker, step, run, try_ingest, handler, worker_pick, worker,
  fan_out, batch_writer, shutdown,
}

-- The steps of the threads keep `P`.
pub record Keeps (parse : IngestEvent → List StandardLog) (P : Pipeline → Type 0) : Type 0 where
  pub enters : (ev : IngestEvent) (p : Pipeline) → P p → P (enter ev p)
  pub resolves :
      (i : ℕ) (h : Handler) (p : Pipeline)
      → get_elem? p.handlers i ≡ some h
      → P p
      → P (resolve i h p)
  pub picks :
      (events : List IngestEvent) (p : Pipeline)
      → p.ingest_chan ≡ events
      → leb 1 p.idle ≡ true
      → P p
      → P (pick parse events p)
  pub works :
      (i : ℕ) (w : Worker) (logs : List StandardLog) (p : Pipeline)
      → get_elem? p.busy i ≡ some w
      → w.rest ≡ logs
      → P p
      → P (work i w logs p)
  pub fans :
      (o : Option StandardLog) (p : Pipeline)
      → p.hand ≡ o
      → p.fanout_running ≡ true
      → P p
      → P (fanout o p)
  pub writes : (fires ok : Bool) (p : Pipeline) → P p → P (writer_turn fires ok p)
  pub shuts : (p : Pipeline) → P p → P (shutdown_step p.stage p)

module _ {parse : IngestEvent → List StandardLog} {P : Pipeline → Type 0} (k : Keeps parse P) where
  at_handler-Keeps :
      (i : ℕ) (o : Option Handler) (p : Pipeline)
      → get_elem? p.handlers i ≡ o
      → P p
      → P (at_handler i o p)
  unfolding at_handler
  at_handler-Keeps i none p at v = v
  at_handler-Keeps i (some h) p at v = k.resolves i h p at v

  at_worker-Keeps :
      (i : ℕ) (o : Option Worker) (p : Pipeline)
      → get_elem? p.busy i ≡ o
      → P p
      → P (at_worker i o p)
  unfolding at_worker
  at_worker-Keeps i none p at v = v
  at_worker-Keeps i (some w) p at v = k.works i w w.rest p at refl v

  pub step-Keeps : (a : Action) (p : Pipeline) → P p → P (step parse a p)
  unfolding step
  step-Keeps (try_ingest ev) p v = k.enters ev p v
  step-Keeps (handler i) p v = at_handler-Keeps i (get_elem? p.handlers i) p refl v
  step-Keeps worker_pick p v =
      if_cases P (leb 1 p.idle) (pick parse p.ingest_chan p) p
        (λ idle. k.picks p.ingest_chan p refl idle v) (λ _. v)
  step-Keeps (worker i) p v = at_worker-Keeps i (get_elem? p.busy i) p refl v
  step-Keeps fan_out p v =
      if_cases P p.fanout_running (fanout p.hand p) p (λ runs. k.fans p.hand p refl runs v) (λ _. v)
  step-Keeps (batch_writer fires ok) p v = k.writes fires ok p v
  step-Keeps shutdown p v = k.shuts p v

  pub run-Keeps : (actions : List Action) (p : Pipeline) → P p → P (run parse actions p)
  unfolding run
  run-Keeps [] p v = v
  run-Keeps (a ∷ actions) p v = run-Keeps actions (step parse a p) (step-Keeps a p v)
