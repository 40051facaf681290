-- ===== src/Metrics/Pipeline/Steps.antt =====
-- Invariants of the metrics pipeline: what each thread's step keeps, every run keeps.
use pooml.Base.{
  ℕ, ◌≡◌, refl, Bool, true, not, List, [], ◌∷◌, Option, none, some, length, leb, get_elem?,
  if_cases, if◌then◌else◌, arith,
}
use pooml.Base.Sums.{is_nil}
use pooml.Metrics.Writer.{batch_size}
use pooml.Metrics.Pipeline.{
  Push, Pipeline, Action, try_push, push, writer, shutdown, enter, resolve, at_push, flush_turn,
  receive, keep, writer_turn, shutdown_step, step, run,
}

module _ {Row : Type 0} where
  -- The steps of the threads keep `P`. The writer's stand under what it has tested before them.
  pub record Keeps (P : Pipeline Row → Type 0) : Type 0 where
    pub enters : (rows : List Row) (p : Pipeline Row) → P p → P (enter rows p)
    pub resolves :
        (i : ℕ) (h : Push Row) (p : Pipeline Row)
        → get_elem? p.pushes i ≡ some h
        → P p
        → P (resolve i h p)
    pub keeps : (p : Pipeline Row) → p.running ≡ true → P p → P (keep p.taken p)
    pub flushes :
        (succeeds : ℕ → Bool) (p : Pipeline Row)
        → p.running ≡ true
        → p.taken ≡ []
        → P p
        → P (flush_turn succeeds p)
    pub receives :
        (succeeds : ℕ → Bool) (p : Pipeline Row)
        → p.running ≡ true
        → p.taken ≡ []
        → P p
        → P (receive succeeds p.batch_ch p)
    pub shuts : (p : Pipeline Row) → P p → P (shutdown_step p.stage p)

  module _ {P : Pipeline Row → Type 0} (k : Keeps P) where
    at_push-Keeps :
        (i : ℕ) (o : Option (Push Row)) (p : Pipeline Row)
        → get_elem? p.pushes i ≡ o
        → P p
        → P (at_push i o p)
    unfolding at_push
    at_push-Keeps i none p at v = v
    at_push-Keeps i (some h) p at v = k.resolves i h p at v

    writer_turn-Keeps :
        (ticks : Bool) (succeeds : ℕ → Bool) (p : Pipeline Row)
        → P p
        → P (writer_turn ticks succeeds p)
    unfolding writer_turn
    writer_turn-Keeps ticks succeeds p v =
        let kept = keep p.taken p in
        let flushed = flush_turn succeeds p in
        let received = receive succeeds p.batch_ch p in
        let waits = if ticks then flushed else received in
        let free = if leb batch_size (length p.buf) then flushed else waits in
        let runs = if not (is_nil p.taken) then kept else free in
        if_cases P (not p.running) p runs (λ _. v)
          (λ on.
            let running : p.running ≡ true = ground (arith, on) in
            if_cases P (not (is_nil p.taken)) kept free (λ _. k.keeps p running v)
              (λ nil.
                let empty : p.taken ≡ [] = ground (arith, nil) in
                if_cases P (leb batch_size (length p.buf)) flushed waits
                  (λ _. k.flushes succeeds p running empty v)
                  (λ _.
                    if_cases P ticks flushed received (λ _. k.flushes succeeds p running empty v)
                      (λ _. k.receives succeeds p running empty v))))

    step-Keeps : (a : Action Row) (p : Pipeline Row) → P p → P (step a p)
    unfolding step
    step-Keeps (try_push rows) p v = k.enters rows p v
    step-Keeps (push i) p v = at_push-Keeps i (get_elem? p.pushes i) p refl v
    step-Keeps (writer ticks succeeds) p v = writer_turn-Keeps ticks succeeds p v
    step-Keeps shutdown p v = k.shuts p v

    pub run-Keeps : (actions : List (Action Row)) (p : Pipeline Row) → P p → P (run actions p)
    unfolding run
    run-Keeps [] p v = v
    run-Keeps (a ∷ actions) p v = run-Keeps actions (step a p) (step-Keeps a p v)
