-- ===== src/Ingestion/Pipeline/Order.antt =====
-- What becomes of the logs: none is lost, repeated or, behind the parsers, reordered.
use mathlib.Core.List.{append_assoc}
use mathlib.Core.Path.{subst}
use pooml.Base.{
  ℕ, ◌≡◌, refl, sym, ap, ◌∙◌, Bool, true, false, not, ◌&&◌, List, [], ◌∷◌, ◌++◌, Option, none, some,
  arith, inl, inr, if_cases, Bool-cases,
}
use pooml.Common.{StandardLog}
use pooml.Ingestion.BatchWriter.{full_turn, close_turn, timer_turn, Writer, is_full}
use pooml.Ingestion.BatchWriter.Turns
use pooml.Ingestion.BatchWriter.Turns.{
  given, full_turn-given, receive_turn-given, timer_turn-given, close_turn-given, full_turn-IsValid,
  receive_turn-IsValid, timer_turn-IsValid, close_turn-IsValid,
}
use pooml.Ingestion.Pipeline.{
  IngestEvent, Handler, Worker, Pipeline, Stage, Action, serving, enter, resolve, work, pick,
  fanout, fanout_take, writer_turn, shutdown_step, run, start, stamped, writer_receive,
}
use pooml.Ingestion.Pipeline.Steps.{Keeps, run-Keeps}

abbrev pub in_hand : Option StandardLog → List StandardLog
in_hand none = []
in_hand (some l) = l ∷ []

-- What stands behind the writer, in the order in which it will get it.
abbrev pub queued : Pipeline → List StandardLog
queued p = p.batch_input_chan ++ (in_hand p.hand ++ p.parsed_chan)

-- All that the workers sent is with the writer or behind it, in the order in which it was sent.
pub record IsOrdered (p : Pipeline) : Type 0 where
  pub line : given p.writer ++ queued p ≡ p.emitted
  pub valid : Turns.IsValid p.writer

enter-IsOrdered : (ev : IngestEvent) (p : Pipeline) → IsOrdered p → IsOrdered (enter ev p)
unfolding enter
enter-IsOrdered ev p v = ground arith

resolve-IsOrdered : (i : ℕ) (h : Handler) (p : Pipeline) → IsOrdered p → IsOrdered (resolve i h p)
unfolding resolve
resolve-IsOrdered i h p v = ground arith

snoc_line :
    (a b c d : List StandardLog) (l : StandardLog)
    → a ++ (b ++ (c ++ (d ++ l ∷ []))) ≡ (a ++ (b ++ (c ++ d))) ++ l ∷ []
snoc_line a b c d l = simp append_assoc

work-IsOrdered :
    (i : ℕ) (w : Worker) (logs : List StandardLog) (p : Pipeline)
    → IsOrdered p
    → IsOrdered (work i w logs p)
unfolding work
work-IsOrdered i w [] p v = ground arith
work-IsOrdered i w (l ∷ rest) p v = ground (
  arith,
  snoc_line (given p.writer) p.batch_input_chan (in_hand p.hand) p.parsed_chan (stamped w.event l),
)

pick-IsOrdered :
    (parse : IngestEvent → List StandardLog) (events : List IngestEvent) (p : Pipeline)
    → IsOrdered p
    → IsOrdered (pick parse events p)
unfolding pick
pick-IsOrdered parse [] p v = ground arith
pick-IsOrdered parse (ev ∷ events) p v = ground arith

fanout-IsOrdered :
    (o : Option StandardLog) (p : Pipeline) → p.hand ≡ o → IsOrdered p → IsOrdered (fanout o p)
unfolding fanout
fanout-IsOrdered none p e v = fanout_take-IsOrdered p.parsed_chan refl
  where
    fanout_take-IsOrdered :
        (logs : List StandardLog) → p.parsed_chan ≡ logs → IsOrdered (fanout_take logs p)
    fanout_take-IsOrdered [] q = ground arith
    fanout_take-IsOrdered (l ∷ logs) q = ground arith
fanout-IsOrdered (some l) p e v =
    ground (arith, append_assoc p.batch_input_chan (l ∷ []) p.parsed_chan)

shutdown_step-IsOrdered : (s : Stage) (p : Pipeline) → IsOrdered p → IsOrdered (shutdown_step s p)
unfolding shutdown_step
shutdown_step-IsOrdered serving p v = ground arith
shutdown_step-IsOrdered _ p v = ground arith

-- A turn of the writer that is given nothing new.
writer-IsOrdered :
    (p : Pipeline) (w : Writer)
    → given w ≡ given p.writer
    → Turns.IsValid w
    → IsOrdered p
    → IsOrdered (record p { writer = w })
writer-IsOrdered p w e valid v = record {
  line = ap (λ logs. logs ++ queued p) e ∙ v.line;
  valid = valid;
}

writer_receive-IsOrdered :
    (ok : Bool) (logs : List StandardLog) (p : Pipeline)
    → p.batch_input_chan ≡ logs
    → p.writer.running ≡ true
    → is_full p.writer ≡ false
    → IsOrdered p
    → IsOrdered (writer_receive ok logs p)
unfolding writer_receive
writer_receive-IsOrdered ok [] p e runs room v =
    if_cases IsOrdered p.batch_open p (record p { writer = close_turn ok p.writer }) (λ _. v)
      (λ _.
        writer-IsOrdered p (close_turn ok p.writer)
          (close_turn-given p.writer (v.valid.kept runs) ok)
          (close_turn-IsValid ok p.writer v.valid) v)
writer_receive-IsOrdered ok (l ∷ logs) p e runs room v = record {
  line =
      ap (λ w. w ++ (logs ++ (in_hand p.hand ++ p.parsed_chan))) (receive_turn-given l p.writer)
      ∙ append_assoc (given p.writer) (l ∷ []) (logs ++ (in_hand p.hand ++ p.parsed_chan))
      ∙ ap (λ chan. given p.writer ++ (chan ++ (in_hand p.hand ++ p.parsed_chan))) (sym e)
      ∙ v.line;
  valid = receive_turn-IsValid l p.writer runs room v.valid;
}

full_or-IsOrdered :
    (fires ok : Bool) (p : Pipeline)
    → p.writer.running ≡ true
    → IsOrdered p
    → IsOrdered (writer_turn fires ok p)
unfolding writer_turn
full_or-IsOrdered fires ok p runs v =
    if_cases IsOrdered (not p.writer.running) p _ (λ _. v)
      λ _.
        if_cases IsOrdered (is_full p.writer) _ _
          (λ _.
            writer-IsOrdered p (full_turn ok p.writer)
              (full_turn-given p.writer (v.valid.kept runs) ok)
              (full_turn-IsValid ok p.writer v.valid) v)
          λ room.
            if_cases IsOrdered (fires && p.writer.armed && p.writer.timer) _ _
              (λ due.
                writer-IsOrdered p (timer_turn ok p.writer)
                  (timer_turn-given p.writer (v.valid.kept runs) ok)
                  (timer_turn-IsValid ok p.writer (ground arith) v.valid) v)
              (λ _. writer_receive-IsOrdered ok p.batch_input_chan p refl runs room v)

returned_turn :
    (fires ok : Bool) (p : Pipeline) → p.writer.running ≡ false → writer_turn fires ok p ≡ p
unfolding writer_turn
returned_turn fires ok p h = ground arith

writer_turn-IsOrdered :
    (fires ok : Bool) (p : Pipeline) → IsOrdered p → IsOrdered (writer_turn fires ok p)
writer_turn-IsOrdered fires ok p v = elim (Bool-cases p.writer.running) [
  | inl runs ↦ full_or-IsOrdered fires ok p runs v
  | inr returned ↦ subst IsOrdered (sym (returned_turn fires ok p returned)) v
]

Keeps-IsOrdered : (parse : IngestEvent → List StandardLog) → Keeps parse IsOrdered
Keeps-IsOrdered parse = record {
  enters = enter-IsOrdered;
  resolves = λ i h p _ v. resolve-IsOrdered i h p v;
  picks = λ events p _ _ v. pick-IsOrdered parse events p v;
  works = λ i w logs p _ _ v. work-IsOrdered i w logs p v;
  fans = λ o p e _ v. fanout-IsOrdered o p e v;
  writes = writer_turn-IsOrdered;
  shuts = λ p v. shutdown_step-IsOrdered p.stage p v;
}

start-IsOrdered : (workers : ℕ) → IsOrdered (start workers)
unfolding start
start-IsOrdered workers = ground arith

-- Under every schedule, whether INSERTs fail or not: the rows stored, then those dropped at the
-- end, then those the writer holds, then what waits for it, are together exactly the logs that the
-- workers have sent, in the order in which they were sent. The writer's buffer holds at most 1000
-- rows, while it holds one its timer is set, and it drops rows only when it returns.
pub run_order :
    (parse : IngestEvent → List StandardLog) (workers : ℕ) (actions : List Action)
    → IsOrdered (run parse actions (start workers))
run_order parse workers actions =
    run-Keeps (Keeps-IsOrdered parse) actions (start workers) (start-IsOrdered workers)
