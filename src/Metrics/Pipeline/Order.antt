-- ===== src/Metrics/Pipeline/Order.antt =====
-- The rows of metrics/pipeline.go: none is lost on the way, and they are stored in order.
use mathlib.Core.Path.{subst}
use mathlib.Core.List.{append_assoc, append-nil}
use pooml.Base.{
  ℕ, suc, ◌≡◌, refl, sym, ap, ◌∙◌, Bool, true, false, List, [], ◌∷◌, ◌++◌, some, length, get_elem?,
  if_cases, arith,
}
use pooml.Metrics.Writer.{try_flush, try_flush_lem}
use pooml.Metrics.Pipeline.{
  Push, Pipeline, Stage, shut_down, Action, start, enter, resolve, flush_turn, finish, receive,
  keep, shutdown_step, run,
}
use pooml.Metrics.Pipeline.Steps.{Keeps, run-Keeps}
use pooml.Metrics.Pipeline.Budget.{IsBalanced, run_row_budget}
use pooml.Metrics.Pipeline.Closing.{IsClosing, run-IsClosing_rows}

module _ {Row : Type 0} where
  abbrev pub queued : List (List Row) → List Row
  queued [] = []
  queued (rows ∷ batches) = rows ++ queued batches

  -- All rows that the writer will have, or has dropped, in the order of their way.
  abbrev pub path : Pipeline Row → List Row
  path p = p.stored ++ (p.buf ++ (p.dropped ++ (p.taken ++ queued p.batch_ch)))

  -- What a writer that runs has dropped, and what one leaves at its end.
  abbrev pub AtEnd : Bool → Pipeline Row → Type 0
  AtEnd true p = p.dropped ≡ []
  AtEnd false p = (p.buf ≡ []) × (p.taken ≡ []) × (p.batch_ch ≡ []) × (p.chan_open ≡ false)

  pub record IsOrdered (p : Pipeline Row) : Type 0 where
    pub ordered : path p ≡ p.accepted
    pub ended : AtEnd p.running p

  queued-append :
      (batches : List (List Row)) (rows : List Row)
      → queued (batches ++ rows ∷ []) ≡ queued batches ++ rows
  queued-append [] rows = append-nil rows
  queued-append (b ∷ batches) rows =
      ap (λ q. b ++ q) (queued-append batches rows) ∙ sym (append_assoc b (queued batches) rows)

  -- A batch at the end of the channel is at the end of the path.
  append-last :
      (a b d t q rows : List Row)
      → a ++ (b ++ (d ++ (t ++ (q ++ rows)))) ≡ (a ++ (b ++ (d ++ (t ++ q)))) ++ rows
  append-last a b d t q rows = simp append_assoc

  enter-IsOrdered : (rows : List Row) (p : Pipeline Row) → IsOrdered p → IsOrdered (enter rows p)
  unfolding enter
  enter-IsOrdered rows p v = ground arith

  resolve-IsOrdered :
      (i : ℕ) (h : Push Row) (p : Pipeline Row)
      → get_elem? p.pushes i ≡ some h
      → IsOrdered p
      → IsOrdered (resolve i h p)
  unfolding resolve
  resolve-IsOrdered i h p at v =
      let sent : p.stored
            ++ (p.buf ++ (p.dropped ++ (p.taken ++ queued (p.batch_ch ++ h.rows ∷ []))))
          ≡ p.accepted ++ h.rows =
        ap (λ q. p.stored ++ (p.buf ++ (p.dropped ++ (p.taken ++ q))))
          (queued-append p.batch_ch h.rows)
        ∙ append-last p.stored p.buf p.dropped p.taken (queued p.batch_ch) h.rows
        ∙ ap (λ q. q ++ h.rows) v.ordered in
      ground arith

  keep-IsOrdered : (p : Pipeline Row) → p.running ≡ true → IsOrdered p → IsOrdered (keep p.taken p)
  unfolding keep
  keep-IsOrdered p on v =
      let empty : p.dropped ≡ [] = ground (arith, on) in
      let kept : p.stored ++ ((p.buf ++ p.taken) ++ (p.dropped ++ queued p.batch_ch)) ≡ p.accepted =
        ap (λ d. p.stored ++ ((p.buf ++ p.taken) ++ (d ++ queued p.batch_ch))) empty
        ∙ ap (λ q. p.stored ++ q) (append_assoc p.buf p.taken (queued p.batch_ch))
        ∙ ap (λ d. p.stored ++ (p.buf ++ (d ++ (p.taken ++ queued p.batch_ch)))) (sym empty)
        ∙ v.ordered in
      ground (arith, on)

  -- A turn of `tryFlush` leaves the rows stored and buffered together as they were.
  flushed_path :
      (succeeds : ℕ → Bool) (p : Pipeline Row) (rest : List Row)
      → let left = try_flush succeeds (suc (length p.buf)) 0 p.buf p.stored in
        left.1 ++ (left.0 ++ rest) ≡ p.stored ++ (p.buf ++ rest)
  flushed_path succeeds p rest =
      let left = try_flush succeeds (suc (length p.buf)) 0 p.buf p.stored in
      let same = try_flush_lem succeeds (suc (length p.buf)) 0 p.buf p.stored (omega arith) in
      sym (append_assoc left.1 left.0 rest)
      ∙ ap (λ q. q ++ rest) same.0
      ∙ append_assoc p.stored p.buf rest

  flush_turn-IsOrdered :
      (succeeds : ℕ → Bool) (p : Pipeline Row)
      → p.running ≡ true
      → IsOrdered p
      → IsOrdered (flush_turn succeeds p)
  unfolding flush_turn
  flush_turn-IsOrdered succeeds p on v =
      let rest = p.dropped ++ (p.taken ++ queued p.batch_ch) in
      let empty : p.dropped ≡ [] = ground (arith, on) in
      record {
        ordered = flushed_path succeeds p rest ∙ v.ordered;
        ended = subst (λ b. AtEnd b (flush_turn succeeds p)) (sym on) empty;
      }

  receive-IsOrdered :
      (succeeds : ℕ → Bool) (batches : List (List Row)) (p : Pipeline Row)
      → p.batch_ch ≡ batches
      → p.running ≡ true
      → p.taken ≡ []
      → IsOrdered p
      → IsOrdered (receive succeeds batches p)
  unfolding receive
  receive-IsOrdered succeeds (rows ∷ batches) p at on free v =
      let waiting : p.taken ++ queued p.batch_ch ≡ rows ++ queued batches =
        ap (λ t. t ++ queued p.batch_ch) free ∙ ap queued at in
      let empty : p.dropped ≡ [] = ground (arith, on) in
      let after = record p { batch_ch = batches; taken = rows } in
      record {
        ordered = ap (λ q. p.stored ++ (p.buf ++ (p.dropped ++ q))) (sym waiting) ∙ v.ordered;
        ended = subst (λ b. AtEnd b after) (sym on) empty;
      }
  receive-IsOrdered succeeds [] p at on free v =
      let left = try_flush succeeds (suc (length p.buf)) 0 p.buf p.stored in
      let empty : p.dropped ≡ [] = ground (arith, on) in
      let waiting : p.taken ++ queued p.batch_ch ≡ [] =
        ap (λ t. t ++ queued p.batch_ch) free ∙ ap queued at in
      let rest : p.dropped ++ (p.taken ++ queued p.batch_ch) ≡ [] =
        ap (λ d. d ++ (p.taken ++ queued p.batch_ch)) empty ∙ waiting in
      if_cases IsOrdered p.chan_open p (finish succeeds p) (λ _. v)
        (λ shut. record {
          ordered =
              ap (λ d. left.1 ++ ((d ++ left.0) ++ (p.taken ++ queued p.batch_ch))) empty
              ∙ ap (λ t. left.1 ++ (left.0 ++ t)) waiting
              ∙ flushed_path succeeds p []
              ∙ ap (λ t. p.stored ++ (p.buf ++ t)) (sym rest)
              ∙ v.ordered;
          ended = (refl, free, at, shut);
        })

  shutdown_step-IsOrdered :
      (t : Stage) (p : Pipeline Row) → IsOrdered p → IsOrdered (shutdown_step t p)
  unfolding shutdown_step
  shutdown_step-IsOrdered t p v = ground arith

  Keeps-IsOrdered : Keeps IsOrdered
  Keeps-IsOrdered = record {
    enters = enter-IsOrdered;
    resolves = resolve-IsOrdered;
    keeps = keep-IsOrdered;
    flushes = λ succeeds p on _ v. flush_turn-IsOrdered succeeds p on v;
    receives = λ succeeds p on free v. receive-IsOrdered succeeds p.batch_ch p refl on free v;
    shuts = λ p v. shutdown_step-IsOrdered p.stage p v;
  }

  start-IsOrdered : IsOrdered start
  unfolding start
  start-IsOrdered = record { ordered = refl; ended = refl }

  run-IsOrdered : (actions : List (Action Row)) → IsOrdered (run actions start)
  run-IsOrdered actions = run-Keeps Keeps-IsOrdered actions start start-IsOrdered

  stored_at_end :
      (p : Pipeline Row)
      → p.stage ≡ shut_down
      → IsOrdered p
      → IsBalanced p
      → IsClosing p
      → (p.stored ++ p.dropped ≡ p.accepted) × (p.buffered_rows ≡ 0) × (p.panicked ≡ false)
  stored_at_end p done v b c =
      let off : p.running ≡ false = ground (arith, done) in
      let buf : p.buf ≡ [] = ground (arith, off) in
      let taken : p.taken ≡ [] = ground (arith, off) in
      let batches : p.batch_ch ≡ [] = ground (arith, off) in
      let pushes : p.pushes ≡ [] = ground (arith, done) in
      let waiting : p.taken ++ queued p.batch_ch ≡ [] =
        ap (λ t. t ++ queued p.batch_ch) taken ∙ ap queued batches in
      let whole : path p ≡ p.stored ++ p.dropped =
        ap (λ l. p.stored ++ (l ++ (p.dropped ++ (p.taken ++ queued p.batch_ch)))) buf
        ∙ ap (λ t. p.stored ++ (p.dropped ++ t)) waiting
        ∙ ap (λ d. p.stored ++ d) (append-nil p.dropped) in
      let none_left : p.buffered_rows ≡ 0 = ground (arith, b.counted, taken, batches, pushes) in
      (sym whole ∙ v.ordered, none_left, c.quiet)

  -- When Shutdown has returned, under every schedule before it: the rows stored, followed by those
  -- that the last flush could not store, are exactly the accepted ones in the order of their sends,
  -- the row counter is zero, and nothing was sent on the closed channel.
  pub run_stored :
      (actions : List (Action Row))
      → (run actions start).stage ≡ shut_down
      → ((run actions start).stored ++ (run actions start).dropped ≡ (run actions start).accepted)
        × ((run actions start).buffered_rows ≡ 0)
        × ((run actions start).panicked ≡ false)
  run_stored actions done =
      stored_at_end (run actions start) done (run-IsOrdered actions) (run_row_budget actions)
        (run-IsClosing_rows actions)
