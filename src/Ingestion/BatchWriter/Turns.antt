-- ===== src/Ingestion/BatchWriter/Turns.antt =====
-- What the writer's turns keep.
use mathlib.Core.List.{append-nil, append_assoc}
use pooml.Base.{
  ◌≤◌, ◌≡◌, Bool, true, false, List, [], ◌∷◌, ◌++◌, leb, length, length-append, arith, Bool-cases,
  inl, inr, ◌∙◌, sym,
}
use pooml.Common.{StandardLog}
use pooml.Ingestion.BatchWriter.{
  Writer, batch_size, is_full, try_flush, full_turn, receive_turn, close_turn, timer_turn,
}

-- The buffer is bounded, while it holds a row the timer will fire, and nothing is dropped before
-- the writer returns.
pub record IsValid (w : Writer) : Type 0 where
  pub bounded : length w.buf ≤ batch_size
  pub armed_timer : w.armed ≡ w.timer
  pub waiting : w.armed ≡ false → w.buf ≡ []
  pub kept : w.running ≡ true → w.dropped ≡ []
  pub returned : w.running ≡ false → w.buf ≡ []

-- All that the writer was given, in order.
abbrev pub given : Writer → List StandardLog
given w = w.stored ++ w.dropped ++ w.buf

pub full_turn-IsValid : (ok : Bool) (w : Writer) → IsValid w → IsValid (full_turn ok w)
unfolding full_turn
full_turn-IsValid ok w v = ground arith

pub receive_turn-IsValid :
    (l : StandardLog) (w : Writer)
    → w.running ≡ true
    → is_full w ≡ false
    → IsValid w
    → IsValid (receive_turn l w)
unfolding receive_turn is_full
receive_turn-IsValid l w r h v = ground (arith, length-append w.buf (l ∷ []))

pub close_turn-IsValid : (ok : Bool) (w : Writer) → IsValid w → IsValid (close_turn ok w)
unfolding close_turn
close_turn-IsValid ok w v = ground arith

pub timer_turn-IsValid :
    (ok : Bool) (w : Writer) → w.armed ≡ true → IsValid w → IsValid (timer_turn ok w)
unfolding timer_turn
timer_turn-IsValid ok w h v = ground arith

try_flush_rows :
    (w : Writer) (ok : Bool)
    → w.dropped ≡ []
    → leb (length w.buf) 0 ≡ false
    → given (try_flush ok w) ≡ given w
unfolding try_flush
try_flush_rows w true d rows = rw (rows, try_flush) (simp (d, append-nil))
try_flush_rows w false d rows = rw (rows, try_flush)

try_flush-given : (w : Writer) (ok : Bool) → w.dropped ≡ [] → given (try_flush ok w) ≡ given w
unfolding try_flush
try_flush-given w ok d = elim (Bool-cases (leb (length w.buf) 0)) [
  | inl idle ↦ rw (idle, try_flush)
  | inr rows ↦ try_flush_rows w ok d rows
]

-- While the writer runs, a turn neither loses a row, nor repeats or reorders one.
module _ (w : Writer) (d : w.dropped ≡ []) where
  pub full_turn-given : (ok : Bool) → given (full_turn ok w) ≡ given w
  unfolding full_turn
  full_turn-given ok = try_flush-given w ok d

  pub close_turn-given : (ok : Bool) → given (close_turn ok w) ≡ given w
  unfolding close_turn
  close_turn-given ok =
      let w' = try_flush ok w in
      append-nil (w'.stored ++ (w'.dropped ++ w'.buf))
      ∙ sym (append_assoc w'.stored w'.dropped w'.buf)
      ∙ try_flush-given w ok d

  pub timer_turn-given : (ok : Bool) → given (timer_turn ok w) ≡ given w
  unfolding timer_turn
  timer_turn-given ok =
      let w' = try_flush ok (record w { timer = false }) in
      elim (Bool-cases (leb 1 (length w'.buf))) [
        | inl still ↦ rw (still, timer_turn) (try_flush-given (record w { timer = false }) ok d)
        | inr empty ↦ rw (empty, timer_turn) (try_flush-given (record w { timer = false }) ok d)
      ]

pub receive_turn-given :
    (l : StandardLog) (w : Writer) → given (receive_turn l w) ≡ given w ++ l ∷ []
unfolding receive_turn
receive_turn-given l w = elim (Bool-cases w.armed) [
  | inl armed ↦ rw (armed, receive_turn) (sym (append_assoc (w.stored ++ w.dropped) w.buf (l ∷ [])))
  | inr unarmed ↦
      rw (unarmed, receive_turn) (sym (append_assoc (w.stored ++ w.dropped) w.buf (l ∷ [])))
]
