-- ===== src/Ingestion/Broadcaster/Interleaved.antt =====
-- What a subscriber of ingestion/broadcaster.go gets while others come, read and go.
use mathlib.Core.List.{append-nil}
use pooml.Base.{ℕ, ◌≡◌, sym, ap, ◌∙◌, false, List, [], ◌∷◌, ◌++◌, some, take, arith, ◌==◌}
use pooml.Common.{StandardLog}
use pooml.Ingestion.Broadcaster.{Chan, Broadcaster, subscriber_buf_size, offer}
use pooml.Ingestion.Broadcaster.Delivery.{
  Call, log, join, leave, read, run_call, run_call-IsValid, IsValid, buffer, take_all, offered,
  buffer-broadcast, lookup-AllBelow, subscriber_isolation,
}

-- Calls one after another
unfoldable pub run_calls : List Call → Broadcaster → Broadcaster
unfolding run_call
run_calls [] b = b
run_calls (c ∷ calls) b = run_calls calls (run_call c b)

-- The logs that are broadcast, in their order
abbrev pub logs : List Call → List StandardLog
logs [] = []
logs (log l ∷ calls) = l ∷ logs calls
logs (join ∷ calls) = logs calls
logs (leave j ∷ calls) = logs calls
logs (read j ∷ calls) = logs calls

-- No call is the subscriber's own.
abbrev pub AllOthers : ℕ → List Call → Type 0
AllOthers id [] = Unit
AllOthers id (log l ∷ calls) = AllOthers id calls
AllOthers id (join ∷ calls) = AllOthers id calls
AllOthers id (leave j ∷ calls) = ((j == id) ≡ false) × AllOthers id calls
AllOthers id (read j ∷ calls) = ((j == id) ≡ false) × AllOthers id calls

-- A subscriber that neither reads nor leaves gets, after what its buffer held, a prefix of what is
-- broadcast: the first logs in their order, up to 100 in the buffer, and later ones are dropped. Other
-- subscribers that come, read and leave between the logs change nothing of it.
pub buffer-run_calls :
    (id : ℕ) (calls : List Call) (b : Broadcaster) (ch : Chan)
    → IsValid b
    → buffer id b ≡ some ch
    → AllOthers id calls
    → buffer id (run_calls calls b) ≡ some (take subscriber_buf_size (ch ++ logs calls))
unfolding run_calls
buffer-run_calls id [] b ch v h o =
    let bounds = lookup-AllBelow b.next_id id b.subs ch v.below h in
    h ∙ ap some (rw append-nil (sym (take_all subscriber_buf_size ch bounds.1)))
buffer-run_calls id (log l ∷ calls) b ch v h o =
    let bounds = lookup-AllBelow b.next_id id b.subs ch v.below h in
    buffer-run_calls id calls (run_call (log l) b) (offer l ch) (run_call-IsValid (log l) b v)
      (unfold run_call in (buffer-broadcast id l b ∙ rw h)) o
    ∙ ap some (offered l (logs calls) ch bounds.1)
buffer-run_calls id (join ∷ calls) b ch v h o =
    let bounds = lookup-AllBelow b.next_id id b.subs ch v.below h in
    buffer-run_calls id calls (run_call join b) ch (run_call-IsValid join b v)
      ((subscriber_isolation id join b v).0 (ground (arith, bounds.0)) ∙ h) o
buffer-run_calls id (leave j ∷ calls) b ch v h o =
    buffer-run_calls id calls (run_call (leave j) b) ch (run_call-IsValid (leave j) b v)
      ((subscriber_isolation id (leave j) b v).0 o.0 ∙ h) o.1
buffer-run_calls id (read j ∷ calls) b ch v h o =
    buffer-run_calls id calls (run_call (read j) b) ch (run_call-IsValid (read j) b v)
      ((subscriber_isolation id (read j) b v).0 o.0 ∙ h) o.1
