-- ===== src/Services/Sessions.antt =====
-- services/sessions.go. The identifier of a new session, a random UUID, and each clock reading are
-- arguments; clock readings are milliseconds since 1970, far below 2^63.
use pooml.Base.{
  ℕ, ◌+◌, ◌≤◌, Bool, false, List, [], ◌∷◌, Option, none, some, ◌≡◌, refl, ◌∙◌, arith, ltb,
  if◌then◌else◌,
}
use pooml.Bytes.{Bytes, str_eq}
use pooml.Dict.{bytes_eq, lookup, put, delete, drop_where}
use pooml.Dict.Laws.{
  Distinct, lookup-put, lookup-delete, lookup-drop_where, put-Distinct, delete-Distinct,
  drop_where-Distinct,
}

abbrev pub session_expiry_duration_ms : ℕ
session_expiry_duration_ms = 604800000

-- `activeSessions`, from identifier to expiry
abbrev pub Sessions : Type 0
Sessions = List (Bytes × ℕ)

pub new_sessions_service : Sessions
new_sessions_service = []

-- the test of `sweep`
abbrev pub is_expired : ℕ → Bytes → ℕ → Bool
is_expired now id expiry = ltb expiry now

pub sweep : ℕ → Sessions → Sessions
sweep now sessions = drop_where (is_expired now) sessions

-- The new state, with the expiry that is returned beside the identifier.
pub create_session : Bytes → ℕ → Sessions → Sessions × ℕ
create_session uuid now sessions =
    let expires_at = now + session_expiry_duration_ms in (put uuid expires_at sessions, expires_at)

pub is_session_valid : ℕ → Bytes → Sessions → Bool
is_session_valid now id sessions = elim (lookup id sessions) [
  | none ↦ false
  | some expiry ↦ ltb now expiry
]

pub invalidate_session : Bytes → Sessions → Sessions
invalidate_session id sessions = delete id sessions

-- The requests of the handlers and of the sweeper, each with its clock reading.
pub data Call : Type 0 where
  create : Bytes → ℕ → Call
  invalidate : Bytes → Call
  sweeper : ℕ → Call

pub run_call : Call → Sessions → Sessions
run_call (create uuid now) sessions = (create_session uuid now sessions).0
run_call (invalidate id) sessions = invalidate_session id sessions
run_call (sweeper now) sessions = sweep now sessions

-- When a session ends, as the calls since its creation say; `none` before it is created and after
-- it is invalidated. The specification knows no sweep.
pub ends_at : Bytes → List Call → Option ℕ
ends_at id [] = none
ends_at id (create uuid now ∷ calls) =
    let before = ends_at id calls in
    if str_eq uuid id then some (now + session_expiry_duration_ms) else before
ends_at id (invalidate j ∷ calls) =
    let before = ends_at id calls in if str_eq j id then none else before
ends_at id (sweeper now ∷ calls) = ends_at id calls

-- The state after the calls, the latest of them first in the list.
pub after : List Call → Sessions
after [] = new_sessions_service
after (c ∷ calls) = run_call c (after calls)

-- No sweep in the list has a clock reading after `now`.
abbrev pub SweptBy : ℕ → List Call → Type 0
SweptBy now [] = Unit
SweptBy now (sweeper at ∷ calls) = (at ≤ now) × SweptBy now calls
SweptBy now (_ ∷ calls) = SweptBy now calls

after-Distinct : (calls : List Call) → Distinct (after calls)
unfolding after run_call create_session invalidate_session sweep new_sessions_service
after-Distinct [] = tt
after-Distinct (create uuid now ∷ calls) =
    put-Distinct uuid (now + session_expiry_duration_ms) (after calls) (after-Distinct calls)
after-Distinct (invalidate id ∷ calls) = delete-Distinct id (after calls) (after-Distinct calls)
after-Distinct (sweeper now ∷ calls) =
    drop_where-Distinct (is_expired now) (after calls) (after-Distinct calls)

pub before_end : ℕ → Option ℕ → Bool
before_end now none = false
before_end now (some expiry) = ltb now expiry

pub is_session_valid-sweep :
    (at now : ℕ) (id : Bytes) (sessions : Sessions)
    → Distinct sessions
    → at ≤ now
    → is_session_valid now id (sweep at sessions) ≡ is_session_valid now id sessions
unfolding is_session_valid sweep
is_session_valid-sweep at now id sessions d h =
    ground (arith, lookup-drop_where (is_expired at) id sessions d)

-- After any calls, a session is valid exactly if it was created, not invalidated since, and its
-- seven days are not over: the sweeps, none of them later than now, do not show.
pub is_session_valid-ends_at :
    (now : ℕ) (id : Bytes) (calls : List Call)
    → SweptBy now calls
    → is_session_valid now id (after calls) ≡ before_end now (ends_at id calls)
unfolding after run_call ends_at before_end is_session_valid create_session invalidate_session
    new_sessions_service lookup
is_session_valid-ends_at now id [] h = refl
is_session_valid-ends_at now id (create uuid at ∷ calls) h = ground (
  arith,
  lookup-put uuid id (at + session_expiry_duration_ms) (after calls),
  is_session_valid-ends_at now id calls h,
)
is_session_valid-ends_at now id (invalidate j ∷ calls) h =
    ground (arith, lookup-delete j id (after calls), is_session_valid-ends_at now id calls h)
is_session_valid-ends_at now id (sweeper at ∷ calls) h =
    is_session_valid-sweep at now id (after calls) (after-Distinct calls) h.0
    ∙ is_session_valid-ends_at now id calls h.1
