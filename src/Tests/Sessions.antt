-- ===== src/Tests/Sessions.antt =====
-- A session that outlives a sweep.
use pooml.Base.{◌≡◌, List, [], ◌∷◌, arith}
use pooml.Bytes.{codes}
use pooml.Services.Sessions.{
  Call, create, invalidate, sweeper, after, ends_at, before_end, is_session_valid,
  is_session_valid-ends_at,
}

abbrev day : List Call
day =
    sweeper 700000000
    ∷ invalidate (codes "b")
    ∷ create (codes "b") 200000000
    ∷ create (codes "a") 100000000
    ∷ []

is_session_valid-ends_at_example :
    is_session_valid 700000001 (codes "a") (after day)
    ≡ before_end 700000001 (ends_at (codes "a") day)
is_session_valid-ends_at_example = is_session_valid-ends_at 700000001 (codes "a") day (omega arith)
