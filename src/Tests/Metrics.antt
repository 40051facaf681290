-- ===== src/Tests/Metrics.antt =====
-- Concrete runs of metrics/pipeline.go.
use pooml.Base.{
  ℕ, ◌==◌, ◌≡◌, refl, Bool, false, List, [], ◌∷◌, true, ◌++◌, length, replicate, length-replicate,
  arith,
}
use pooml.Metrics.Pipeline.{Action, try_push, push, writer, shutdown, start, run}
use pooml.Metrics.Pipeline.Budget.{IsBalanced, run_row_budget}
use pooml.Metrics.Pipeline.Order.{run_stored}
use pooml.Metrics.Writer.{try_flush, IsFlush, try_flush_lem}

-- 600 rows of which the second INSERT fails
abbrev first_only : ℕ → Bool
first_only j = j == 0

abbrev buffered : List ℕ
buffered = replicate 600 7

hundred_left : length (try_flush first_only 601 0 buffered []).0 ≡ 100
unfolding try_flush
hundred_left = refl

try_flush_example :
    let after = try_flush first_only 601 0 buffered [] in
    (after.1 ++ after.0 ≡ [] ++ buffered) × IsFlush first_only 0 buffered [] after
try_flush_example =
    try_flush_lem first_only 601 0 buffered [] (omega (arith, length-replicate {A = ℕ} 600 7))

-- A schedule of two pushes, the second of which takes a turn later than the writer's first receive,
-- with an INSERT that fails at the end.
abbrev schedule : List (Action ℕ)
schedule =
    try_push (1 ∷ 2 ∷ [])
    ∷ try_push (3 ∷ [])
    ∷ push 1
    ∷ writer false first_only
    ∷ push 0
    ∷ writer false first_only
    ∷ writer true first_only
    ∷ shutdown
    ∷ shutdown
    ∷ writer false first_only
    ∷ writer false first_only
    ∷ writer false (λ j. false)
    ∷ shutdown
    ∷ []

ends_dropped : (run schedule start).dropped ≡ 3 ∷ []
unfolding run start try_flush
ends_dropped = refl

run_row_budget_example : IsBalanced (run schedule start)
run_row_budget_example = run_row_budget schedule

run_stored_example :
    ((run schedule start).stored ++ (run schedule start).dropped ≡ (run schedule start).accepted)
    × ((run schedule start).buffered_rows ≡ 0)
    × ((run schedule start).panicked ≡ false)
unfolding run start try_flush
run_stored_example = run_stored schedule refl
