-- ===== src/Services/Alerts/Inflight.antt =====
-- The goroutines that evaluate alerts: one at most for an alert, and what its row is worth.
use mathlib.Core.Path.{subst}
use pooml.Base.{
  ℕ, zero, suc, ◌+◌, ◌≤◌, ◌≡◌, refl, sym, ◌∙◌, ◌⊎◌, inl, inr, true, false, List, [], ◌∷◌, Option,
  some, ◌==◌, if◌then◌else◌, arith, if_cases,
}
use pooml.Services.Alerts.{Alert, Store, World, get}
use pooml.Services.Alerts.Cooldown.{Kept, own-Kept, other-Kept, get-evaluate_other}
use pooml.Services.Alerts.Tick.{Turn, evaluate_turn, is_busy, leave_turn}

-- A goroutine has evaluated its row, or the row is still the stored one.
abbrev pub Stands : Option Alert → Turn → Type 0
Stands o g = (g.evaluated ≡ true) ⊎ (o ≡ some g.row)

-- The goroutine of an alert, of which there is one at most, stands.
abbrev pub Fits : ℕ → Option Alert → List Turn → Type 0
Fits id o [] = Unit
Fits id o (g ∷ turns) =
    (((g.row.id == id) ≡ false) × Fits id o turns)
    ⊎ (((g.row.id == id) ≡ true) × Stands o g × (is_busy id turns ≡ false))

absent-Fits :
    (id : ℕ) (o : Option Alert) (turns : List Turn) → is_busy id turns ≡ false → Fits id o turns
unfolding is_busy
absent-Fits id o [] h = tt
absent-Fits id o (g ∷ turns) h = inl (ground (arith, h), absent-Fits id o turns (ground (arith, h)))

leave_turn-is_busy :
    (id i : ℕ) (turns : List Turn)
    → is_busy id turns ≡ false
    → is_busy id (leave_turn i turns) ≡ false
unfolding is_busy leave_turn
leave_turn-is_busy id i [] h = refl
leave_turn-is_busy id zero (g ∷ turns) h = ground (arith, h)
leave_turn-is_busy id (suc i) (g ∷ turns) h = ground (arith, h, leave_turn-is_busy id i turns)

pub leave_turn-Fits :
    (id i : ℕ) (o : Option Alert) (turns : List Turn)
    → Fits id o turns
    → Fits id o (leave_turn i turns)
unfolding leave_turn
leave_turn-Fits id i o [] f = tt
leave_turn-Fits id zero o (g ∷ turns) (inl (ne, f)) = f
leave_turn-Fits id zero o (g ∷ turns) (inr (own, stands, absent)) = absent-Fits id o turns absent
leave_turn-Fits id (suc i) o (g ∷ turns) (inl (ne, f)) = inl (ne, leave_turn-Fits id i o turns f)
leave_turn-Fits id (suc i) o (g ∷ turns) (inr (own, stands, absent)) =
    inr (own, stands, leave_turn-is_busy id i turns absent)

evaluate_turn-is_busy :
    (id i : ℕ) (w : World) (turns : List Turn) (s : Store)
    → is_busy id (evaluate_turn i w turns s).0 ≡ is_busy id turns
unfolding is_busy evaluate_turn
evaluate_turn-is_busy id i w [] s = refl
evaluate_turn-is_busy id zero w (g ∷ turns) s =
    if_cases (λ (r : List Turn × Store). is_busy id r.0 ≡ is_busy id (g ∷ turns)) g.evaluated _ _
      (λ _. refl) (λ _. refl)
evaluate_turn-is_busy id (suc i) w (g ∷ turns) s =
    ground (arith, evaluate_turn-is_busy id i w turns s)

module _ (id c : ℕ) (w : World) (updates : w.updates ≡ true) where
  get-evaluate_turn :
      (i : ℕ) (turns : List Turn) (s : Store)
      → is_busy id turns ≡ false
      → get id (evaluate_turn i w turns s).1.alerts ≡ get id s.alerts
  unfolding is_busy evaluate_turn
  get-evaluate_turn i [] s h = refl
  get-evaluate_turn zero (g ∷ turns) s h =
      if_cases (λ (r : List Turn × Store). get id r.1.alerts ≡ get id s.alerts) g.evaluated _ _
        (λ _. refl) (λ _. get-evaluate_other id c w updates g.row s (ground (arith, h)))
  get-evaluate_turn (suc i) (g ∷ turns) s h = get-evaluate_turn i turns s (ground (arith, h))

  abbrev pub Holds : List Turn × Store → Type 0
  Holds r = Kept id c r.1 × Fits id (get id r.1.alerts) r.0

  pub evaluate_turn-Holds :
      (i : ℕ) (turns : List Turn) (s : Store) → Holds (turns, s) → Holds (evaluate_turn i w turns s)
  unfolding evaluate_turn
  evaluate_turn-Holds i [] s (k, f) = (k, tt)
  evaluate_turn-Holds zero (g ∷ turns) s (k, inl (ne, f)) =
      if_cases Holds g.evaluated _ _ (λ _. (k, inl (ne, f)))
        (λ _. (
          other-Kept id c w updates g.row s ne k,
          inl (
            ne,
            subst (λ o. Fits id o turns) (sym (get-evaluate_other id c w updates g.row s ne)) f,
          ),
        ))
  evaluate_turn-Holds zero (g ∷ turns) s (k, inr (own, inl over, absent)) =
      if_cases Holds g.evaluated _ _ (λ _. (k, inr (own, inl over, absent)))
        (λ fresh. absurd (ground (arith, over, fresh)))
  evaluate_turn-Holds zero (g ∷ turns) s (k, inr (own, inr found, absent)) =
      if_cases Holds g.evaluated _ _ (λ _. (k, inr (own, inr found, absent)))
        (λ _. (
          own-Kept id c w updates g.row s (ground (arith, own)) found k,
          inr (own, inl refl, absent),
        ))
  evaluate_turn-Holds (suc i) (g ∷ turns) s (k, inl (ne, f)) =
      let rest = evaluate_turn-Holds i turns s (k, f) in (rest.0, inl (ne, rest.1))
  evaluate_turn-Holds (suc i) (g ∷ turns) s (k, inr (own, stands, absent)) =
      let rest = evaluate_turn-Holds i turns s (k, absent-Fits id _ turns absent) in
      (
        rest.0,
        inr (
          own,
          elim stands [
            | inl over ↦ inl over
            | inr found ↦ inr (get-evaluate_turn i turns s absent ∙ found)
          ],
          evaluate_turn-is_busy id i w turns s ∙ absent,
        ),
      )

-- How many goroutines of an alert are in flight
unfoldable pub in_flight : ℕ → List Turn → ℕ
in_flight id [] = 0
in_flight id (g ∷ turns) =
    let rest = in_flight id turns in if g.row.id == id then rest + 1 else rest

absent-in_flight : (id : ℕ) (turns : List Turn) → is_busy id turns ≡ false → in_flight id turns ≡ 0
unfolding is_busy in_flight
absent-in_flight id [] h = refl
absent-in_flight id (g ∷ turns) h = ground (arith, h, absent-in_flight id turns)

pub Fits-in_flight :
    (id : ℕ) (o : Option Alert) (turns : List Turn) → Fits id o turns → in_flight id turns ≤ 1
unfolding in_flight
Fits-in_flight id o [] f = omega arith
Fits-in_flight id o (g ∷ turns) (inl (ne, f)) = ground (arith, ne, Fits-in_flight id o turns f)
Fits-in_flight id o (g ∷ turns) (inr (own, stands, absent)) =
    ground (arith, own, absent-in_flight id turns absent)
