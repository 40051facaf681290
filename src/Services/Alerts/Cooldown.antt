-- ===== src/Services/Alerts/Cooldown.antt =====
-- How far the notifications of an alert are apart.
use mathlib.Core.Path.{subst}
use pooml.Base.{
  ap, if_cases, ◌∙◌, sym, ℕ, ◌+◌, ◌≤◌, ◌≡◌, refl, Bool, true, false, List, [], ◌∷◌, Option, none,
  some, leb, ◌==◌, if◌then◌else◌, map, arith,
}
use pooml.Bytes.{Bytes}
use pooml.Services.Alerts.{
  Alert, Store, World, Outcome, failed, rows, evaluated, update_row, update_eval, record_firing,
  cooldown_passed, notify, evaluate_outcome, evaluate, get,
}

-- The clocks of an alert's deliveries, the latest first.
unfoldable pub deliveries : ℕ → List (ℕ × ℕ) → List ℕ
deliveries id [] = []
deliveries id ((k, t) ∷ ds) = let rest = deliveries id ds in if k == id then t ∷ rest else rest

-- Every clock is a cooldown behind the one before it.
abbrev pub Spaced : ℕ → List ℕ → Type 0
Spaced c [] = Unit
Spaced c (t ∷ []) = Unit
Spaced c (t ∷ t' ∷ ts) = (t' + c ≤ t) × Spaced c (t' ∷ ts)

-- The last delivery stands in the row.
abbrev pub IsNoted : List ℕ → Option ℕ → Type 0
IsNoted [] fired_at = Unit
IsNoted (t ∷ ts) fired_at = fired_at ≡ some t

pub record Kept (id c : ℕ) (s : Store) : Type 0 where
  pub row : Alert
  pub found : get id s.alerts ≡ some row
  pub same_cooldown : row.cooldown_ms ≡ c
  pub noted : IsNoted (deliveries id s.delivered) row.last_fired_at
  pub spaced : Spaced c (deliveries id s.delivered)

get-id : (id : ℕ) (alerts : List Alert) (a : Alert) → get id alerts ≡ some a → a.id ≡ id
unfolding get
get-id id [] a h = absurd (ground (arith, h))
get-id id (b ∷ alerts) a h = ground (arith, get-id id alerts a)

get-map_same :
    (id : ℕ) (f : Alert → Alert) (alerts : List Alert) (a : Alert)
    → ((b : Alert) → (f b).id ≡ b.id)
    → get id alerts ≡ some a
    → get id (map (update_row id f) alerts) ≡ some (f a)
unfolding get
get-map_same id f [] a p h = absurd (ground (arith, h))
get-map_same id f (b ∷ alerts) a p h = ground (arith, p b, get-map_same id f alerts a p)

get-map_other :
    (id k : ℕ) (f : Alert → Alert) (alerts : List Alert)
    → ((b : Alert) → (f b).id ≡ b.id)
    → (k == id) ≡ false
    → get id (map (update_row k f) alerts) ≡ get id alerts
unfolding get
get-map_other id k f [] p h = refl
get-map_other id k f (b ∷ alerts) p h = ground (arith, p b, get-map_other id k f alerts p h)

-- A delivery that waited for the cooldown keeps the spacing.
Spaced-cons :
    (c t : ℕ) (ts : List ℕ) (fired_at : Option ℕ)
    → IsNoted ts fired_at
    → (elim fired_at as (λ _. Bool) [ none ↦ true | some t' ↦ leb (t' + c) t ]) ≡ true
    → Spaced c ts
    → Spaced c (t ∷ ts)
Spaced-cons c t [] fired_at n e v = tt
Spaced-cons c t (t' ∷ ts) fired_at n e v = (ground (arith, n, e), v)

alerts-record_firing :
    (k : ℕ) (sent : Bool) (w : World) (s : Store) → (record_firing k sent w s).alerts ≡ s.alerts
unfolding record_firing
alerts-record_firing k sent w s = ground arith

delivered-record_firing :
    (k : ℕ) (sent : Bool) (w : World) (s : Store)
    → (record_firing k sent w s).delivered ≡ s.delivered
unfolding record_firing
delivered-record_firing k sent w s = ground arith

first-delivery :
    (id t : ℕ) (ds : List (ℕ × ℕ)) → deliveries id ((id, t) ∷ ds) ≡ t ∷ deliveries id ds
unfolding deliveries
first-delivery id t ds = ground arith

-- An evaluation notifies, the cooldown being over, or only updates the row.
evaluate_cases {κ} :
    (P : Store → Type κ) (a : Alert) (w : World) (s : Store)
    → ((firing : Bool) (eval_err : Option Bytes) → P (update_eval a.id firing none eval_err w s))
    → (cooldown_passed w.now a ≡ true → P (notify a w.notify_err w s))
    → P (evaluate a w s)
unfolding evaluate evaluate_outcome
evaluate_cases P a w s plain notified = go w.outcome
  where
    go : (o : Outcome) → P (evaluate_outcome a o w s)
    go (failed msg) = plain a.currently_firing (some msg)
    go (rows n) =
        if_cases P (leb n 0) _ _ (λ _. plain false none)
          (λ _. if_cases P (cooldown_passed w.now a) _ _ notified (λ _. plain true none))

module _ (id c : ℕ) (w : World) (updates : w.updates ≡ true) where
  -- An update of the alert without a delivery
  update-Kept :
      (firing : Bool) (eval_err : Option Bytes) (s : Store)
      → Kept id c s
      → Kept id c (update_eval id firing none eval_err w s)
  unfolding update_eval
  update-Kept firing eval_err s k =
      rw (updates, update_eval)
        (record {
          row = evaluated firing none eval_err w k.row;
          found =
              get-map_same id (evaluated firing none eval_err w) s.alerts k.row (λ b. refl) k.found;
          same_cooldown = k.same_cooldown;
          noted = k.noted;
          spaced = k.spaced;
        })

  -- ... of another alert
  update-Kept_other :
      (k : ℕ) (firing : Bool) (fired_at : Option ℕ) (eval_err : Option Bytes) (s : Store)
      → (k == id) ≡ false
      → Kept id c s
      → Kept id c (update_eval k firing fired_at eval_err w s)
  unfolding update_eval
  update-Kept_other k firing fired_at eval_err s ne x =
      rw (updates, update_eval)
        (record {
          row = x.row;
          found =
              get-map_other id k (evaluated firing fired_at eval_err w) s.alerts (λ b. refl) ne
              ∙ x.found;
          same_cooldown = x.same_cooldown;
          noted = x.noted;
          spaced = x.spaced;
        })

  audit-Kept :
      (k : ℕ) (sent : Bool) (s : Store) → Kept id c s → Kept id c (record_firing k sent w s)
  unfolding record_firing
  audit-Kept k sent s x =
      if_cases (Kept id c) w.audits _ s
        (λ _. record {
          row = x.row;
          found = x.found;
          same_cooldown = x.same_cooldown;
          noted = x.noted;
          spaced = x.spaced;
        })
        (λ _. x)

  -- The update behind a delivery
  fired-Kept :
      (s : Store) (row : Alert) (ts : List ℕ)
      → get id s.alerts ≡ some row
      → row.cooldown_ms ≡ c
      → deliveries id s.delivered ≡ w.now ∷ ts
      → Spaced c (w.now ∷ ts)
      → Kept id c (update_eval id true (some w.now) none w s)
  unfolding update_eval
  fired-Kept s row ts found same e v =
      rw (updates, update_eval)
        (record {
          row = evaluated true (some w.now) none w row;
          found =
              get-map_same id (evaluated true (some w.now) none w) s.alerts row (λ b. refl) found;
          same_cooldown = same;
          noted = subst (λ ds. IsNoted ds (some w.now)) (sym e) refl;
          spaced = subst (Spaced c) (sym e) v;
        })

  deliver-Kept :
      (a : Alert) (s : Store)
      → a.id ≡ id
      → get id s.alerts ≡ some a
      → a.cooldown_ms ≡ c
      → IsNoted (deliveries id s.delivered) a.last_fired_at
      → Spaced c (deliveries id s.delivered)
      → cooldown_passed w.now a ≡ true
      → Kept id c (notify a none w s)
  unfolding notify cooldown_passed
  deliver-Kept a s e found same noted spaced passed = rw e (
      fired-Kept (record_firing id true w (record s { delivered = (id, w.now) ∷ s.delivered })) a
        (deliveries id s.delivered) (ap (get id) (alerts-record_firing id true w _) ∙ found) same
        (ap (deliveries id) (delivered-record_firing id true w _)
          ∙ first-delivery id w.now s.delivered)
        (Spaced-cons c w.now (deliveries id s.delivered) a.last_fired_at noted
          (ground (arith, same, passed)) spaced))

  notify-Kept :
      (a : Alert) (s : Store) (notify_err : Option Bytes)
      → a.id ≡ id
      → get id s.alerts ≡ some a
      → Kept id c s
      → cooldown_passed w.now a ≡ true
      → Kept id c (notify a notify_err w s)
  unfolding notify
  notify-Kept a s (some err) e found x passed =
      rw e (update-Kept true _ (record_firing id false w s) (audit-Kept id false s x))
  notify-Kept a s none e found x passed =
      let same_row : x.row ≡ a = ground (arith, found, x.found) in
      deliver-Kept a s e found (subst (λ r. r.cooldown_ms ≡ c) same_row x.same_cooldown)
        (subst (λ r. IsNoted (deliveries id s.delivered) r.last_fired_at) same_row x.noted) x.spaced
        passed

  -- An evaluation of the alert's own row
  pub own-Kept :
      (a : Alert) (s : Store)
      → a.id ≡ id
      → get id s.alerts ≡ some a
      → Kept id c s
      → Kept id c (evaluate a w s)
  own-Kept a s e found x =
      evaluate_cases (Kept id c) a w s (λ firing err. rw e (update-Kept firing err s x))
        (notify-Kept a s w.notify_err e found x)

  other_notify-Kept :
      (a : Alert) (s : Store) (notify_err : Option Bytes)
      → (a.id == id) ≡ false
      → Kept id c s
      → Kept id c (notify a notify_err w s)
  unfolding notify
  other_notify-Kept a s (some err) ne x =
      update-Kept_other a.id true none _ (record_firing a.id false w s) ne
        (audit-Kept a.id false s x)
  other_notify-Kept a s none ne x =
      let before = record s { delivered = (a.id, w.now) ∷ s.delivered } in
      let skipped : deliveries id before.delivered ≡ deliveries id s.delivered =
        unfold deliveries in ground (arith, ne) in
      let y : Kept id c before = record {
        row = x.row;
        found = x.found;
        same_cooldown = x.same_cooldown;
        noted = subst (λ ds. IsNoted ds x.row.last_fired_at) (sym skipped) x.noted;
        spaced = subst (Spaced c) (sym skipped) x.spaced;
      } in
      update-Kept_other a.id true (some w.now) none (record_firing a.id true w before) ne
        (audit-Kept a.id true before y)

  -- ... of another alert's row
  pub other-Kept :
      (a : Alert) (s : Store) → (a.id == id) ≡ false → Kept id c s → Kept id c (evaluate a w s)
  other-Kept a s ne x =
      evaluate_cases (Kept id c) a w s (λ firing err. update-Kept_other a.id firing none err s ne x)
        (λ passed. other_notify-Kept a s w.notify_err ne x)

  get-update_other :
      (k : ℕ) (firing : Bool) (fired_at : Option ℕ) (eval_err : Option Bytes) (s : Store)
      → (k == id) ≡ false
      → get id (update_eval k firing fired_at eval_err w s).alerts ≡ get id s.alerts
  unfolding update_eval
  get-update_other k firing fired_at eval_err s ne =
      rw (updates, update_eval)
        (get-map_other id k (evaluated firing fired_at eval_err w) s.alerts (λ b. refl) ne)

  get-notify_other :
      (a : Alert) (s : Store) (notify_err : Option Bytes)
      → (a.id == id) ≡ false
      → get id (notify a notify_err w s).alerts ≡ get id s.alerts
  unfolding notify
  get-notify_other a s (some err) ne =
      get-update_other a.id true none _ (record_firing a.id false w s) ne
      ∙ ap (get id) (alerts-record_firing a.id false w s)
  get-notify_other a s none ne =
      get-update_other a.id true (some w.now) none _ ne
      ∙ ap (get id) (alerts-record_firing a.id true w _)

  -- An evaluation of another alert leaves the row as it is.
  pub get-evaluate_other :
      (a : Alert) (s : Store)
      → (a.id == id) ≡ false
      → get id (evaluate a w s).alerts ≡ get id s.alerts
  get-evaluate_other a s ne =
      evaluate_cases (λ after. get id after.alerts ≡ get id s.alerts) a w s
        (λ firing err. get-update_other a.id firing none err s ne)
        (λ passed. get-notify_other a s w.notify_err ne)
