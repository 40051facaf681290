-- ===== src/Services/Retention/Chunks.antt =====
-- What `deleteExpired` of services/retention.go deletes, and that its loop ends.
use mathlib.Core.List.{append-nil, append_assoc}
use pooml.Base.{
  ℕ, zero, suc, ◌+◌, ◌-◌, ◌*◌, ◌≤◌, ◌<◌, ◌≡◌, refl, sym, ap, ◌∙◌, Bool, true, false, [], ◌++◌, ltb,
  if_cases, length, length-append, inl, inr, arith, ◌⊎◌,
}
use pooml.Base.Int.{ℤ}
use pooml.Services.Retention.{
  Deletion, Ending, Outcome, Round, Rows, cancelled, delete_chunk, delete_expired, failed, fails,
  goes_on, retention_chunk, returned, stopped, uncounted,
}
use pooml.Services.Retention.Expired.{
  fresh, fresh-delete_chunk, length-delete_chunk, delete_chunk_all, fresh-append, expired,
  expired-append, expired-delete_chunk, delete_chunk-bounded,
}

-- The rows that arrive before and between so many rounds, from the round `i` on, ...
abbrev pub all_arrived : (ℕ → Round) → ℕ → ℕ → Rows
all_arrived world i zero = []
all_arrived world i (suc n) = (world i).arrived ++ all_arrived world (suc i) n

-- ... and how many of them are expired as they come.
abbrev pub arrives_expired : (ℕ → Round) → ℤ → ℕ → ℕ → ℕ
arrives_expired world limit i zero = 0
arrives_expired world limit i (suc n) =
    expired limit (world i).arrived + arrives_expired world limit (suc i) n

abbrev pub ending_of : Outcome → Ending
ending_of goes_on = returned
ending_of cancelled = stopped
ending_of fails = failed
ending_of uncounted = failed

abbrev pub is_returned : Ending → Bool
is_returned returned = true
is_returned _ = false

-- What a deletion comes to, of so many rows counted before and of the rows that there were: `earlier`
-- full rounds and a last one. `known` are the rows that there were or have arrived.
pub record IsDeletion (world : ℕ → Round) (limit : ℤ) (i total : ℕ) (rows : Rows) (r : Deletion)
    : Type 0 where
  pub earlier : ℕ
  pub known : Rows
  pub met : known ≡ rows ++ all_arrived world i (suc earlier)
  pub ended : r.ending ≡ ending_of (world (i + earlier)).outcome
  pub spared : fresh limit r.rows ≡ fresh limit known
  pub counted :
      (r.total + length r.rows ≡ total + length known)
      ⊎ (((world (i + earlier)).outcome ≡ uncounted)
          × (r.total + length r.rows ≤ total + length known)
          × (total + length known ≤ r.total + length r.rows + retention_chunk))
  pub emptied : (is_returned r.ending ≡ false) ⊎ (r.rows ≡ fresh limit known)

module _ (world : ℕ → Round) (limit : ℤ) (i total : ℕ) (rows : Rows) where
  -- The table that the round `i` meets, and what its DELETE leaves
  abbrev present : Rows
  present = rows ++ (world i).arrived

  abbrev left : Rows
  left = delete_chunk limit retention_chunk present

  -- A loop that ends in its first round
  last-IsDeletion :
      (r : Deletion)
      → r.ending ≡ ending_of (world i).outcome
      → fresh limit r.rows ≡ fresh limit present
      → (r.total + length r.rows ≡ total + length present)
        ⊎ (((world i).outcome ≡ uncounted)
            × (r.total + length r.rows ≤ total + length present)
            × (total + length present ≤ r.total + length r.rows + retention_chunk))
      → (is_returned r.ending ≡ false) ⊎ (r.rows ≡ fresh limit present)
      → IsDeletion world limit i total rows r
  last-IsDeletion r ended spared counted emptied =
      let now : i + 0 ≡ i = omega arith in
      record {
        earlier = 0;
        known = present;
        met = ap (λ a. rows ++ a) (sym (append-nil (world i).arrived));
        ended = rw now ended;
        spared = spared;
        counted = rw now counted;
        emptied = emptied;
      }

  -- A full round in front of the others
  full-IsDeletion :
      (r : Deletion)
      → IsDeletion world limit (suc i) (total + (length present - length left)) left r
      → IsDeletion world limit i total rows r
  full-IsDeletion r d =
      let later = all_arrived world (suc i) (suc d.earlier) in
      let turn : i + suc d.earlier ≡ suc i + d.earlier = omega arith in
      let same : fresh limit d.known ≡ fresh limit (present ++ later) =
        ap (fresh limit) d.met
        ∙ fresh-append limit left later
        ∙ ap (λ xs. xs ++ fresh limit later) (fresh-delete_chunk limit retention_chunk present)
        ∙ sym (fresh-append limit present later) in
      record {
        earlier = suc d.earlier;
        known = present ++ later;
        met = append_assoc rows (world i).arrived later;
        ended = rw turn d.ended;
        spared = d.spared ∙ same;
        counted = rw turn (elim d.counted [
          | inl e ↦ inl (omega (arith, e, lengths later d.known d.met))
          | inr (u, a, b) ↦ inr (
            u,
            omega (arith, a, lengths later d.known d.met),
            omega (arith, b, lengths later d.known d.met),
          )
        ]);
        emptied = elim d.emptied [ inl e ↦ inl e | inr e ↦ inr (e ∙ same) ];
      }
    where
      lengths :
          (later known : Rows)
          → known ≡ left ++ later
          → (total + (length present - length left)) + length known
            ≡ total + length (present ++ later)
      lengths later known e = omega (
        arith,
        ap length e,
        length-append left later,
        length-append present later,
        length-delete_chunk limit retention_chunk present,
      )

  -- The rows that are expired behind a full chunk
  full_left :
      (fuel : ℕ)
      → ltb (length present - length left) retention_chunk ≡ false
      → expired limit rows + arrives_expired world limit i (suc fuel) < suc fuel * retention_chunk
      → expired limit left + arrives_expired world limit (suc i) fuel < fuel * retention_chunk
  full_left fuel full h =
      let many : retention_chunk ≤ length present - length left = ground (arith, full) in
      omega (
        arith,
        h,
        many,
        expired-append limit rows (world i).arrived,
        expired-delete_chunk limit retention_chunk present,
        length-delete_chunk limit retention_chunk present,
      )

Outcome-cases : (o : Outcome) → (((o ≡ cancelled) ⊎ (o ≡ fails)) ⊎ (o ≡ uncounted)) ⊎ (o ≡ goes_on)
Outcome-cases goes_on = inr refl
Outcome-cases cancelled = inl (inl (inl refl))
Outcome-cases fails = inl (inl (inr refl))
Outcome-cases uncounted = inl (inr refl)

-- While ingestion goes on between the rounds: if over so many rounds fewer expired rows are there or
-- arrive than the rounds can delete, 10000 each, then the loop ends by itself within them. Every row
-- that is not expired stays, in its order, those included that arrived meanwhile. The total is the
-- number of rows deleted, except that a last DELETE whose RowsAffected fails, of 10000 rows at most, is
-- not counted. If the loop returns without being cancelled and without an error, no expired row is
-- left of those that were there at its last DELETE.
pub delete_expired-IsDeletion :
    (world : ℕ → Round) (limit : ℤ) (fuel i total : ℕ) (rows : Rows)
    → expired limit rows + arrives_expired world limit i fuel < fuel * retention_chunk
    → IsDeletion world limit i total rows (delete_expired world limit fuel i total rows)
unfolding delete_expired
delete_expired-IsDeletion world limit zero i total rows h = absurd (omega (arith, h))
delete_expired-IsDeletion world limit (suc fuel) i total rows h =
    let here = rows ++ (world i).arrived in
    let rest = delete_chunk limit retention_chunk here in
    let n = length here - length rest in
    let same = fresh-delete_chunk limit retention_chunk here in
    let shorter = length-delete_chunk limit retention_chunk here in
    elim (Outcome-cases (world i).outcome) [
      | inl (inl (inl e)) ↦
          rw (e, delete_expired)
            (last-IsDeletion world limit i total rows
              (record { rows = here; total = total; ending = stopped }) (ap ending_of (sym e)) refl
              (inl refl) (inl refl))
      | inl (inl (inr e)) ↦
          rw (e, delete_expired)
            (last-IsDeletion world limit i total rows
              (record { rows = here; total = total; ending = failed }) (ap ending_of (sym e)) refl
              (inl refl) (inl refl))
      | inl (inr e) ↦
          rw (e, delete_expired)
            (last-IsDeletion world limit i total rows
              (record { rows = rest; total = total; ending = failed }) (ap ending_of (sym e)) same
              (inr (
                e,
                omega (arith, shorter),
                omega (arith, delete_chunk-bounded limit retention_chunk here),
              ))
              (inl refl))
      | inr e ↦
          rw (e, delete_expired)
            (if_cases (IsDeletion world limit i total rows) (ltb n retention_chunk)
              (record { rows = rest; total = total + n; ending = returned })
              (delete_expired world limit fuel (suc i) (total + n) rest)
              (λ last.
                last-IsDeletion world limit i total rows
                  (record { rows = rest; total = total + n; ending = returned })
                  (ap ending_of (sym e)) same (inl (omega (arith, shorter)))
                  (inr (delete_chunk_all limit retention_chunk here (ground (arith, last)))))
              (λ full.
                full-IsDeletion world limit i total rows
                  (delete_expired world limit fuel (suc i) (total + n) rest)
                  (delete_expired-IsDeletion world limit fuel (suc i) (total + n) rest
                    (full_left world limit i total rows fuel full h))))
    ]
