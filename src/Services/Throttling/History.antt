-- ===== src/Services/Throttling/History.antt =====
-- Lockouts of services/throttling.go told by the whole history of failures, with nothing forgotten but
-- what a lock cleared.
use pooml.Base.{
  ℕ, ◌+◌, ◌≤◌, ◌≡◌, refl, ap, ◌∙◌, Bool, List, [], ◌∷◌, ◌++◌, ltb, leb, if◌then◌else◌, length,
  length-append, arith, Bool-cases, Option-cases, inl, inr,
}
use pooml.Bytes.{Bytes, str_eq, str_eq_iff}
use pooml.Dict.{bytes_eq, lookup}
use pooml.Dict.Laws.{length-put}
use pooml.Services.Throttling.{
  Entry, Entries, is_locked, prune, fail, record_failure, fresh_entry, max_entries,
}
use pooml.Services.Throttling.Lockout.{or_fresh, lookup-record_failure}

-- How many of the times lie in the minute that ends now.
unfoldable pub in_last_minute : ℕ → List ℕ → ℕ
in_last_minute now [] = 0
in_last_minute now (t ∷ ts) =
    let rest = in_last_minute now ts in if ltb now (t + 60000) then rest + 1 else rest

-- The failures of an address, the latest first, that no lock has cleared: the failure that has four
-- others in its last minute locks, and clears all.
unfoldable pub uncleared : List ℕ → List ℕ
unfolding in_last_minute
uncleared [] = []
uncleared (t ∷ ts) =
    let before = uncleared ts in if leb 4 (in_last_minute t before) then [] else t ∷ before

-- ... and the end of the last lock, 0 where there is none.
unfoldable pub lock_end : List ℕ → ℕ
unfolding uncleared
lock_end [] = 0
lock_end (t ∷ ts) =
    let before = lock_end ts in
    if leb 4 (in_last_minute t (uncleared ts)) then t + 60000 else before

-- A call of `RecordFailure`, with its two readings of the clock.
pub record Failure : Type 0 where
  pub ip : Bytes
  pub now : ℕ
  pub evict_now : ℕ

-- The calls made, the latest first, from the empty table on.
unfoldable pub record_all : List Failure → Entries
record_all [] = []
record_all (f ∷ calls) = record_failure f.now f.evict_now f.ip (record_all calls)

unfoldable pub times : Bytes → List Failure → List ℕ
times j [] = []
times j (f ∷ calls) = let rest = times j calls in if str_eq f.ip j then f.now ∷ rest else rest

-- The clock does not go back.
abbrev pub InOrder : ℕ → List Failure → Type 0
InOrder clock [] = Unit
InOrder clock (f ∷ calls) = (f.now ≤ clock) × InOrder f.now calls

length-prune : (now : ℕ) (ts : List ℕ) → length (prune now ts) ≡ in_last_minute now ts
unfolding prune in_last_minute
length-prune now [] = refl
length-prune now (t ∷ ts) = ground (arith, length-prune now ts)

in_last_minute-prune :
    (now later : ℕ) (ts : List ℕ)
    → now ≤ later
    → in_last_minute later (prune now ts) ≡ in_last_minute later ts
unfolding prune in_last_minute
in_last_minute-prune now later [] h = refl
in_last_minute-prune now later (t ∷ ts) h = ground (arith, in_last_minute-prune now later ts)

in_last_minute-concat :
    (now t : ℕ) (ts : List ℕ) → in_last_minute now (ts ++ t ∷ []) ≡ in_last_minute now (t ∷ ts)
unfolding in_last_minute
in_last_minute-concat now t [] = refl
in_last_minute-concat now t (u ∷ ts) = ground (arith, in_last_minute-concat now t ts)

-- What an entry has to tell of its address's history.
record Tells (clock : ℕ) (ts : List ℕ) (e : Entry) : Type 0 where
  until : e.locked_until ≡ lock_end ts
  counted :
      (now : ℕ) → clock ≤ now → in_last_minute now e.failures ≡ in_last_minute now (uncleared ts)

fail-Tells :
    (clock now : ℕ) (ts : List ℕ) (e : Entry)
    → clock ≤ now
    → Tells clock ts e
    → Tells now (now ∷ ts) (fail now e)
unfolding fail uncleared lock_end
fail-Tells clock now ts e h v = elim (Bool-cases (leb 4 (in_last_minute now (uncleared ts)))) [
  | inl many ↦ record {
    until = rw (full many, many, fail, lock_end) refl;
    counted = λ later k. rw (full many, many, fail, uncleared) refl;
  }
  | inr few ↦ record {
    until = rw (full few, few, fail, lock_end) v.until;
    counted = λ later k.
        rw (full few, few, fail, uncleared)
          (in_last_minute-concat later now (prune now e.failures) ∙ kept later k);
  }
]
  where
    full :
        {b : Bool}
        → leb 4 (in_last_minute now (uncleared ts)) ≡ b
        → leb 5 (length (prune now e.failures ++ now ∷ [])) ≡ b
    full q = ground (
      arith,
      length-append (prune now e.failures) (now ∷ []),
      length-prune now e.failures,
      v.counted now h,
      q,
    )

    kept :
        (later : ℕ)
        → now ≤ later
        → in_last_minute later (now ∷ prune now e.failures)
          ≡ in_last_minute later (now ∷ uncleared ts)
    kept later k =
        unfold in_last_minute in
        ground (
          arith,
          in_last_minute-prune now later e.failures k,
          v.counted later (omega (arith, h, k)),
        )

later-Tells :
    (clock clock' : ℕ) (ts : List ℕ) (e : Entry)
    → clock ≤ clock'
    → Tells clock ts e
    → Tells clock' ts e
later-Tells clock clock' ts e h v = record {
  until = v.until;
  counted = λ now k. v.counted now (omega (arith, h, k));
}

length-record_failure :
    (now evict_now : ℕ) (ip : Bytes) (entries : Entries)
    → length entries + 1 ≤ max_entries
    → length (record_failure now evict_now ip entries) ≤ length entries + 1
unfolding record_failure
length-record_failure now evict_now ip entries room = elim (Option-cases (lookup ip entries)) [
  | inl e ↦ rw (e, record_failure) (ground (arith, length-put ip (fail now fresh_entry) entries))
  | inr (x, e) ↦ rw (e, record_failure) (ground (arith, length-put ip (fail now x) entries))
]

length-record_all :
    (calls : List Failure) → length calls ≤ max_entries → length (record_all calls) ≤ length calls
unfolding record_all
length-record_all [] h = omega arith
length-record_all (f ∷ calls) h =
    let shorter = length-record_all calls (omega (arith, h)) in
    let one =
      length-record_failure f.now f.evict_now f.ip (record_all calls) (omega (arith, h, shorter)) in
    omega (arith, shorter, one)

entry_after : Bytes → List Failure → Entry
entry_after j calls = or_fresh (lookup j (record_all calls))

record_all-Tells :
    (j : Bytes) (clock : ℕ) (calls : List Failure)
    → length calls ≤ max_entries
    → InOrder clock calls
    → Tells clock (times j calls) (entry_after j calls)
unfolding record_all times entry_after
record_all-Tells j clock [] h o =
    unfold lookup lock_end uncleared in record { until = refl; counted = λ now k. refl }
record_all-Tells j clock (f ∷ calls) h o =
    let shorter = length-record_all calls (omega (arith, h)) in
    let before = record_all-Tells j f.now calls (omega (arith, h)) o.1 in
    let found =
      lookup-record_failure f.now f.evict_now f.ip j (record_all calls)
        (omega (arith, h, shorter)) in
    elim (Bool-cases (str_eq f.ip j)) [
      | inl same ↦
          let own : f.ip ≡ j = (str_eq_iff f.ip j).0 same in
          rw (found, same, ap (λ ip. lookup ip (record_all calls)) own)
            (later-Tells f.now clock (f.now ∷ times j calls) _ o.0
              (fail-Tells f.now f.now (times j calls) (entry_after j calls) (omega arith) before))
      | inr other ↦ rw (found, other) (later-Tells f.now clock (times j calls) _ o.0 before)
    ]

is_locked-or_fresh :
    (later : ℕ) (j : Bytes) (entries : Entries)
    → is_locked later j entries ≡ ltb later (or_fresh (lookup j entries)).locked_until
unfolding is_locked
is_locked-or_fresh later j entries = elim (Option-cases (lookup j entries)) [
  | inl e ↦ rw (e, is_locked) (ground arith)
  | inr (x, e) ↦ rw (e, is_locked) refl
]

-- Of at most 10000 calls of RecordFailure from the empty table on, for any addresses, at clocks that do
-- not go back: an address is locked exactly until a minute behind the latest failure of it that had four
-- others in the minute before it. What counts are all failures of the address since its last lock,
-- whatever the table has forgotten of them; those of other addresses do not show.
pub is_locked-record_all :
    (calls : List Failure) (clock later : ℕ) (j : Bytes)
    → length calls ≤ max_entries
    → InOrder clock calls
    → is_locked later j (record_all calls) ≡ ltb later (lock_end (times j calls))
is_locked-record_all calls clock later j h o =
    is_locked-or_fresh later j (record_all calls)
    ∙ ap (ltb later) (unfold entry_after in (record_all-Tells j clock calls h o).until)
