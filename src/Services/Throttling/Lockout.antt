-- ===== src/Services/Throttling/Lockout.antt =====
-- When a failure locks an address out, and what it leaves alone.
use pooml.Base.{
  ℕ, ◌+◌, ◌≤◌, Bool, false, ◌∷◌, [], none, some, Option, ◌≡◌, arith, ltb, leb, if◌then◌else◌,
  length, length-append, Option-cases, Bool-cases, inl, inr,
}
use pooml.Bytes.{Bytes, str_eq}
use pooml.Dict.{bytes_eq, lookup}
use pooml.Dict.Laws.{lookup-put}
use pooml.Services.Throttling.{
  Entry, Entries, fresh_entry, max_entries, lockout_ms, is_locked, prune, fail, record_failure,
}

abbrev pub or_fresh : Option Entry → Entry
or_fresh none = fresh_entry
or_fresh (some e) = e

pub lookup-record_failure :
    (now evict_now : ℕ) (ip j : Bytes) (entries : Entries)
    → length entries + 1 ≤ max_entries
    → lookup j (record_failure now evict_now ip entries)
      ≡ (if str_eq ip j then some (fail now (or_fresh (lookup ip entries))) else lookup j entries)
unfolding record_failure
lookup-record_failure now evict_now ip j entries room = elim (Option-cases (lookup ip entries)) [
  | inl e ↦ rw (e, record_failure) (ground (arith, lookup-put ip j (fail now fresh_entry) entries))
  | inr (x, e) ↦ rw (e, record_failure) (lookup-put ip j (fail now x) entries)
]

-- How many recorded failures of an address lie inside the window that ends at `now`.
unfoldable pub recent : ℕ → Option Entry → ℕ
recent now o = length (prune now (or_fresh o).failures)

locked_now : ℕ → Option Entry → Bool
locked_now later none = false
locked_now later (some e) = ltb later e.locked_until

is_locked-locked_now :
    (later : ℕ) (j : Bytes) (entries : Entries)
    → is_locked later j entries ≡ locked_now later (lookup j entries)
unfolding is_locked locked_now
is_locked-locked_now later j entries = ground arith

locked_now-fail :
    (now later : ℕ) (o : Option Entry)
    → locked_now later (some (fail now (or_fresh o)))
      ≡ (if leb 4 (recent now o) then ltb later (now + lockout_ms) else locked_now later o)
unfolding fail locked_now recent
locked_now-fail now later none = ground arith
locked_now-fail now later (some e) = ground (arith, length-append (prune now e.failures) (now ∷ []))

-- A failure, while the table has room, in terms of the failures that the table holds.
pub is_locked-record_failure :
    (now evict_now later : ℕ) (ip j : Bytes) (entries : Entries)
    → length entries + 1 ≤ max_entries
    → is_locked later j (record_failure now evict_now ip entries) ≡ (
        if str_eq ip j
        then (if leb 4 (recent now (lookup ip entries))
            then ltb later (now + lockout_ms)
            else is_locked later ip entries)
        else is_locked later j entries)
is_locked-record_failure now evict_now later ip j entries room =
    rw
      (
        is_locked-locked_now later j (record_failure now evict_now ip entries),
        is_locked-locked_now later ip entries,
        is_locked-locked_now later j entries,
        lookup-record_failure now evict_now ip j entries room,
      )
      (elim (Bool-cases (str_eq ip j)) [
        | inl e ↦ rw e (locked_now-fail now later (lookup ip entries))
        | inr e ↦ rw e
      ])
