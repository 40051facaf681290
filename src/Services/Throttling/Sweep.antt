-- ===== src/Services/Throttling/Sweep.antt =====
-- The sweep of idle entries.
use pooml.Base.{
  ℕ, ◌+◌, ◌≤◌, ◌≡◌, refl, ◌∙◌, sym, arith, List, [], ◌∷◌, Option, none, some, length, Bool-cases,
  inl, inr,
}
use pooml.Bytes.{Bytes}
use pooml.Dict.{bytes_eq, lookup}
use pooml.Dict.Laws.{Distinct, kept, lookup-drop_where, length-drop_where}
use pooml.Services.Throttling.{
  Entry, Entries, is_stale, window_ms, sweep, is_locked, prune, max_entries, record_failure,
}
use pooml.Services.Throttling.Invariant.{
  AllLe, IsEntry, IsValid, lookup-AllEntries, AllEntries-mono,
}
use pooml.Services.Throttling.Lockout.{recent, is_locked-record_failure}

-- A sweep at `now` changes no answer of `IsLocked`, for any address, at `now` or later.
pub is_locked-sweep :
    (now later : ℕ) (ip : Bytes) (entries : Entries)
    → Distinct entries
    → now ≤ later
    → is_locked later ip (sweep now entries) ≡ is_locked later ip entries
unfolding is_locked sweep
is_locked-sweep now later ip entries d h =
    ground (arith, lookup-drop_where (is_stale now) ip entries d)

prune_old : (now n : ℕ) (ts : List ℕ) → AllLe n ts → n + window_ms ≤ now → prune now ts ≡ []
unfolding prune
prune_old now n [] a h = refl
prune_old now n (t ∷ ts) a h = ground (arith, prune_old now n ts a.1)

-- What the sweep drops of an address held no failure that still counts.
recent-kept :
    (now later : ℕ) (ip : Bytes) (o : Option Entry)
    → ((e : Entry) → o ≡ some e → IsEntry now e)
    → now ≤ later
    → recent later (kept (is_stale now) ip o) ≡ recent later o
unfolding recent
recent-kept now later ip none v h = refl
recent-kept now later ip (some e) v h = elim (Bool-cases (is_stale now ip e)) [
  | inl stale ↦ rw stale (
      ground (
        arith,
        prune_old later e.last_seen_ms e.failures (v e refl).past (ground arith),
        prune_old later 0 [] tt (ground arith),
      ))
  | inr live ↦ rw live
]

recent-sweep :
    (clock now later : ℕ) (ip : Bytes) (entries : Entries)
    → IsValid clock entries
    → clock ≤ now
    → now ≤ later
    → recent later (lookup ip (sweep now entries)) ≡ recent later (lookup ip entries)
unfolding sweep
recent-sweep clock now later ip entries v k h =
    rw (lookup-drop_where (is_stale now) ip entries v.distinct) (
      recent-kept now later ip (lookup ip entries)
        (λ e found. lookup-AllEntries now ip entries e (AllEntries-mono entries k v.sound) found) h)

-- The sweep forgives nothing: whether a failure recorded after it locks an address, and for how
-- long, is as if the sweep had not run. (The table has room, the clock does not go back.)
pub record_failure-sweep :
    (clock now fail_at evict_at later : ℕ) (ip j : Bytes) (entries : Entries)
    → IsValid clock entries
    → length entries + 1 ≤ max_entries
    → clock ≤ now
    → now ≤ fail_at
    → now ≤ later
    → is_locked later j (record_failure fail_at evict_at ip (sweep now entries))
      ≡ is_locked later j (record_failure fail_at evict_at ip entries)
record_failure-sweep clock now fail_at evict_at later ip j entries v room c h k =
    is_locked-record_failure fail_at evict_at later ip j (sweep now entries)
      (unfold sweep in omega (arith, length-drop_where (is_stale now) entries))
    ∙ rw
        (
          recent-sweep clock now fail_at ip entries v c h,
          is_locked-sweep now later ip entries v.distinct k,
          is_locked-sweep now later j entries v.distinct k,
        )
        (sym (is_locked-record_failure fail_at evict_at later ip j entries room))
