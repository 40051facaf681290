-- ===== src/Services/Throttling.antt =====
-- services/throttling.go. The map is an association list in the order of the current `range`; each
-- read of `time.Now().UnixMilli()` is an argument. A clock reading is a number of milliseconds
-- since 1970, far below 2^63, so `x > now - d` is written `now < x + d`, which is the same test.
pub mod Invariant
pub mod Sweep
pub mod Lockout
pub mod History
pub mod Eviction
pub mod Capacity
mod Tests
use pooml.Base.{
  ℕ, ◌+◌, Bool, true, false, not, ◌&&◌, ◌||◌, List, [], ◌∷◌, ◌++◌, none, some, ltb, leb,
  if◌then◌else◌, length,
}
use pooml.Bytes.{Bytes, str_eq}
use pooml.Dict.{bytes_eq, lookup, put, delete, drop_where}

abbrev pub window_ms : ℕ
window_ms = 60000

abbrev pub max_fails : ℕ
max_fails = 5

abbrev pub lockout_ms : ℕ
lockout_ms = 60000

abbrev pub stale_ms : ℕ
stale_ms = 600000

abbrev pub max_entries : ℕ
max_entries = 10000

-- `throttlingEntry`
pub record Entry : Type 0 where
  pub failures : List ℕ
  pub locked_until : ℕ
  pub last_seen_ms : ℕ

abbrev pub Entries : Type 0
Entries = List (Bytes × Entry)

-- `&throttlingEntry{}`
abbrev pub fresh_entry : Entry
fresh_entry = record { failures = []; locked_until = 0; last_seen_ms = 0 }

-- The test of `sweep`: idle since `nowMs - throttlingStaleMs`, and not locked.
abbrev pub is_stale : ℕ → Bytes → Entry → Bool
is_stale now ip e = ltb (e.last_seen_ms + stale_ms) now && leb e.locked_until now

unfoldable pub sweep : ℕ → Entries → Entries
sweep now entries = drop_where (is_stale now) entries

unfoldable pub is_locked : ℕ → Bytes → Entries → Bool
is_locked now ip entries = elim (lookup ip entries) [
  | none ↦ false
  | some e ↦ ltb now e.locked_until
]

-- The variables of `evictOldestEntryLocked`; the empty text is its "none seen yet".
pub record Oldest : Type 0 where
  pub oldest_ip : Bytes
  pub oldest_ms : ℕ
  pub oldest_locked_ip : Bytes
  pub oldest_locked_ms : ℕ

abbrev pub none_seen : Oldest
none_seen = record { oldest_ip = []; oldest_ms = 0; oldest_locked_ip = []; oldest_locked_ms = 0 }

-- One round of its loop.
unfoldable pub see : ℕ → Oldest → Bytes → Entry → Oldest
see now o ip e =
    if ltb now e.locked_until
    then if str_eq o.oldest_locked_ip [] || ltb e.last_seen_ms o.oldest_locked_ms
      then record o { oldest_locked_ip = ip; oldest_locked_ms = e.last_seen_ms }
      else o
    else if str_eq o.oldest_ip [] || ltb e.last_seen_ms o.oldest_ms
    then record o { oldest_ip = ip; oldest_ms = e.last_seen_ms }
    else o

unfoldable pub see_all : ℕ → Oldest → Entries → Oldest
see_all now o [] = o
see_all now o ((ip, e) ∷ entries) = see_all now (see now o ip e) entries

-- The address that `evictOldestEntryLocked` deletes.
unfoldable pub victim : ℕ → Entries → Bytes
victim now entries =
    let o = see_all now none_seen entries in
    if not (str_eq o.oldest_ip []) then o.oldest_ip else o.oldest_locked_ip

unfoldable pub evict_oldest_entry : ℕ → Entries → Entries
evict_oldest_entry now entries = delete (victim now entries) entries

-- The failures inside the window that ends now.
unfoldable pub prune : ℕ → List ℕ → List ℕ
prune now [] = []
prune now (t ∷ ts) = let rest = prune now ts in if ltb now (t + window_ms) then t ∷ rest else rest

-- What `RecordFailure` does to the entry.
unfoldable pub fail : ℕ → Entry → Entry
unfolding prune
fail now e =
    let failures = prune now e.failures ++ now ∷ [] in
    if leb max_fails (length failures)
    then record { failures = []; locked_until = now + lockout_ms; last_seen_ms = now }
    else record { failures = failures; locked_until = e.locked_until; last_seen_ms = now }

-- The clock is read once more by the eviction.
unfoldable pub record_failure : ℕ → ℕ → Bytes → Entries → Entries
record_failure now evict_now ip entries = elim (lookup ip entries) [
  | some e ↦ put ip (fail now e) entries
  | none ↦
      let room =
        if leb max_entries (length entries)
        then evict_oldest_entry evict_now entries
        else entries in
      put ip (fail now fresh_entry) room
]
