-- ===== src/Services/Throttling/Capacity.antt =====
-- A recorded failure keeps the table's invariant, at its cap too.
use pooml.Base.{
  ℕ, ◌+◌, ◌≤◌, false, [], ◌∷◌, none, some, ◌≡◌, arith, ltb, leb, if◌then◌else◌, length,
  Option-cases, Bool-cases, inl, inr, ◌∙◌,
}
use pooml.Bytes.{Bytes, str_eq, str_eq_iff}
use pooml.Dict.{bytes_eq, lookup, put}
use pooml.Dict.Laws.{
  put-Distinct, delete-Distinct, length-put, length-delete, length-delete_le, lookup-delete,
  lookup-put,
}
use pooml.Services.Throttling.{
  Entry, Entries, is_locked, fresh_entry, victim, evict_oldest_entry, record_failure, fail,
  max_entries,
}
use pooml.Services.Throttling.Invariant.{
  IsValid, IsEntry, fail-IsEntry, AllEntries-mono, lookup-AllEntries, put-AllEntries,
  delete-AllEntries,
}
use pooml.Services.Throttling.Eviction.{lookup_head, victim_free, victim_present}

-- The table that a new address is put into.
make_room : ℕ → Entries → Entries
make_room now m = if leb max_entries (length m) then evict_oldest_entry now m else m

record_failure_new :
    (now evict_now : ℕ) (ip : Bytes) (m : Entries)
    → lookup ip m ≡ none
    → record_failure now evict_now ip m ≡ put ip (fail now fresh_entry) (make_room evict_now m)
unfolding record_failure make_room
record_failure_new now evict_now ip m h = rw (h, record_failure)

record_failure_known :
    (now evict_now : ℕ) (ip : Bytes) (m : Entries) (e : Entry)
    → lookup ip m ≡ some e
    → record_failure now evict_now ip m ≡ put ip (fail now e) m
unfolding record_failure
record_failure_known now evict_now ip m e h = rw (h, record_failure)

make_room-capped :
    {clock : ℕ} (now : ℕ) (m : Entries)
    → IsValid clock m
    → length (make_room now m) + 1 ≤ max_entries
unfolding make_room evict_oldest_entry
make_room-capped now [] v = ground arith
make_room-capped now ((j, x) ∷ m) v = ground (
  arith,
  v.capped,
  length-delete (victim now ((j, x) ∷ m)) ((j, x) ∷ m) v.distinct
      (victim_present now ((j, x) ∷ m) v.distinct v.named j x (lookup_head j x m)),
)

make_room-IsValid :
    {clock : ℕ} (now : ℕ) (m : Entries) → IsValid clock m → IsValid clock (make_room now m)
unfolding make_room evict_oldest_entry
make_room-IsValid {clock} now m v = elim (Bool-cases (leb max_entries (length m))) [
  | inl full ↦ rw full (record {
    distinct = delete-Distinct (victim now m) m v.distinct;
    named = lookup-delete (victim now m) [] m ∙ ground (arith, v.named);
    capped = omega (arith, v.capped, length-delete_le (victim now m) m);
    sound = delete-AllEntries clock (victim now m) m v.sound;
  })
  | inr free ↦ rw free v
]

fresh-IsEntry : (now : ℕ) → IsEntry now (fail now fresh_entry)
fresh-IsEntry now = fail-IsEntry {clock = 0} now fresh_entry (omega arith) (ground arith)

-- Recording a failure of an address that is not empty, at a clock that has not gone back, keeps
-- the table well formed: addresses stay distinct, there are never more than 10000 of them, and no
-- entry holds five failures.
pub record_failure-IsValid :
    (clock now evict_now : ℕ) (ip : Bytes) (m : Entries)
    → clock ≤ now
    → str_eq ip [] ≡ false
    → IsValid clock m
    → IsValid now (record_failure now evict_now ip m)
record_failure-IsValid clock now evict_now ip m h named v = elim (Option-cases (lookup ip m)) [
  | inl new ↦
      let w = make_room-IsValid evict_now m v in
      let room = make_room evict_now m in
      rw (record_failure_new now evict_now ip m new) (record {
        distinct = put-Distinct ip (fail now fresh_entry) room w.distinct;
        named = lookup-put ip [] (fail now fresh_entry) room ∙ ground (arith, w.named);
        capped =
            ground
              (arith, length-put ip (fail now fresh_entry) room, make_room-capped evict_now m v);
        sound =
            put-AllEntries now ip (fail now fresh_entry) room (fresh-IsEntry now)
              (AllEntries-mono room h w.sound);
      })
  | inr (e, known) ↦ rw (record_failure_known now evict_now ip m e known) (record {
    distinct = put-Distinct ip (fail now e) m v.distinct;
    named = lookup-put ip [] (fail now e) m ∙ ground (arith, v.named);
    capped = ground (arith, length-put ip (fail now e) m, v.capped);
    sound =
        put-AllEntries now ip (fail now e) m
          (fail-IsEntry now e h (lookup-AllEntries clock ip m e v.sound known))
          (AllEntries-mono m h v.sound);
  })
]

-- At the cap too, as long as some entry is not locked: recording a failure of `ip` changes no
-- answer of `IsLocked` for another address.
pub is_locked-record_failure_other :
    (clock now evict_now later : ℕ) (ip j k : Bytes) (x : Entry) (m : Entries)
    → IsValid clock m
    → evict_now ≤ later
    → lookup k m ≡ some x
    → ltb evict_now x.locked_until ≡ false
    → str_eq ip j ≡ false
    → is_locked later j (record_failure now evict_now ip m) ≡ is_locked later j m
unfolding is_locked
is_locked-record_failure_other clock now evict_now later ip j k x m v h has free other =
    elim (Option-cases (lookup ip m)) [
      | inl new ↦
          let (f, taken, f_free, early) = victim_free evict_now m v.distinct v.named k x has free in
          rw (record_failure_new now evict_now ip m new) (
            unfold make_room evict_oldest_entry in
            ground (
              arith,
              lookup-put ip j (fail now fresh_entry) (make_room evict_now m),
              lookup-delete (victim evict_now m) j m,
              str_eq_iff (victim evict_now m) j,
            ))
      | inr (e, known) ↦
          rw (record_failure_known now evict_now ip m e known)
            (ground (arith, lookup-put ip j (fail now e) m))
    ]
