-- ===== src/Services/Throttling/Tests.antt =====
-- A brute-force attempt, step by step.
use pooml.Base.{true, false, List, [], ◌∷◌, some, ◌≡◌, refl, arith, ltb}
use pooml.Bytes.{Bytes, codes, str_eq}
use pooml.Dict.{bytes_eq, lookup, put}
use pooml.Dict.Laws.{Distinct}
use pooml.Services.Throttling.{
  Entry, Entries, sweep, is_locked, victim, record_failure, fail, see, see_all,
}
use pooml.Services.Throttling.Invariant.{IsValid}
use pooml.Services.Throttling.Sweep.{record_failure-sweep}
use pooml.Services.Throttling.History.{
  Failure, in_last_minute, uncleared, lock_end, record_all, times, is_locked-record_all,
}
use pooml.Services.Throttling.Capacity.{record_failure-IsValid, is_locked-record_failure_other}

abbrev alice : Bytes
alice = codes "10.0.0.1"

abbrev mallory : Bytes
mallory = codes "10.0.0.2"

-- Five failures in a row from one address.
five_failures : Entries
five_failures = record_failure 1004 1004 mallory (
    record_failure 1003 1003 mallory (
      record_failure 1002 1002 mallory
        (record_failure 1001 1001 mallory (record_failure 1000 1000 mallory []))))

five_failures_lock :
    (is_locked 61003 mallory five_failures ≡ true)
    × (is_locked 61004 mallory five_failures ≡ false)
    × (is_locked 1005 alice five_failures ≡ false)
unfolding five_failures is_locked record_failure fail lookup put str_eq
five_failures_lock = (refl, refl, refl)

abbrev tried : Entry
tried = record { failures = 1000 ∷ 1001 ∷ []; locked_until = 0; last_seen_ms = 1001 }

abbrev barred : Entry
barred = record { failures = []; locked_until = 61002; last_seen_ms = 1002 }

abbrev table : Entries
table = (alice, tried) ∷ (mallory, barred) ∷ []

table-Distinct : Distinct table
unfolding lookup str_eq
table-Distinct = (refl, (refl, tt))

table-IsValid : IsValid 2000 table
unfolding lookup str_eq
table-IsValid = record {
  distinct = table-Distinct;
  named = refl;
  capped = omega arith;
  sound = (
    record { few = omega arith; past = omega arith; seen = omega arith },
    (record { few = omega arith; past = omega arith; seen = omega arith }, tt),
  );
}

alice_known : lookup alice table ≡ some tried
unfolding lookup str_eq
alice_known = refl

evicted_first : victim 2000 table ≡ alice
unfolding victim see_all see str_eq
evicted_first = refl

record_failure-sweep_example :
    is_locked 3001 alice (record_failure 3000 3000 alice (sweep 2500 table))
    ≡ is_locked 3001 alice (record_failure 3000 3000 alice table)
record_failure-sweep_example =
    record_failure-sweep 2000 2500 3000 3000 3001 alice alice table table-IsValid (omega arith)
      (omega arith) (omega arith) (omega arith)

-- Five failures of mallory's, one of alice's among them, and one that comes after the lock
abbrev calls : List Failure
calls =
    record { ip = mallory; now = 70000; evict_now = 70000 }
    ∷ record { ip = mallory; now = 6000; evict_now = 6000 }
    ∷ record { ip = mallory; now = 5000; evict_now = 5000 }
    ∷ record { ip = alice; now = 4500; evict_now = 4501 }
    ∷ record { ip = mallory; now = 4000; evict_now = 4000 }
    ∷ record { ip = mallory; now = 3000; evict_now = 3000 }
    ∷ record { ip = mallory; now = 2000; evict_now = 2000 }
    ∷ []

locked_once : lock_end (times mallory calls) ≡ 66000
unfolding lock_end uncleared in_last_minute times str_eq
locked_once = refl

is_locked-record_all_example :
    is_locked 65999 mallory (record_all calls) ≡ ltb 65999 (lock_end (times mallory calls))
is_locked-record_all_example =
    is_locked-record_all calls 80000 65999 mallory (omega arith) (omega arith)

record_failure-IsValid_example : IsValid 3000 (record_failure 3000 3000 alice table)
unfolding str_eq
record_failure-IsValid_example =
    record_failure-IsValid 2000 3000 3000 alice table (omega arith) refl table-IsValid

is_locked-record_failure_other_example :
    is_locked 3000 mallory (record_failure 3000 3000 (codes "10.0.0.3") table)
    ≡ is_locked 3000 mallory table
unfolding str_eq
is_locked-record_failure_other_example =
    is_locked-record_failure_other 2000 3000 3000 3000 (codes "10.0.0.3") mallory alice tried table
      table-IsValid (omega arith) alice_known refl refl
