-- ===== src/Services/Throttling/Invariant.antt =====
-- What holds of the table between two calls.
use pooml.Base.{ℕ, ◌≤◌, ◌<◌, Bool, List, [], ◌∷◌, ◌++◌, none, some, ◌≡◌, arith, length}
use pooml.Bytes.{Bytes}
use pooml.Dict.{bytes_eq, lookup, put, delete, drop_where}
use pooml.Dict.Laws.{Distinct, drop_where-Distinct, drop_where_absent, length-drop_where}
use pooml.Services.Throttling.{Entry, Entries, is_stale, sweep, prune, fail, max_fails, max_entries}

abbrev pub AllLe : ℕ → List ℕ → Type 0
AllLe n [] = Unit
AllLe n (t ∷ ts) = (t ≤ n) × AllLe n ts

-- At clock reading `clock`, an entry holds fewer failures than lock it, none later than its last one.
pub record IsEntry (clock : ℕ) (e : Entry) : Type 0 where
  pub few : length e.failures < max_fails
  pub past : AllLe e.last_seen_ms e.failures
  pub seen : e.last_seen_ms ≤ clock

abbrev pub AllEntries : ℕ → Entries → Type 0
AllEntries clock [] = Unit
AllEntries clock ((ip, e) ∷ m) = IsEntry clock e × AllEntries clock m

-- Addresses are distinct and not empty, their number is capped, and each entry is well formed.
pub record IsValid (clock : ℕ) (entries : Entries) : Type 0 where
  pub distinct : Distinct entries
  pub named : lookup [] entries ≡ none
  pub capped : length entries ≤ max_entries
  pub sound : AllEntries clock entries

pub AllLe-prune : (now n : ℕ) (ts : List ℕ) → AllLe n ts → AllLe n (prune now ts)
unfolding prune
AllLe-prune now n [] h = tt
AllLe-prune now n (t ∷ ts) h = ground (arith, AllLe-prune now n ts h.1)

pub AllLe-mono : {n m : ℕ} (ts : List ℕ) → n ≤ m → AllLe n ts → AllLe m ts
AllLe-mono [] h a = tt
AllLe-mono (t ∷ ts) h a = (omega arith, AllLe-mono ts h a.1)

AllLe-concat : (n : ℕ) (ts : List ℕ) → AllLe n ts → AllLe n (ts ++ n ∷ [])
AllLe-concat n [] a = (omega arith, tt)
AllLe-concat n (t ∷ ts) a = (a.0, AllLe-concat n ts a.1)

pub fail-IsEntry :
    {clock : ℕ} (now : ℕ) (e : Entry) → clock ≤ now → IsEntry clock e → IsEntry now (fail now e)
unfolding fail
fail-IsEntry now e h v = ground (
  arith,
  AllLe-concat now (prune now e.failures)
      (AllLe-prune now now e.failures (AllLe-mono e.failures (omega arith) v.past)),
)

pub AllEntries-mono : {c d : ℕ} (m : Entries) → c ≤ d → AllEntries c m → AllEntries d m
AllEntries-mono [] h a = tt
AllEntries-mono ((j, x) ∷ m) h a = (ground arith, AllEntries-mono m h a.1)

module _ (clock : ℕ) where
  pub lookup-AllEntries :
      (ip : Bytes) (m : Entries) (e : Entry)
      → AllEntries clock m
      → lookup ip m ≡ some e
      → IsEntry clock e
  unfolding lookup
  lookup-AllEntries ip [] e a h = cc
  lookup-AllEntries ip ((j, x) ∷ m) e a h = ground (arith, lookup-AllEntries ip m e a.1)

  pub put-AllEntries :
      (ip : Bytes) (e : Entry) (m : Entries)
      → IsEntry clock e
      → AllEntries clock m
      → AllEntries clock (put ip e m)
  unfolding put
  put-AllEntries ip e [] v a = (v, tt)
  put-AllEntries ip e ((j, x) ∷ m) v a = ground (arith, put-AllEntries ip e m v a.1)

  pub delete-AllEntries :
      (ip : Bytes) (m : Entries) → AllEntries clock m → AllEntries clock (delete ip m)
  unfolding delete
  delete-AllEntries ip [] a = tt
  delete-AllEntries ip ((j, x) ∷ m) a = ground (arith, delete-AllEntries ip m a.1)

  drop_where-AllEntries :
      (p : Bytes → Entry → Bool) (m : Entries)
      → AllEntries clock m
      → AllEntries clock (drop_where p m)
  unfolding drop_where
  drop_where-AllEntries p [] a = tt
  drop_where-AllEntries p ((j, x) ∷ m) a = ground (arith, drop_where-AllEntries p m a.1)

-- The sweep keeps the invariant, and so lets the clock go on.
pub sweep-IsValid :
    {clock : ℕ} (now : ℕ) (m : Entries) → clock ≤ now → IsValid clock m → IsValid now (sweep now m)
unfolding sweep
sweep-IsValid now m h v = record {
  distinct = drop_where-Distinct (is_stale now) m v.distinct;
  named = drop_where_absent (is_stale now) [] m v.named;
  capped = omega (arith, v.capped, length-drop_where (is_stale now) m);
  sound = drop_where-AllEntries now (is_stale now) m (AllEntries-mono m h v.sound);
}
