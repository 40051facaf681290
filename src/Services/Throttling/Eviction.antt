-- ===== src/Services/Throttling/Eviction.antt =====
-- Whom the cap on the number of entries evicts.
use pooml.Base.{
  ℕ, ◌≤◌, true, false, [], ◌∷◌, none, some, Option, ◌≡◌, refl, arith, ltb, if◌then◌else◌,
  Bool-cases, inl, inr,
}
use pooml.Bytes.{Bytes, str_eq, str_eq_iff, str_eq_self}
use pooml.Dict.{bytes_eq, is_some, lookup}
use pooml.Dict.Laws.{Distinct}
use pooml.Services.Throttling.{Entry, Entries, Oldest, none_seen, see, see_all, victim}

pub lookup_head : (j : Bytes) (x : Entry) (m : Entries) → lookup j ((j, x) ∷ m) ≡ some x
unfolding lookup
lookup_head j x m = ground (arith, str_eq_self j)

-- The entry that a variable of the loop names is of the variable's kind.
IsFree : ℕ → ℕ → Option Entry → Type 0
IsFree now ms none = ⊥
IsFree now ms (some e) = (ltb now e.locked_until ≡ false) × (ms ≡ e.last_seen_ms)

record Names (now : ℕ) (m : Entries) (o : Oldest) : Type 0 where
  free : str_eq o.oldest_ip [] ≡ false → IsFree now o.oldest_ms (lookup o.oldest_ip m)
  locked : str_eq o.oldest_locked_ip [] ≡ false → is_some (lookup o.oldest_locked_ip m) ≡ true

see-Names :
    (now : ℕ) (m : Entries) (o : Oldest) (ip : Bytes) (e : Entry)
    → lookup ip m ≡ some e
    → Names now m o
    → Names now m (see now o ip e)
unfolding see IsFree
see-Names now m o ip e h n = ground arith

-- What the loop knows once it has visited an entry.
Seen : ℕ → Oldest → Entry → Type 0
Seen now o e =
    if ltb now e.locked_until
    then str_eq o.oldest_locked_ip [] ≡ false
    else (str_eq o.oldest_ip [] ≡ false) × (o.oldest_ms ≤ e.last_seen_ms)

see-Seen_self :
    (now : ℕ) (o : Oldest) (ip : Bytes) (e : Entry)
    → str_eq ip [] ≡ false
    → Seen now (see now o ip e) e
unfolding see Seen
see-Seen_self now o ip e h = ground arith

see-Seen :
    (now : ℕ) (o : Oldest) (ip : Bytes) (e x : Entry)
    → str_eq ip [] ≡ false
    → Seen now o x
    → Seen now (see now o ip e) x
unfolding see Seen
see-Seen now o ip e x h s = ground arith

-- The entries still to visit are entries of the table, under addresses that are not empty.
Within : Entries → Entries → Type 0
Within m [] = Unit
Within m ((ip, e) ∷ r) = (lookup ip m ≡ some e) × (str_eq ip [] ≡ false) × Within m r

Within-cons :
    (m r : Entries) (j : Bytes) (x : Entry) → lookup j m ≡ none → Within m r → Within ((j, x) ∷ m) r
unfolding Within lookup
Within-cons m [] j x h w = tt
Within-cons m ((ip, e) ∷ r) j x h w =
    (ground (arith, str_eq_iff j ip), w.1, Within-cons m r j x h w.2)

Within-self : (m : Entries) → Distinct m → lookup [] m ≡ none → Within m m
unfolding Within lookup
Within-self [] d n = tt
Within-self ((ip, e) ∷ m) d n = (
  ground (arith, str_eq_self ip),
  ground arith,
  Within-cons m m ip e d.0 (Within-self m d.1 (ground arith)),
)

see_all-Names :
    (now : ℕ) (m : Entries) (o : Oldest) (r : Entries)
    → Within m r
    → Names now m o
    → Names now m (see_all now o r)
unfolding see_all Within
see_all-Names now m o [] w n = n
see_all-Names now m o ((ip, e) ∷ r) w n =
    see_all-Names now m (see now o ip e) r w.2 (see-Names now m o ip e w.0 n)

see_all-Seen :
    (now : ℕ) (m : Entries) (o : Oldest) (r : Entries) (x : Entry)
    → Within m r
    → Seen now o x
    → Seen now (see_all now o r) x
unfolding see_all Within
see_all-Seen now m o [] x w s = s
see_all-Seen now m o ((ip, e) ∷ r) x w s =
    see_all-Seen now m (see now o ip e) r x w.2 (see-Seen now o ip e x w.1 s)

see_all-Seen_each :
    (now : ℕ) (m : Entries) (o : Oldest) (r : Entries) (j : Bytes) (x : Entry)
    → Within m r
    → lookup j r ≡ some x
    → Seen now (see_all now o r) x
unfolding see_all Within lookup
see_all-Seen_each now m o [] j x w h = cc
see_all-Seen_each now m o ((ip, e) ∷ r) j x w h = elim (Bool-cases (str_eq ip j)) [
  | inl same ↦
      let here : e ≡ x = ground arith in
      see_all-Seen now m (see now o ip e) r x w.2 (rw (← here) (see-Seen_self now o ip e w.1))
  | inr other ↦ see_all-Seen_each now m (see now o ip e) r j x w.2 (ground arith)
]

IsFree-entry :
    (now ms n : ℕ) (o : Option Entry)
    → IsFree now ms o
    → ms ≤ n
    → (v : Entry) × (o ≡ some v) × (ltb now v.locked_until ≡ false) × (v.last_seen_ms ≤ n)
unfolding IsFree
IsFree-entry now ms n none f h = absurd f
IsFree-entry now ms n (some v) f h = (v, refl, f.0, omega arith)

module _ (now : ℕ) (m : Entries) (d : Distinct m) (named : lookup [] m ≡ none) where
  last : Oldest
  last = see_all now none_seen m

  last-Names : Names now m last
  unfolding last
  last-Names =
      see_all-Names now m none_seen m (Within-self m d named)
        (record { free = λ h. cc (str_eq_self [], h); locked = λ h. cc (str_eq_self [], h) })

  last-Seen : (j : Bytes) (x : Entry) → lookup j m ≡ some x → Seen now last x
  unfolding last
  last-Seen j x h = see_all-Seen_each now m none_seen m j x (Within-self m d named) h

  -- If some entry is not locked, the eviction takes one that is not locked, and of those one that
  -- was idle the longest.
  pub victim_free :
      (j : Bytes) (x : Entry)
      → lookup j m ≡ some x
      → ltb now x.locked_until ≡ false
      → (v : Entry) × (lookup (victim now m) m ≡ some v)
        × (ltb now v.locked_until ≡ false)
        × (v.last_seen_ms ≤ x.last_seen_ms)
  unfolding victim last Seen
  victim_free j x h free =
      let seen = last-Seen j x h in
      let chosen : victim now m ≡ last.oldest_ip = ground (arith, seen) in
      let named_free : str_eq last.oldest_ip [] ≡ false = ground (arith, seen) in
      let early : last.oldest_ms ≤ x.last_seen_ms = ground (arith, seen) in
      rw chosen (
        IsFree-entry now last.oldest_ms x.last_seen_ms (lookup last.oldest_ip m)
          (last-Names.free named_free) early)

  -- The eviction always takes an entry of the table.
  pub victim_present :
      (j : Bytes) (x : Entry) → lookup j m ≡ some x → is_some (lookup (victim now m) m) ≡ true
  unfolding victim last IsFree Seen
  victim_present j x h = ground (arith, last-Seen j x h, last-Names.free, last-Names.locked)
