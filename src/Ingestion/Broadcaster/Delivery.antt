-- ===== src/Ingestion/Broadcaster/Delivery.antt =====
-- What a subscriber gets.
use mathlib.Core.List.{append_assoc}
use mathlib.Core.Option
use pooml.Base.{
  ℕ, zero, suc, ◌+◌, ◌≤◌, ◌<◌, ◌≡◌, refl, sym, ap, ◌∙◌, Bool, true, false, List, [], ◌∷◌, ◌++◌,
  Option, none, some, ltb, length, take, arith, Option-cases, Bool-cases, inl, inr, ◌==◌,
  length-append,
}
use pooml.Common.{StandardLog}
use pooml.Dict.{nat_eq, lookup, put, delete}
use pooml.Dict.Laws.{Distinct, lookup-put, lookup-delete, put-Distinct, delete-Distinct}
use pooml.Ingestion.Broadcaster.{
  Chan, Broadcaster, subscriber_buf_size, offer, offer_each, broadcast, subscribe, unsubscribe,
  receive, take_first,
}

lookup-offer_each :
    (id : ℕ) (l : StandardLog) (subs : List (ℕ × Chan))
    → lookup id (offer_each l subs) ≡ Option.map (offer l) (lookup id subs)
unfolding offer_each lookup
lookup-offer_each id l [] = refl
lookup-offer_each id l ((j, ch) ∷ subs) = ground (arith, lookup-offer_each id l subs)

offer_each-Distinct :
    (l : StandardLog) (subs : List (ℕ × Chan)) → Distinct subs → Distinct (offer_each l subs)
unfolding offer_each
offer_each-Distinct l [] d = tt
offer_each-Distinct l ((j, ch) ∷ subs) d =
    (lookup-offer_each j l subs ∙ rw d.0, offer_each-Distinct l subs d.1)

-- The buffer of one subscriber, or `none` when it has none.
abbrev pub buffer : ℕ → Broadcaster → Option Chan
buffer id b = lookup id b.subs

-- Broadcasting touches every subscriber's buffer in the same way, each on its own.
pub buffer-broadcast :
    (id : ℕ) (l : StandardLog) (b : Broadcaster)
    → buffer id (broadcast l b) ≡ Option.map (offer l) (buffer id b)
unfolding broadcast
buffer-broadcast id l b = lookup-offer_each id l b.subs

pub take_all : (n : ℕ) (xs : Chan) → length xs ≤ n → take n xs ≡ xs
take_all zero [] h = refl
take_all (suc n) [] h = refl
take_all zero (x ∷ xs) h = ground arith
take_all (suc n) (x ∷ xs) h = ap (◌∷◌ x) (take_all n xs (omega arith))

take_full : (n : ℕ) (xs ys : Chan) → n ≤ length xs → take n (xs ++ ys) ≡ take n xs
take_full zero xs ys h = refl
take_full (suc n) [] ys h = ground arith
take_full (suc n) (x ∷ xs) ys h = ap (◌∷◌ x) (take_full n xs ys (omega arith))

pub offered :
    (l : StandardLog) (ls ch : Chan)
    → length ch ≤ subscriber_buf_size
    → take subscriber_buf_size (offer l ch ++ ls) ≡ take subscriber_buf_size (ch ++ l ∷ ls)
unfolding offer
offered l ls ch h = elim (Bool-cases (ltb (length ch) subscriber_buf_size)) [
  | inl room ↦ rw (room, append_assoc)
  | inr full ↦ rw full (
      take_full subscriber_buf_size ch ls (ground arith)
      ∙ sym (take_full subscriber_buf_size ch (l ∷ ls) (ground arith)))
]

pub offer_bounded :
    (l : StandardLog) (ch : Chan)
    → length ch ≤ subscriber_buf_size
    → length (offer l ch) ≤ subscriber_buf_size
unfolding offer
offer_bounded l ch h = ground (arith, length-append ch (l ∷ []))

abbrev pub AllBelow : ℕ → List (ℕ × Chan) → Type 0
AllBelow n [] = Unit
AllBelow n ((id, ch) ∷ subs) = (id < n) × (length ch ≤ subscriber_buf_size) × AllBelow n subs

-- Numbers are distinct and used once, and no buffer passes its size.
pub record IsValid (b : Broadcaster) : Type 0 where
  pub distinct : Distinct b.subs
  pub below : AllBelow b.next_id b.subs

AllBelow-mono : {n m : ℕ} (subs : List (ℕ × Chan)) → n ≤ m → AllBelow n subs → AllBelow m subs
AllBelow-mono [] h a = tt
AllBelow-mono ((id, ch) ∷ subs) h a = (omega arith, a.1, AllBelow-mono subs h a.2)

module _ (n : ℕ) where
  put-AllBelow :
      (id : ℕ) (ch : Chan) (subs : List (ℕ × Chan))
      → id < n
      → length ch ≤ subscriber_buf_size
      → AllBelow n subs
      → AllBelow n (put id ch subs)
  unfolding put
  put-AllBelow id ch [] h k a = (h, k, tt)
  put-AllBelow id ch ((j, x) ∷ subs) h k a = ground (arith, put-AllBelow id ch subs h k a.2)

  delete-AllBelow :
      (id : ℕ) (subs : List (ℕ × Chan)) → AllBelow n subs → AllBelow n (delete id subs)
  unfolding delete
  delete-AllBelow id [] a = tt
  delete-AllBelow id ((j, x) ∷ subs) a = ground (arith, delete-AllBelow id subs a.2)

  offer_each-AllBelow :
      (l : StandardLog) (subs : List (ℕ × Chan)) → AllBelow n subs → AllBelow n (offer_each l subs)
  unfolding offer_each
  offer_each-AllBelow l [] a = tt
  offer_each-AllBelow l ((j, x) ∷ subs) a =
      (a.0, offer_bounded l x a.1, offer_each-AllBelow l subs a.2)

  pub lookup-AllBelow :
      (id : ℕ) (subs : List (ℕ × Chan)) (ch : Chan)
      → AllBelow n subs
      → lookup id subs ≡ some ch
      → (id < n) × (length ch ≤ subscriber_buf_size)
  unfolding lookup
  lookup-AllBelow id [] ch a h = cc
  lookup-AllBelow id ((j, x) ∷ subs) ch a h = ground (arith, lookup-AllBelow id subs ch a.2)

  fresh-AllBelow : (subs : List (ℕ × Chan)) → AllBelow n subs → lookup n subs ≡ none
  unfolding lookup
  fresh-AllBelow [] a = refl
  fresh-AllBelow ((j, x) ∷ subs) a = ground (arith, fresh-AllBelow subs a.2)

-- One call of the broadcaster or of a subscriber.
pub data Call : Type 0 where
  log : StandardLog → Call
  join : Call
  leave : ℕ → Call
  read : ℕ → Call

unfoldable pub run_call : Call → Broadcaster → Broadcaster
run_call (log l) b = broadcast l b
run_call join b = (subscribe b).0
run_call (leave id) b = (unsubscribe id b).0
run_call (read id) b = receive id b

length-take_first : (ch : Chan) → length (take_first ch) ≤ length ch
unfolding take_first
length-take_first [] = omega arith
length-take_first (l ∷ ch) = omega arith

leave-IsValid : (id : ℕ) (b : Broadcaster) → IsValid b → IsValid (unsubscribe id b).0
unfolding unsubscribe
leave-IsValid id b v = elim (Option-cases (lookup id b.subs)) [
  | inl gone ↦ rw (gone, unsubscribe) v
  | inr (ch, open_ch) ↦
      rw (open_ch, unsubscribe)
        (record {
          distinct = delete-Distinct id b.subs v.distinct;
          below = delete-AllBelow b.next_id id b.subs v.below;
        })
]

read-IsValid : (id : ℕ) (b : Broadcaster) → IsValid b → IsValid (receive id b)
unfolding receive
read-IsValid id b v = elim (Option-cases (lookup id b.subs)) [
  | inl gone ↦ rw (gone, receive) v
  | inr (ch, open_ch) ↦
      let bounds = lookup-AllBelow b.next_id id b.subs ch v.below open_ch in
      rw (open_ch, receive)
        (record {
          distinct = put-Distinct id (take_first ch) b.subs v.distinct;
          below =
              put-AllBelow b.next_id id (take_first ch) b.subs bounds.0
                (omega (arith, bounds, length-take_first ch)) v.below;
        })
]

-- Every call keeps the invariant: subscribers have distinct numbers, all below the next one, and
-- no buffer ever holds more than 100 logs.
pub run_call-IsValid : (c : Call) (b : Broadcaster) → IsValid b → IsValid (run_call c b)
unfolding run_call broadcast subscribe
run_call-IsValid (log l) b v = record {
  distinct = offer_each-Distinct l b.subs v.distinct;
  below = offer_each-AllBelow b.next_id l b.subs v.below;
}
run_call-IsValid join b v = record {
  distinct = put-Distinct b.next_id [] b.subs v.distinct;
  below =
      put-AllBelow (b.next_id + 1) b.next_id [] b.subs (omega arith) (omega arith)
        (AllBelow-mono b.subs (omega arith) v.below);
}
run_call-IsValid (leave id) b v = leave-IsValid id b v
run_call-IsValid (read id) b v = read-IsValid id b v

leave-buffer :
    (j id : ℕ) (b : Broadcaster) → (j == id) ≡ false → buffer id (unsubscribe j b).0 ≡ buffer id b
unfolding unsubscribe
leave-buffer j id b h = ground (arith, lookup-delete j id b.subs)

read-buffer :
    (j id : ℕ) (b : Broadcaster) → (j == id) ≡ false → buffer id (receive j b) ≡ buffer id b
unfolding receive
read-buffer j id b h = elim (Option-cases (lookup j b.subs)) [
  | inl gone ↦ rw (gone, receive)
  | inr (ch, open_ch) ↦
      rw (open_ch, receive) (ground (arith, lookup-put j id (take_first ch) b.subs))
]

leave-buffer_self : (id : ℕ) (b : Broadcaster) → buffer id (unsubscribe id b).0 ≡ none
unfolding unsubscribe
leave-buffer_self id b = ground (arith, lookup-delete id id b.subs)

unsubscribe_gone : (id : ℕ) (b : Broadcaster) → buffer id b ≡ none → unsubscribe id b ≡ (b, none)
unfolding unsubscribe
unsubscribe_gone id b h = rw (h, unsubscribe)

-- Whose buffer a call touches: a log every one, `Subscribe` the new one, and the other calls only
-- the subscriber's own.
abbrev pub touches : ℕ → Call → Broadcaster → Bool
touches id (log l) b = true
touches id join b = b.next_id == id
touches id (leave j) b = j == id
touches id (read j) b = j == id

-- A subscriber that joins, leaves or reads changes no other subscriber's buffer; one that joins
-- starts with an empty buffer under a number that no one holds; one that leaves has none, and a
-- second call of its `unsubscribe` changes nothing.
pub subscriber_isolation :
    (id : ℕ) (c : Call) (b : Broadcaster)
    → IsValid b
    → (touches id c b ≡ false → buffer id (run_call c b) ≡ buffer id b)
      × (buffer (subscribe b).1 b ≡ none)
      × (buffer (subscribe b).1 (subscribe b).0 ≡ some [])
      × (buffer id (unsubscribe id b).0 ≡ none)
      × (unsubscribe id (unsubscribe id b).0 ≡ ((unsubscribe id b).0, none))
unfolding run_call subscribe
subscriber_isolation id c b v = (
  untouched c,
  fresh-AllBelow b.next_id b.subs v.below,
  ground (arith, lookup-put b.next_id b.next_id [] b.subs),
  left,
  twice,
)
  where
    untouched : (c : Call) → touches id c b ≡ false → buffer id (run_call c b) ≡ buffer id b
    untouched (log l) h = cc
    untouched join h = ground (arith, lookup-put b.next_id id [] b.subs)
    untouched (leave j) h = leave-buffer j id b h
    untouched (read j) h = read-buffer j id b h

    left : buffer id (unsubscribe id b).0 ≡ none
    left = leave-buffer_self id b

    twice : unsubscribe id (unsubscribe id b).0 ≡ ((unsubscribe id b).0, none)
    twice = unsubscribe_gone id (unsubscribe id b).0 left
