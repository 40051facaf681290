-- ===== src/Services/ApiKeys/Gone.antt =====
-- A revoked id of services/apikeys.go: neither in the table nor in the cache nor with the lock's holder.
-- No step answers true about it, and none brings it back.
use pooml.Base.{
  ℕ, ◌≡◌, refl, ap, ◌∙◌, Bool, true, false, not, ◌&&◌, List, [], ◌∷◌, ◌++◌, Option, none, some,
  get_elem?, set, if_cases, Bool-cases, Option-cases, inl, inr, arith, if◌then◌else◌,
}
use pooml.Base.Int.{ℤ, pos}
use pooml.Bytes.{Bytes}
use pooml.Dict.{bytes_eq, is_some, lookup, drop_where}
use pooml.Dict.Laws.{lookup-put, lookup-delete}
use pooml.Dict.Every.{Every, lookup-Every, put-Every, drop_where-Every}
use pooml.Services.ApiKeys.{
  int_beq, int_beq_iff, int_eq, KeyRow, Verify, reading, hashing, checking, returned, Service,
  Inserted, failed, unread, stored, Answer, Action, insert_key, add_row, becomes, refuse, start,
  start_parsed, advance, store, delete_row, names_id, purge, work_on, step, answers, verify, work,
  unlock, revoke_row, revoke_cached, mint,
}
use pooml.Services.ApiKeys.Format.{Stdlib, parse_key, verify_secret}
use pooml.Services.ApiKeys.Invariant.{Proved, HolderStands, IsSound}
use pooml.Services.ApiKeys.Accepted.{create-Keeps, cached_key, step-Stands}

-- The INSERT gives another id.
abbrev pub inserts_other : ℤ → Inserted → Bool
inserts_other id failed = true
inserts_other id (unread n) = not (int_beq (pos n) id)
inserts_other id (stored n) = not (int_beq (pos n) id)

abbrev pub mints_other : ℤ → Action → Bool
mints_other id (mint m) = inserts_other id m.inserted
mints_other id _ = true

-- No row gets the id in these actions.
abbrev pub NotReused : ℤ → List Action → Type 0
NotReused id [] = Unit
NotReused id (a ∷ actions) = (mints_other id a ≡ true) × NotReused id actions

abbrev pub names : ℤ → Option (ℤ × Bytes) → Bool
names id none = false
names id (some (j, secret)) = int_beq j id

-- The answer accepts a key of the id.
abbrev pub accepts : ℤ → Answer → Bool
accepts id none = false
accepts id (some (key, ok)) = names id (parse_key key) && ok

abbrev pub AllRefused : ℤ → List Answer → Type 0
AllRefused id [] = Unit
AllRefused id (a ∷ given) = (accepts id a ≡ false) × AllRefused id given

abbrev pub OtherId : ℤ → Bytes → ℤ → Type 0
OtherId id digest j = int_beq j id ≡ false

abbrev pub holds_other : ℤ → Option (Bytes × ℤ) → Bool
holds_other id none = true
holds_other id (some (key, j)) = not (int_beq j id)

-- The row is gone, and neither the cache nor the lock's holder has the id.
pub record IsGone (id : ℤ) (s : Service) : Type 0 where
  pub row : lookup id s.rows ≡ none
  pub cache : Every (OtherId id) s.verified
  pub hold : holds_other id s.holder ≡ true

abbrev pub Refuses : ℤ → Service × Answer → Type 0
Refuses id r = IsGone id r.0 × (accepts id r.1 ≡ false)

module _ (c : Stdlib) (id : ℤ) where
  calls-IsGone :
      (s : Service) (calls : List Verify) → IsGone id s → IsGone id (record s { calls = calls })
  calls-IsGone s calls h = record { row = h.row; cache = h.cache; hold = h.hold }

  refuse-Refuses : (i : ℕ) (key : Bytes) (s : Service) → IsGone id s → Refuses id (refuse i key s)
  refuse-Refuses i key s h = (calls-IsGone s (set s.calls i returned) h, ground arith)

  add_row-IsGone :
      (j : ℤ) (row : KeyRow) (s : Service)
      → not (int_beq j id) ≡ true
      → IsGone id s
      → IsGone id (add_row j row s)
  add_row-IsGone j row s other h = record {
    row = lookup-put j id row s.rows ∙ ground (arith, other, h.row);
    cache = h.cache;
    hold = h.hold;
  }

  insert_key-IsGone :
      (secret : Bytes) (row : KeyRow) (o : Inserted) (s : Service)
      → inserts_other id o ≡ true
      → IsGone id s
      → IsGone id (insert_key secret row o s).0
  insert_key-IsGone secret row failed s other h = h
  insert_key-IsGone secret row (unread n) s other h = add_row-IsGone (pos n) row s other h
  insert_key-IsGone secret row (stored n) s other h = add_row-IsGone (pos n) row s other h

  -- A key of another id may be accepted.
  other_key :
      (s : Service) (key : Bytes) (j : ℤ)
      → Proved c s.minted key j
      → int_beq j id ≡ false
      → accepts id (some (key, true)) ≡ false
  other_key s key j p other = ap (λ o. names id o && true) p.named ∙ ground (arith, other)

  start_parsed-Refuses :
      (key : Bytes) (o : Option (ℤ × Bytes)) (s : Service)
      → IsGone id s
      → Refuses id (start_parsed key o s)
  unfolding start_parsed
  start_parsed-Refuses key none s h = (h, ground arith)
  start_parsed-Refuses key (some (j, secret)) s h =
      (calls-IsGone s (s.calls ++ reading key j secret ∷ []) h, refl)

  start-Refuses :
      (key : Bytes) (s : Service)
      → ((a b : Bytes) → c.sha256 a ≡ c.sha256 b → a ≡ b)
      → IsSound c s
      → IsGone id s
      → Refuses id (start c key s)
  unfolding start
  start-Refuses key s inj sound h =
      let miss = start_parsed key (parse_key key) s in
      let looked =
        if is_some (lookup (c.sha256 key) s.verified) then (s, some (key, true)) else miss in
      if_cases (Refuses id) (is_some s.holder) (s, none) looked (λ _. (h, refl))
        (λ _.
          if_cases (Refuses id) (is_some (lookup (c.sha256 key) s.verified)) (s, some (key, true))
            miss
            (λ hit.
              let p = cached_key c key s inj hit sound in
              let other = lookup-Every (OtherId id) (c.sha256 key) s.verified p.0 p.1.0 h.cache in
              (h, other_key s key p.0 p.1.1 other))
            (λ _. start_parsed-Refuses key (parse_key key) s h))

  other_row :
      (j : ℤ) (ok : Bool) (s : Service)
      → IsGone id s
      → (ok && is_some (lookup j s.rows)) ≡ true
      → not (int_beq j id) ≡ true
  other_row j ok s h there = elim (Bool-cases (int_beq j id)) [
    | inl same ↦
        let gone : lookup j s.rows ≡ none =
          ap (λ k. lookup k s.rows) ((int_beq_iff j id).0 same) ∙ h.row in
        absurd (ground (arith, there, gone))
    | inr other ↦ ap not other
  ]

  advance-Refuses :
      (i : ℕ) (ok : Bool) (v : Verify) (s : Service) → IsGone id s → Refuses id (advance c i ok v s)
  unfolding advance
  advance-Refuses i ok (reading key j secret) s h = elim (Option-cases (lookup j s.rows)) [
    | inl gone ↦ rw (gone, advance) (refuse-Refuses i key s h)
    | inr (row, there) ↦
        rw (there, advance)
          (if_cases (Refuses id) ok (becomes i (hashing key j secret row.key_hash) s)
            (refuse i key s) (λ _. (calls-IsGone s _ h, refl)) (λ _. refuse-Refuses i key s h))
  ]
  advance-Refuses i ok (hashing key j secret phc) s h =
      if_cases (Refuses id) (verify_secret c secret phc) (becomes i (checking key j) s)
        (refuse i key s) (λ _. (calls-IsGone s _ h, refl)) (λ _. refuse-Refuses i key s h)
  advance-Refuses i ok (checking key j) s h =
      let held = record s { calls = set s.calls i returned; holder = some (key, j) } in
      let checked = if ok && is_some (lookup j s.rows) then (held, none) else refuse i key s in
      if_cases (Refuses id) (is_some s.holder) (s, none) checked (λ _. (h, refl))
        (λ _.
          if_cases (Refuses id) (ok && is_some (lookup j s.rows)) (held, none) (refuse i key s)
            (λ there.
              (record { row = h.row; cache = h.cache; hold = other_row j ok s h there }, refl))
            (λ _. refuse-Refuses i key s h))
  advance-Refuses i ok returned s h = (h, refl)

  store-Refuses :
      (o : Option (Bytes × ℤ)) (s : Service)
      → HolderStands c s.minted o
      → holds_other id o ≡ true
      → IsGone id s
      → Refuses id (store c o s)
  unfolding store
  store-Refuses none s p other h = (h, refl)
  store-Refuses (some (key, j)) s p other h =
      let differs : int_beq j id ≡ false = ground (arith, other) in
      (
        record {
          row = h.row;
          cache = put-Every (OtherId id) (c.sha256 key) j s.verified differs h.cache;
          hold = refl;
        },
        other_key s key j p differs,
      )

  work_on-Refuses :
      (i : ℕ) (ok : Bool) (o : Option Verify) (s : Service)
      → IsGone id s
      → Refuses id (work_on c i ok o s)
  unfolding work_on
  work_on-Refuses i ok none s h = (h, refl)
  work_on-Refuses i ok (some v) s h = advance-Refuses i ok v s h

  delete_row-IsGone :
      (j : ℤ) (ok : Bool) (s : Service) → IsGone id s → IsGone id (delete_row j ok s)
  unfolding delete_row
  delete_row-IsGone j true s h = record {
    row = lookup-delete j id s.rows ∙ ground (arith, h.row);
    cache = h.cache;
    hold = h.hold;
  }
  delete_row-IsGone j false s h = h

  purge-IsGone : (j : ℤ) (s : Service) → IsGone id s → IsGone id (purge j s)
  unfolding purge
  purge-IsGone j s h =
      if_cases (IsGone id) (is_some s.holder) s
        (record s { verified = drop_where (names_id j) s.verified }) (λ _. h)
        (λ _. record {
          row = h.row;
          cache = drop_where-Every (OtherId id) (names_id j) s.verified h.cache;
          hold = h.hold;
        })

  module _ (inj : (a b : Bytes) → c.sha256 a ≡ c.sha256 b → a ≡ b) where
    step-Refuses :
        (a : Action) (s : Service)
        → IsSound c s
        → mints_other id a ≡ true
        → IsGone id s
        → Refuses id (step c a s)
    unfolding step
    step-Refuses (verify key) s sound other h = start-Refuses key s inj sound h
    step-Refuses (work i ok) s sound other h = work_on-Refuses i ok (get_elem? s.calls i) s h
    step-Refuses unlock s sound other h = store-Refuses s.holder s sound.held h.hold h
    step-Refuses (revoke_row j ok) s sound other h = (delete_row-IsGone j ok s h, refl)
    step-Refuses (revoke_cached j) s sound other h = (purge-IsGone j s h, refl)
    step-Refuses (mint m) s sound other h = (
      create-Keeps c (IsGone id) m s h
          (λ secret row. insert_key-IsGone secret row m.inserted s other h),
      refl,
    )

    pub answers-AllRefused :
        (actions : List Action) (s : Service)
        → IsSound c s
        → NotReused id actions
        → IsGone id s
        → AllRefused id (answers c actions s)
    unfolding answers
    answers-AllRefused [] s sound other h = tt
    answers-AllRefused (a ∷ actions) s sound other h =
        let refused = step-Refuses a s sound other.0 h in
        (
          refused.1,
          answers-AllRefused actions (step c a s).0 (step-Stands c inj a s sound).0 other.1
              refused.0,
        )
