-- ===== src/Services/ApiKeys/Accepted.antt =====
-- What services/apikeys.go accepts: every `true` of Verify, under every schedule.
use mathlib.Core.Path.{subst}
use pooml.Base.{
  ℕ, ◌≡◌, refl, Bool, true, false, ◌&&◌, ◌||◌, List, [], ◌∷◌, Option, none, some, get_elem?, set,
  if_cases, Option-cases, inl, inr, arith, ltb, length, if◌then◌else◌,
}
use pooml.Base.Int.{ℤ}
use pooml.Bytes.{Bytes, str_eq}
use pooml.Dict.{bytes_eq, is_some, lookup, drop_where}
use pooml.Dict.Every.{lookup-Every, put-Every, drop_where-Every, delete-Every}
use pooml.Services.ApiKeys.{
  int_eq, KeyRow, Verify, reading, hashing, checking, returned, Service, Minting, Answer, Action,
  insert_key, create_from, create, becomes, refuse, start, start_parsed, advance, store, delete_row,
  names_id, purge, work_on, step, run, verify, work, unlock, revoke_row, revoke_cached, mint,
  new_api_keys_service,
}
use pooml.Services.ApiKeys.Format.{Stdlib, parse_key, verify_secret}
use pooml.Services.ApiKeys.Invariant.{
  Proved, CallStands, HolderStands, CacheStands, RowStands, IsSound, AllStand-append, AllStand-get,
  set-IsSound, insert_key-IsSound,
}

module _ (c : Stdlib) where
  create_from-Keeps :
      (P : Service → Type 0) (m : Minting) (label : Bytes) (raw salt : Option Bytes) (s : Service)
      → P s
      → ((secret : Bytes) (row : KeyRow) → P (insert_key secret row m.inserted s).0)
      → P (create_from c m label raw salt s).0
  unfolding create_from
  create_from-Keeps P m label none salt s h k = h
  create_from-Keeps P m label (some raw) none s h k = h
  create_from-Keeps P m label (some raw) (some salt) s h k = k _ _

  -- What `insert_key` keeps, Create keeps.
  pub create-Keeps :
      (P : Service → Type 0) (m : Minting) (s : Service)
      → P s
      → ((secret : Bytes) (row : KeyRow) → P (insert_key secret row m.inserted s).0)
      → P (create c m s).0
  unfolding create
  create-Keeps P m s h k =
      let label = c.trim_space m.label in
      if_cases (λ r. P r.0) (str_eq label [] || ltb 100 (length label)) (s, none)
        (create_from c m label m.raw m.salt s) (λ _. h)
        (λ _. create_from-Keeps P m label m.raw m.salt s h k)

  -- An answer `true` is about a key that is proved.
  abbrev pub IsProved : List (ℤ × Bytes) → Answer → Type 0
  IsProved minted (some (key, true)) = (id : ℤ) × Proved c minted key id
  IsProved minted _ = Unit

  -- The state that a step leaves, and what it answers.
  abbrev pub Stands : Service × Answer → Type 0
  Stands r = IsSound c r.0 × IsProved r.0.minted r.1

  start_parsed-Stands :
      (key : Bytes) (o : Option (ℤ × Bytes)) (s : Service)
      → parse_key key ≡ o
      → IsSound c s
      → Stands (start_parsed key o s)
  unfolding start_parsed
  start_parsed-Stands key none s e h = (h, tt)
  start_parsed-Stands key (some (id, secret)) s e h = (
    record {
      rows = h.rows;
      cached = h.cached;
      pending = AllStand-append c s.minted s.calls (reading key id secret) e h.pending;
      held = h.held;
    },
    tt,
  )

  pub cached_key :
      (key : Bytes) (s : Service)
      → ((a b : Bytes) → c.sha256 a ≡ c.sha256 b → a ≡ b)
      → is_some (lookup (c.sha256 key) s.verified) ≡ true
      → IsSound c s
      → (id : ℤ) × ((lookup (c.sha256 key) s.verified ≡ some id) × Proved c s.minted key id)
  cached_key key s inj hit h = elim (Option-cases (lookup (c.sha256 key) s.verified)) [
    | inl none_there ↦ absurd (ground (arith, hit, none_there))
    | inr (id, there) ↦
        let p = lookup-Every (CacheStands c s.minted) (c.sha256 key) s.verified id there h.cached in
        (id, (there, subst (λ k. Proved c s.minted k id) (inj p.0 key p.1.0) p.1.1))
  ]

  start-Stands :
      (key : Bytes) (s : Service)
      → ((a b : Bytes) → c.sha256 a ≡ c.sha256 b → a ≡ b)
      → IsSound c s
      → Stands (start c key s)
  unfolding start
  start-Stands key s inj h =
      let miss = start_parsed key (parse_key key) s in
      let looked =
        if is_some (lookup (c.sha256 key) s.verified) then (s, some (key, true)) else miss in
      if_cases Stands (is_some s.holder) (s, none) looked (λ _. (h, tt))
        (λ _.
          if_cases Stands (is_some (lookup (c.sha256 key) s.verified)) (s, some (key, true)) miss
            (λ hit. let p = cached_key key s inj hit h in (h, (p.0, p.1.1)))
            (λ _. start_parsed-Stands key (parse_key key) s refl h))

  advance-Stands :
      (i : ℕ) (ok : Bool) (v : Verify) (s : Service)
      → CallStands c s.minted v
      → IsSound c s
      → Stands (advance c i ok v s)
  unfolding advance
  advance-Stands i ok (reading key id secret) s p h = elim (Option-cases (lookup id s.rows)) [
    | inl gone ↦ rw (gone, advance) (set-IsSound c i returned s tt h, tt)
    | inr (row, there) ↦
        let listed = lookup-Every (RowStands c s.minted) id s.rows row there h.rows in
        rw (there, advance)
          (if_cases Stands ok (becomes i (hashing key id secret row.key_hash) s) (refuse i key s)
            (λ _. (set-IsSound c i (hashing key id secret row.key_hash) s (p, listed) h, tt))
            (λ _. (set-IsSound c i returned s tt h, tt)))
  ]
  advance-Stands i ok (hashing key id secret phc) s p h =
      if_cases Stands (verify_secret c secret phc) (becomes i (checking key id) s) (refuse i key s)
        (λ passed. (
          set-IsSound c i (checking key id) s
              (record { secret = secret; phc = phc; named = p.0; listed = p.1; passed = passed }) h,
          tt,
        ))
        (λ _. (set-IsSound c i returned s tt h, tt))
  advance-Stands i ok (checking key id) s p h =
      let held = record s { calls = set s.calls i returned; holder = some (key, id) } in
      let checked = if ok && is_some (lookup id s.rows) then (held, none) else refuse i key s in
      let after = set-IsSound c i returned s tt h in
      if_cases Stands (is_some s.holder) (s, none) checked (λ _. (h, tt))
        (λ _.
          if_cases Stands (ok && is_some (lookup id s.rows)) (held, none) (refuse i key s)
            (λ _.
              (record { rows = h.rows; cached = h.cached; pending = after.pending; held = p }, tt))
            (λ _. (after, tt)))
  advance-Stands i ok returned s p h = (h, tt)

  store-Stands :
      (o : Option (Bytes × ℤ)) (s : Service)
      → HolderStands c s.minted o
      → IsSound c s
      → Stands (store c o s)
  unfolding store
  store-Stands none s p h = (h, tt)
  store-Stands (some (key, id)) s p h = (
    record {
      rows = h.rows;
      cached =
          put-Every (CacheStands c s.minted) (c.sha256 key) id s.verified (key, (refl, p)) h.cached;
      pending = h.pending;
      held = tt;
    },
    (id, p),
  )

  work_on-Stands :
      (i : ℕ) (ok : Bool) (o : Option Verify) (s : Service)
      → get_elem? s.calls i ≡ o
      → IsSound c s
      → Stands (work_on c i ok o s)
  unfolding work_on
  work_on-Stands i ok none s e h = (h, tt)
  work_on-Stands i ok (some v) s e h =
      advance-Stands i ok v s (AllStand-get c s.minted s.calls i v e h.pending) h

  pub delete_row-IsSound :
      (id : ℤ) (ok : Bool) (s : Service) → IsSound c s → IsSound c (delete_row id ok s)
  unfolding delete_row
  delete_row-IsSound id true s h = record {
    rows = delete-Every (RowStands c s.minted) id s.rows h.rows;
    cached = h.cached;
    pending = h.pending;
    held = h.held;
  }
  delete_row-IsSound id false s h = h

  pub purge-IsSound : (id : ℤ) (s : Service) → IsSound c s → IsSound c (purge id s)
  unfolding purge
  purge-IsSound id s h =
      if_cases (IsSound c) (is_some s.holder) s
        (record s { verified = drop_where (names_id id) s.verified }) (λ _. h)
        (λ _. record {
          rows = h.rows;
          cached = drop_where-Every (CacheStands c s.minted) (names_id id) s.verified h.cached;
          pending = h.pending;
          held = h.held;
        })

  module _ (inj : (a b : Bytes) → c.sha256 a ≡ c.sha256 b → a ≡ b) where
    pub step-Stands : (a : Action) (s : Service) → IsSound c s → Stands (step c a s)
    unfolding step
    step-Stands (verify key) s h = start-Stands key s inj h
    step-Stands (work i ok) s h = work_on-Stands i ok (get_elem? s.calls i) s refl h
    step-Stands unlock s h = store-Stands s.holder s h.held h
    step-Stands (revoke_row id ok) s h = (delete_row-IsSound id ok s h, tt)
    step-Stands (revoke_cached id) s h = (purge-IsSound id s h, tt)
    step-Stands (mint m) s h = (
      create-Keeps (IsSound c) m s h (λ secret row. insert_key-IsSound c secret row m.inserted s h),
      tt,
    )

    pub run-IsSound :
        (actions : List Action) (s : Service) → IsSound c s → IsSound c (run c actions s)
    unfolding run
    run-IsSound [] s h = h
    run-IsSound (a ∷ actions) s h = run-IsSound actions (step c a s).0 (step-Stands a s h).0

  -- Every answer of a run stands on the rows inserted up to it.
  abbrev pub AllProved : List Action → Service → Type 0
  AllProved [] s = Unit
  AllProved (a ∷ actions) s =
      IsProved (step c a s).0.minted (step c a s).1 × AllProved actions (step c a s).0

  pub new-IsSound : IsSound c new_api_keys_service
  new-IsSound = record { rows = tt; cached = tt; pending = tt; held = tt }

  module _ (inj : (a b : Bytes) → c.sha256 a ≡ c.sha256 b → a ≡ b) where
    run-AllProved_from : (actions : List Action) (s : Service) → IsSound c s → AllProved actions s
    run-AllProved_from [] s h = tt
    run-AllProved_from (a ∷ actions) s h =
        let stands = step-Stands inj a s h in
        (stands.1, run-AllProved_from actions (step c a s).0 stands.0)

    -- Under every schedule of the calls of Verify, Revoke and Create, from an empty table on, Verify
    -- answers true only of a key that names the id of a row inserted before, with a secret that passes
    -- against that row's hash: the cache never makes up a key, as long as no two keys share a digest.
    pub run-AllProved : (actions : List Action) → AllProved actions new_api_keys_service
    run-AllProved actions = run-AllProved_from actions new_api_keys_service new-IsSound
