-- ===== src/Services/ApiKeys.antt =====
-- services/apikeys.go. The cryptographic functions, base64 and `fmt.Sscanf` are a record of
-- arguments; random bytes, the clock and the outcome of each statement are arguments too. Any number
-- of calls of Verify, Revoke and Create run at once: an action is one atomic step of one of them.
pub mod Format
pub mod Secrets
pub mod Invariant
pub mod Accepted
pub mod Gone
pub mod Revocation
use pooml.Base.{
  ℕ, zero, suc, ◌+◌, Bool, true, false, not, ◌&&◌, ◌||◌, List, [], ◌∷◌, ◌++◌, Option, none, some,
  ltb, ◌==◌, if◌then◌else◌, length, get_elem?, set, ◌≡◌, ◌↔◌, refl, arith,
}
use pooml.Base.Int.{ℤ, pos, negsuc}
use pooml.Bytes.{Bytes, codes, str_eq}
use pooml.Dict.{Eq, bytes_eq, is_some, lookup, put, delete, drop_where}
use pooml.Strings.{itoa, split_3, trim_both, is_space}
use pooml.Strings.Split.{split, parse_int}
use pooml.Services.ApiKeys.Format.{Stdlib, hash_secret, key_text, parse_key, verify_secret}

-- ids in the order of their signs
abbrev pub int_beq : ℤ → ℤ → Bool
int_beq (pos a) (pos b) = a == b
int_beq (negsuc a) (negsuc b) = a == b
int_beq _ _ = false

pub int_beq_iff : (a b : ℤ) → (int_beq a b ≡ true) ↔ (a ≡ b)
int_beq_iff a b = ground arith

instance abbrev pub int_eq : Eq ℤ
int_eq = record { beq = int_beq; beq_iff = int_beq_iff }

-- A row of `api_keys`, under its id.
pub record KeyRow : Type 0 where
  pub label : Bytes
  pub key_hash : Bytes
  pub created_at : ℕ

-- A call of `Verify` behind its look into the cache: before the first SELECT, before the argon2 run,
-- and before it takes the lock for the second SELECT.
pub data Verify : Type 0 where
  reading : Bytes → ℤ → Bytes → Verify
  hashing : Bytes → ℤ → Bytes → Bytes → Verify
  checking : Bytes → ℤ → Verify
  returned : Verify

-- The table, the cache, the calls of Verify, and the one that holds the lock, behind its second
-- SELECT. `minted` is no state of the code: every row there ever was, as id and hash.
pub record Service : Type 0 where
  pub rows : List (ℤ × KeyRow)
  pub verified : List (Bytes × ℤ)
  pub calls : List Verify
  pub holder : Option (Bytes × ℤ)
  pub minted : List (ℤ × Bytes)

abbrev pub new_api_keys_service : Service
new_api_keys_service = record { rows = []; verified = []; calls = []; holder = none; minted = [] }

-- What the INSERT and `LastInsertId` come to.
pub data Inserted : Type 0 where
  failed : Inserted
  unread : ℕ → Inserted  -- stored, and `LastInsertId` failed
  stored : ℕ → Inserted

-- What a call of Create meets: random bytes or their error, the INSERT, and the clock.
pub record Minting : Type 0 where
  pub label : Bytes
  pub raw : Option Bytes
  pub salt : Option Bytes
  pub inserted : Inserted
  pub now : ℕ

abbrev pub add_row : ℤ → KeyRow → Service → Service
add_row id row s = record s { rows = put id row s.rows; minted = (id, row.key_hash) ∷ s.minted }

abbrev pub insert_key : Bytes → KeyRow → Inserted → Service → Service × Option Bytes
insert_key secret row failed s = (s, none)
insert_key secret row (unread id) s = (add_row (pos id) row s, none)
insert_key secret row (stored id) s = (add_row (pos id) row s, some (key_text id secret))

-- `Create` behind its test of the label, with the key that it returns; `none` stands for its errors.
unfoldable pub create_from :
    Stdlib → Minting → Bytes → Option Bytes → Option Bytes → Service → Service × Option Bytes
unfolding hash_secret key_text
create_from c m label none salt s = (s, none)
create_from c m label (some raw) none s = (s, none)
create_from c m label (some raw) (some salt) s =
    let secret = c.url_encode raw in
    let row : KeyRow = record {
      label = label;
      key_hash = hash_secret c salt secret;
      created_at = m.now;
    } in
    insert_key secret row m.inserted s

unfoldable pub create : Stdlib → Minting → Service → Service × Option Bytes
unfolding create_from
create c m s =
    let label = c.trim_space m.label in
    let made = create_from c m label m.raw m.salt s in
    if str_eq label [] || ltb 100 (length label) then (s, none) else made

-- An answer of `Verify`, with the key that it was asked about.
abbrev pub Answer : Type 0
Answer = Option (Bytes × Bool)

unfoldable pub start_parsed : Bytes → Option (ℤ × Bytes) → Service → Service × Answer
start_parsed key none s = (s, some (key, false))
start_parsed key (some (id, secret)) s =
    (record s { calls = s.calls ++ reading key id secret ∷ [] }, none)

-- `Verify` up to its first SELECT. Behind a writer the read lock has to wait.
unfoldable pub start : Stdlib → Bytes → Service → Service × Answer
unfolding start_parsed parse_key
start c key s =
    let miss = start_parsed key (parse_key key) s in
    if is_some s.holder
    then (s, none)
    else if is_some (lookup (c.sha256 key) s.verified)
    then (s, some (key, true))
    else miss

-- A call that goes on, and one that returns false.
abbrev pub becomes : ℕ → Verify → Service → Service × Answer
becomes i v s = (record s { calls = set s.calls i v }, none)

abbrev pub refuse : ℕ → Bytes → Service → Service × Answer
refuse i key s = (record s { calls = set s.calls i returned }, some (key, false))

-- The next step of call `i`; whether its SELECT runs without an error is an argument.
unfoldable pub advance : Stdlib → ℕ → Bool → Verify → Service → Service × Answer
unfolding verify_secret
advance c i ok (reading key id secret) s = elim (lookup id s.rows) [
  | none ↦ refuse i key s
  | some row ↦ if ok then becomes i (hashing key id secret row.key_hash) s else refuse i key s
]
advance c i ok (hashing key id secret phc) s =
    if verify_secret c secret phc then becomes i (checking key id) s else refuse i key s
advance c i ok (checking key id) s =
    let held = record s { calls = set s.calls i returned; holder = some (key, id) } in
    if is_some s.holder
    then (s, none)
    else if ok && is_some (lookup id s.rows)
    then (held, none)
    else refuse i key s
advance c i ok returned s = (s, none)

-- The lock's holder stores the digest, lets go and returns true.
unfoldable pub store : Stdlib → Option (Bytes × ℤ) → Service → Service × Answer
store c none s = (s, none)
store c (some (key, id)) s =
    (record s { verified = put (c.sha256 key) id s.verified; holder = none }, some (key, true))

-- `Revoke` is the DELETE and then, under the lock, the loop over the cache.
unfoldable pub delete_row : ℤ → Bool → Service → Service
delete_row id ok s = if ok then record s { rows = delete id s.rows } else s

abbrev pub names_id : ℤ → Bytes → ℤ → Bool
names_id id digest key_id = int_beq key_id id

unfoldable pub purge : ℤ → Service → Service
purge id s =
    if is_some s.holder then s else record s { verified = drop_where (names_id id) s.verified }

pub data Action : Type 0 where
  verify : Bytes → Action
  work : ℕ → Bool → Action
  unlock : Action
  revoke_row : ℤ → Bool → Action
  revoke_cached : ℤ → Action
  mint : Minting → Action

unfoldable pub work_on : Stdlib → ℕ → Bool → Option Verify → Service → Service × Answer
unfolding advance
work_on c i ok none s = (s, none)
work_on c i ok (some v) s = advance c i ok v s

unfoldable pub step : Stdlib → Action → Service → Service × Answer
unfolding start work_on store delete_row purge create
step c (verify key) s = start c key s
step c (work i ok) s = work_on c i ok (get_elem? s.calls i) s
step c unlock s = store c s.holder s
step c (revoke_row id ok) s = (delete_row id ok s, none)
step c (revoke_cached id) s = (purge id s, none)
step c (mint m) s = ((create c m s).0, none)

unfoldable pub run : Stdlib → List Action → Service → Service
unfolding step
run c [] s = s
run c (a ∷ actions) s = run c actions (step c a s).0

-- What the calls of Verify answer, in the order of their returns.
unfoldable pub answers : Stdlib → List Action → Service → List Answer
unfolding step
answers c [] s = []
answers c (a ∷ actions) s = (step c a s).1 ∷ answers c actions (step c a s).0
