-- ===== src/Services/ApiKeys/Invariant.antt =====
-- What every step of services/apikeys.go keeps: the calls of Verify that are on their way, the lock's
-- holder and the cache stand on rows that there were.
use mathlib.Core.Path.{subst}
use mathlib.Core.List.{Memᴰ}
use pooml.Base.{
  ℕ, zero, suc, ◌≡◌, refl, true, List, [], ◌∷◌, ◌++◌, Option, none, some, get_elem?, set, arith,
}
use pooml.Base.Int.{ℤ, pos}
use pooml.Bytes.{Bytes}
use pooml.Dict.{bytes_eq}
use pooml.Dict.Every.{Every, put-Every, Every-mono}
use pooml.Services.ApiKeys.{
  int_eq, KeyRow, Verify, reading, hashing, checking, returned, Service, Inserted, failed, unread,
  stored, insert_key, add_row,
}
use pooml.Services.ApiKeys.Format.{Stdlib, parse_key, verify_secret}

module _ (c : Stdlib) where
  -- The key names the id of a row that there was, and its secret passes against that row's hash.
  pub record Proved (minted : List (ℤ × Bytes)) (key : Bytes) (id : ℤ) : Type 0 where
    pub secret : Bytes
    pub phc : Bytes
    pub named : parse_key key ≡ some (id, secret)
    pub listed : Memᴰ (id, phc) minted
    pub passed : verify_secret c secret phc ≡ true

  abbrev pub CallStands : List (ℤ × Bytes) → Verify → Type 0
  CallStands minted (reading key id secret) = parse_key key ≡ some (id, secret)
  CallStands minted (hashing key id secret phc) =
      (parse_key key ≡ some (id, secret)) × Memᴰ (id, phc) minted
  CallStands minted (checking key id) = Proved minted key id
  CallStands minted returned = Unit

  abbrev pub AllStand : List (ℤ × Bytes) → List Verify → Type 0
  AllStand minted [] = Unit
  AllStand minted (v ∷ calls) = CallStands minted v × AllStand minted calls

  abbrev pub HolderStands : List (ℤ × Bytes) → Option (Bytes × ℤ) → Type 0
  HolderStands minted none = Unit
  HolderStands minted (some (key, id)) = Proved minted key id

  abbrev pub CacheStands : List (ℤ × Bytes) → Bytes → ℤ → Type 0
  CacheStands minted digest id = (key : Bytes) × ((c.sha256 key ≡ digest) × Proved minted key id)

  abbrev pub RowStands : List (ℤ × Bytes) → ℤ → KeyRow → Type 0
  RowStands minted id row = Memᴰ (id, row.key_hash) minted

  pub record IsSound (s : Service) : Type 0 where
    pub rows : Every (RowStands s.minted) s.rows
    pub cached : Every (CacheStands s.minted) s.verified
    pub pending : AllStand s.minted s.calls
    pub held : HolderStands s.minted s.holder

module _ (c : Stdlib) where
  Proved-mono :
      (m : ℤ × Bytes) (minted : List (ℤ × Bytes)) (key : Bytes) (id : ℤ)
      → Proved c minted key id
      → Proved c (m ∷ minted) key id
  Proved-mono m minted key id p = record {
    secret = p.secret;
    phc = p.phc;
    named = p.named;
    listed = Memᴰ.tail p.listed;
    passed = p.passed;
  }

  CallStands-mono :
      (m : ℤ × Bytes) (minted : List (ℤ × Bytes)) (v : Verify)
      → CallStands c minted v
      → CallStands c (m ∷ minted) v
  CallStands-mono m minted (reading key id secret) h = h
  CallStands-mono m minted (hashing key id secret phc) h = (h.0, Memᴰ.tail h.1)
  CallStands-mono m minted (checking key id) h = Proved-mono m minted key id h
  CallStands-mono m minted returned h = tt

  AllStand-mono :
      (m : ℤ × Bytes) (minted : List (ℤ × Bytes)) (calls : List Verify)
      → AllStand c minted calls
      → AllStand c (m ∷ minted) calls
  AllStand-mono m minted [] h = tt
  AllStand-mono m minted (v ∷ calls) h =
      (CallStands-mono m minted v h.0, AllStand-mono m minted calls h.1)

  HolderStands-mono :
      (m : ℤ × Bytes) (minted : List (ℤ × Bytes)) (o : Option (Bytes × ℤ))
      → HolderStands c minted o
      → HolderStands c (m ∷ minted) o
  HolderStands-mono m minted none h = tt
  HolderStands-mono m minted (some (key, id)) h = Proved-mono m minted key id h

  AllStand-set :
      (minted : List (ℤ × Bytes)) (calls : List Verify) (i : ℕ) (v : Verify)
      → CallStands c minted v
      → AllStand c minted calls
      → AllStand c minted (set calls i v)
  AllStand-set minted [] i v p h = tt
  AllStand-set minted (w ∷ calls) zero v p h = (p, h.1)
  AllStand-set minted (w ∷ calls) (suc i) v p h = (h.0, AllStand-set minted calls i v p h.1)

  pub AllStand-append :
      (minted : List (ℤ × Bytes)) (calls : List Verify) (v : Verify)
      → CallStands c minted v
      → AllStand c minted calls
      → AllStand c minted (calls ++ v ∷ [])
  AllStand-append minted [] v p h = (p, tt)
  AllStand-append minted (w ∷ calls) v p h = (h.0, AllStand-append minted calls v p h.1)

  pub AllStand-get :
      (minted : List (ℤ × Bytes)) (calls : List Verify) (i : ℕ) (v : Verify)
      → get_elem? calls i ≡ some v
      → AllStand c minted calls
      → CallStands c minted v
  AllStand-get minted [] i v e h = ground (arith, e)
  AllStand-get minted (w ∷ calls) zero v e h =
      let same : w ≡ v = ground (arith, e) in subst (CallStands c minted) same h.0
  AllStand-get minted (w ∷ calls) (suc i) v e h = AllStand-get minted calls i v e h.1

  pub set-IsSound :
      (i : ℕ) (v : Verify) (s : Service)
      → CallStands c s.minted v
      → IsSound c s
      → IsSound c (record s { calls = set s.calls i v })
  set-IsSound i v s p h = record {
    rows = h.rows;
    cached = h.cached;
    pending = AllStand-set s.minted s.calls i v p h.pending;
    held = h.held;
  }

  add_row-IsSound :
      (id : ℤ) (row : KeyRow) (s : Service) → IsSound c s → IsSound c (add_row id row s)
  add_row-IsSound id row s h = record {
    rows = put-Every (RowStands c ((id, row.key_hash) ∷ s.minted)) id row s.rows (Memᴰ.head refl) (
        Every-mono (RowStands c s.minted) (RowStands c ((id, row.key_hash) ∷ s.minted)) s.rows
          (λ j r m. Memᴰ.tail m) h.rows);
    cached =
        Every-mono (CacheStands c s.minted) (CacheStands c ((id, row.key_hash) ∷ s.minted))
          s.verified
          (λ digest j p. (p.0, (p.1.0, Proved-mono (id, row.key_hash) s.minted p.0 j p.1.1)))
          h.cached;
    pending = AllStand-mono (id, row.key_hash) s.minted s.calls h.pending;
    held = HolderStands-mono (id, row.key_hash) s.minted s.holder h.held;
  }

  pub insert_key-IsSound :
      (secret : Bytes) (row : KeyRow) (o : Inserted) (s : Service)
      → IsSound c s
      → IsSound c (insert_key secret row o s).0
  insert_key-IsSound secret row failed s h = h
  insert_key-IsSound secret row (unread id) s h = add_row-IsSound (pos id) row s h
  insert_key-IsSound secret row (stored id) s h = add_row-IsSound (pos id) row s h
