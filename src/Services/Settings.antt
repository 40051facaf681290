-- ===== src/Services/Settings.antt =====
-- services/settings.go, with the salt that services/encryption.go keeps in the same table. The table is
-- a map from keys; a statement that fails leaves it as it is.
use pooml.Base.{
  ℕ, ◌≡◌, sym, ap, ◌∙◌, Bool, true, false, not, List, [], ◌++◌, Option, none, some, if◌then◌else◌,
  length, arith,
}
use pooml.Bytes.{Bytes, codes, str_eq, str_eq_self}
use pooml.Dict.{bytes_eq, lookup, put}
use pooml.Dict.Laws.{lookup-put}
use pooml.Services.Encryption.{Packages, encrypt, decrypt, IsDocumented, decrypt-encode}

pub record Setting : Type 0 where
  pub value : Bytes
  pub is_encrypted : Bool
  pub updated_at : ℕ

abbrev pub Settings : Type 0
Settings = List (Bytes × Setting)

abbrev pub setting_value : Packages → Option Setting → Option Bytes
setting_value c none = some []
setting_value c (some s) = if s.is_encrypted then decrypt c s.value else some s.value

-- `Get`, whose SELECT runs without an error; `none` is the error of `Decrypt`.
unfoldable pub get : Packages → Bytes → Settings → Option Bytes
get c key settings = setting_value c (lookup key settings)

-- The upsert of `Set`; the flag says that it succeeds.
unfoldable pub upsert : Bytes → Setting → Bool → Settings → Settings × Bool
upsert key s ok settings = if ok then (put key s settings, true) else (settings, false)

-- `Set`, with the random nonce that encryption takes, the clock, and whether it succeeds.
unfoldable pub set :
    Packages → Bytes → Bytes → Bool → Option Bytes → ℕ → Bool → Settings → Settings × Bool
unfolding upsert encrypt
set c key value encrypted nonce now ok settings =
    let plain : Setting = record { value = value; is_encrypted = false; updated_at = now } in
    if not encrypted then upsert key plain ok settings else elim (encrypt c nonce value) [
      | none ↦ (settings, false)
      | some stored ↦
          upsert key (record { value = stored; is_encrypted = true; updated_at = now }) ok settings
    ]

-- `IsSet`
unfoldable pub is_set : Bytes → Settings → Bool
is_set key settings = elim (lookup key settings) [ none ↦ false | some s ↦ not (str_eq s.value []) ]

abbrev pub salt_key : Bytes
salt_key = codes "encryption.salt"

abbrev pub insert_absent : Bytes → Setting → Option Setting → Settings → Settings
insert_absent key s none settings = put key s settings
insert_absent key s (some old) settings = settings

abbrev pub decoded : Packages → Option Setting → Option Bytes
decoded c none = none
decoded c (some s) = c.decode s.value

-- `ensureEncryptionSalt`, of fresh random bytes
unfoldable pub ensure_encryption_salt : Packages → Bytes → ℕ → Settings → Settings × Option Bytes
ensure_encryption_salt c fresh now settings =
    let s : Setting = record { value = c.encode fresh; is_encrypted = false; updated_at = now } in
    let stored = insert_absent salt_key s (lookup salt_key settings) settings in
    (stored, decoded c (lookup salt_key stored))

lookup-put_self :
    (key : Bytes) (s : Setting) (settings : Settings) → lookup key (put key s settings) ≡ some s
lookup-put_self key s settings = lookup-put key key s settings ∙ ground (arith, str_eq_self key)

lookup-put_other :
    (key other : Bytes) (s : Setting) (settings : Settings)
    → str_eq key other ≡ false
    → lookup other (put key s settings) ≡ lookup other settings
lookup-put_other key other s settings differ =
    lookup-put key other s settings ∙ ground (arith, differ)

-- What was set is what Get returns, in plain text or encrypted, and no other key changes.
pub get-set :
    (c : Packages) (key other value nonce : Bytes) (encrypted : Bool) (now : ℕ)
    (settings : Settings)
    → IsDocumented c
    → length nonce ≡ c.nonce_size
    → str_eq key other ≡ false
    → let after = (set c key value encrypted (some nonce) now true settings).0 in
      (get c key after ≡ some value) × (get c other after ≡ get c other settings)
unfolding get set
get-set c key other value nonce true now settings d size differ =
    let s : Setting = record {
      value = c.encode (nonce ++ c.seal nonce value);
      is_encrypted = true;
      updated_at = now;
    } in
    (
      ap (setting_value c) (lookup-put_self key s settings) ∙ decrypt-encode c nonce value d size,
      ap (setting_value c) (lookup-put_other key other s settings differ),
    )
get-set c key other value nonce false now settings d size differ =
    let s : Setting = record { value = value; is_encrypted = false; updated_at = now } in
    (
      ap (setting_value c) (lookup-put_self key s settings),
      ap (setting_value c) (lookup-put_other key other s settings differ),
    )

present_salt :
    (c : Packages) (fresh : Bytes) (now : ℕ) (settings : Settings) (s : Setting)
    → lookup salt_key settings ≡ some s
    → ensure_encryption_salt c fresh now settings ≡ (settings, c.decode s.value)
unfolding ensure_encryption_salt
present_salt c fresh now settings s e =
    let made : Setting = record {
      value = c.encode fresh;
      is_encrypted = false;
      updated_at = now;
    } in
    let same : insert_absent salt_key made (lookup salt_key settings) settings ≡ settings =
      ap (λ o. insert_absent salt_key made o settings) e in
    ap (λ t. (t, decoded c (lookup salt_key t))) same ∙ ap (λ o. (settings, decoded c o)) e

absent_salt :
    (c : Packages) (fresh : Bytes) (now : ℕ) (settings : Settings)
    → IsDocumented c
    → lookup salt_key settings ≡ none
    → let made : Setting = record {
      value = c.encode fresh;
      is_encrypted = false;
      updated_at = now;
    } in
      ensure_encryption_salt c fresh now settings ≡ (put salt_key made settings, some fresh)
unfolding ensure_encryption_salt
absent_salt c fresh now settings d e =
    let made : Setting = record {
      value = c.encode fresh;
      is_encrypted = false;
      updated_at = now;
    } in
    let same : insert_absent salt_key made (lookup salt_key settings) settings
        ≡ put salt_key made settings =
      ap (λ o. insert_absent salt_key made o settings) e in
    ap (λ t. (t, decoded c (lookup salt_key t))) same
    ∙ ap (λ o. (put salt_key made settings, decoded c o)) (lookup-put_self salt_key made settings)
    ∙ ap (λ o. (put salt_key made settings, o)) (d.decode-encode fresh)

-- The first boot on an empty table stores its salt and uses it, and every later boot reads that salt
-- and leaves the table as it is, whatever random bytes it made.
pub ensure_encryption_salt_twice :
    (c : Packages) (fresh later : Bytes) (now at : ℕ) (settings : Settings)
    → IsDocumented c
    → lookup salt_key settings ≡ none
    → let first = ensure_encryption_salt c fresh now settings in
      (first.1 ≡ some fresh) × (ensure_encryption_salt c later at first.0 ≡ first)
ensure_encryption_salt_twice c fresh later now at settings d e =
    let made : Setting = record {
      value = c.encode fresh;
      is_encrypted = false;
      updated_at = now;
    } in
    let first = absent_salt c fresh now settings d e in
    let stored : lookup salt_key (put salt_key made settings) ≡ some made =
      lookup-put_self salt_key made settings in
    let again : ensure_encryption_salt c later at (put salt_key made settings)
        ≡ (put salt_key made settings, some fresh) =
      present_salt c later at (put salt_key made settings) made stored
      ∙ ap (λ o. (put salt_key made settings, o)) (d.decode-encode fresh) in
    (ap (λ r. r.1) first, ap (λ r. ensure_encryption_salt c later at r.0) first ∙ again ∙ sym first)
