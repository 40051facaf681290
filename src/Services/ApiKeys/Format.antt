-- ===== src/Services/ApiKeys/Format.antt =====
-- The texts of services/apikeys.go: the PHC string of a secret's hash and its check, and the form of a
-- key.
use pooml.Base.{
  ℕ, Bool, false, not, ◌&&◌, List, [], ◌∷◌, ◌++◌, Option, none, some, ◌==◌, if◌then◌else◌, length,
}
use pooml.Base.Int.{ℤ}
use pooml.Bytes.{Bytes, codes, str_eq}
use pooml.Dict.{bytes_eq}
use pooml.Strings.{itoa, split_3}
use pooml.Strings.Split.{split, parse_int}

-- What the service takes from Go's standard library and golang.org/x/crypto.
pub record Stdlib : Type 0 where
  pub trim_space : Bytes → Bytes
  pub sha256 : Bytes → Bytes
  pub id_key : Bytes → Bytes → ℕ → ℕ → ℕ → ℕ → Bytes  -- secret, salt, time, memory, threads, length
  pub url_encode : Bytes → Bytes  -- base64.RawURLEncoding
  pub std_encode : Bytes → Bytes  -- base64.RawStdEncoding
  pub std_decode : Bytes → Option Bytes
  pub scan_version : Bytes → Option ℕ  -- "v=%d"
  pub scan_costs : Bytes → Option (ℕ × ℕ × ℕ)  -- "m=%d,t=%d,p=%d"

abbrev pub api_key_prefix : Bytes
api_key_prefix = codes "pooml"

abbrev pub argon_memory_kib : ℕ
argon_memory_kib = 19456

abbrev pub argon_time : ℕ
argon_time = 2

abbrev pub argon_threads : ℕ
argon_threads = 1

abbrev pub argon_key_len : ℕ
argon_key_len = 32

-- `argon2.Version`
abbrev pub argon_version : ℕ
argon_version = 0x13

abbrev pub version_text : Bytes
version_text = codes "v=" ++ itoa argon_version

abbrev pub costs_text : Bytes
costs_text =
    codes "m="
    ++ (itoa argon_memory_kib
        ++ (codes ",t=" ++ (itoa argon_time ++ (codes ",p=" ++ itoa argon_threads))))

abbrev pub hash_of : Stdlib → Bytes → Bytes → Bytes
hash_of c salt secret = c.id_key secret salt argon_time argon_memory_kib argon_threads argon_key_len

-- The PHC string; the salt is random.
unfoldable pub hash_secret : Stdlib → Bytes → Bytes → Bytes
hash_secret c salt secret =
    let encoded = c.std_encode salt ++ b'$' ∷ c.std_encode (hash_of c salt secret) in
    b'$' ∷ (codes "argon2id" ++ b'$' ∷ (version_text ++ b'$' ∷ (costs_text ++ b'$' ∷ encoded)))

-- The last three parts of `verifySecret`: the costs, the salt and the hash.
unfoldable pub verify_hash : Stdlib → Bytes → Bytes → Bytes → Bytes → Bool
verify_hash c secret costs salt_text want_text = elim (c.scan_costs costs) [
  | none ↦ false
  | some (m, t, p) ↦ elim (c.std_decode salt_text) [
    | none ↦ false
    | some salt ↦ elim (c.std_decode want_text) [
      | none ↦ false
      | some want ↦ str_eq (c.id_key secret salt t m p (length want)) want
    ]
  ]
]

abbrev pub is_version : Option ℕ → Bool
is_version none = false
is_version (some v) = v == argon_version

unfoldable pub verify_parts : Stdlib → Bytes → List Bytes → Bool
unfolding verify_hash
verify_parts c secret (_ ∷ name ∷ version ∷ costs ∷ salt ∷ want ∷ []) =
    str_eq name (codes "argon2id")
    && is_version (c.scan_version version)
    && verify_hash c secret costs salt want
verify_parts c secret _ = false

unfoldable pub verify_secret : Stdlib → Bytes → Bytes → Bool
unfolding verify_parts split
verify_secret c secret phc = verify_parts c secret (split b'$' phc)

abbrev pub numbered : Bytes → Option ℤ → Option (ℤ × Bytes)
numbered secret none = none
numbered secret (some id) = some (id, secret)

unfoldable pub key_parts : List Bytes → Option (ℤ × Bytes)
unfolding parse_int
key_parts (prefix ∷ id ∷ secret ∷ []) =
    if str_eq prefix api_key_prefix && not (str_eq secret [])
    then numbered secret (parse_int id)
    else none
key_parts _ = none

-- The id and the secret that a key names; `none` where `Verify` calls it malformed.
unfoldable pub parse_key : Bytes → Option (ℤ × Bytes)
unfolding key_parts split_3
parse_key key = key_parts (split_3 b'_' key)

unfoldable pub key_text : ℕ → Bytes → Bytes
key_text id secret = api_key_prefix ++ b'_' ∷ (itoa id ++ b'_' ∷ secret)
