-- ===== src/Services/ApiKeys/Secrets.antt =====
-- What services/apikeys.go prints, it reads: keys, and the hashes of their secrets.
use pooml.Base.{ℕ, ◌<◌, ◌≡◌, refl, ap, ◌∙◌, false, ◌&&◌, [], ◌∷◌, ◌++◌, some, length, arith}
use pooml.Base.Int.{pos}
use pooml.Bytes.{Bytes, codes, str_eq, str_eq_self}
use pooml.Strings.{itoa, digits_of}
use pooml.Strings.Numbers.{itoa-AllDigits}
use pooml.Strings.Split.{
  Lacks, lacks-Lacks, split, split_at, split_last, split_3-join, AllDigits-Lacks, parse_int-itoa,
  int64_limit,
}
use pooml.Services.ApiKeys.Format.{
  Stdlib, api_key_prefix, argon_memory_kib, argon_time, argon_threads, argon_key_len, argon_version,
  version_text, costs_text, hash_of, is_version, hash_secret, verify_hash, verify_parts,
  verify_secret, numbered, key_parts, parse_key, key_text,
}

-- A key that Create returns, of an id that fits an int64, names its id and its secret.
pub parse_key-key_text :
    (id : ℕ) (secret : Bytes)
    → id < int64_limit
    → str_eq secret [] ≡ false
    → parse_key (key_text id secret) ≡ some (pos id, secret)
unfolding parse_key key_text key_parts
parse_key-key_text id secret h k =
    let prefix : Lacks b'_' api_key_prefix = lacks-Lacks b'_' api_key_prefix refl in
    let digits : Lacks b'_' (itoa id) =
      AllDigits-Lacks b'_' (itoa id) (itoa-AllDigits id) (omega arith) in
    ap key_parts (split_3-join b'_' api_key_prefix (itoa id) secret prefix digits)
    ∙ ground (arith, str_eq_self api_key_prefix, k, ap (numbered secret) (parse_int-itoa id h))

-- What is relied on of base64 and fmt: a text decodes to what was encoded and has no dollar sign,
-- and a scan reads what was printed.
pub record IsDocumented (c : Stdlib) : Type 0 where
  pub decode-encode : (b : Bytes) → c.std_decode (c.std_encode b) ≡ some b
  pub encode_plain : (b : Bytes) → Lacks b'$' (c.std_encode b)
  pub scan_own_version : c.scan_version version_text ≡ some argon_version
  pub scan_own_costs : c.scan_costs costs_text ≡ some (argon_memory_kib, argon_time, argon_threads)
  pub id_key_length :
      (secret salt : Bytes) (t m p n : ℕ) → length (c.id_key secret salt t m p n) ≡ n

module _ {c : Stdlib} (d : IsDocumented c) where
  split-hash_secret :
      (salt secret : Bytes)
      → split b'$' (hash_secret c salt secret)
        ≡ []
          ∷ codes "argon2id"
          ∷ version_text
          ∷ costs_text
          ∷ c.std_encode salt
          ∷ c.std_encode (hash_of c salt secret)
          ∷ []
  unfolding hash_secret itoa digits_of
  split-hash_secret salt secret =
      let last = c.std_encode (hash_of c salt secret) in
      let s4 = c.std_encode salt ++ b'$' ∷ last in
      let s3 = costs_text ++ b'$' ∷ s4 in
      let s2 = version_text ++ b'$' ∷ s3 in
      let s1 = codes "argon2id" ++ b'$' ∷ s2 in
      let name : Lacks b'$' (codes "argon2id") = lacks-Lacks b'$' (codes "argon2id") refl in
      let version : Lacks b'$' version_text = lacks-Lacks b'$' version_text refl in
      let costs : Lacks b'$' costs_text = lacks-Lacks b'$' costs_text refl in
      split_at b'$' [] s1 tt
      ∙ ap (◌∷◌ []) (
          split_at b'$' (codes "argon2id") s2 name
          ∙ ap (◌∷◌ (codes "argon2id")) (
              split_at b'$' version_text s3 version
              ∙ ap (◌∷◌ version_text) (
                  split_at b'$' costs_text s4 costs
                  ∙ ap (◌∷◌ costs_text) (
                      split_at b'$' (c.std_encode salt) last (d.encode_plain salt)
                      ∙ ap (◌∷◌ (c.std_encode salt)) (split_last b'$' last (d.encode_plain _))))))

  verify_hash_own :
      (salt secret other : Bytes)
      → verify_hash c other costs_text (c.std_encode salt) (c.std_encode (hash_of c salt secret))
        ≡ str_eq (hash_of c salt other) (hash_of c salt secret)
  unfolding verify_hash
  verify_hash_own salt secret other = ground (
    arith,
    d.scan_own_costs,
    d.decode-encode salt,
    d.decode-encode (hash_of c salt secret),
    d.id_key_length secret salt argon_time argon_memory_kib argon_threads argon_key_len,
  )

  -- A secret passes against a stored hash exactly if argon2, under the parameters of the code and
  -- the salt of the hash, gives both secrets the same key. So the secret itself passes.
  pub verify_secret-hash_secret :
      (salt secret other : Bytes)
      → verify_secret c other (hash_secret c salt secret)
        ≡ str_eq (hash_of c salt other) (hash_of c salt secret)
  unfolding verify_secret verify_parts str_eq
  verify_secret-hash_secret salt secret other =
      ap (verify_parts c other) (split-hash_secret salt secret)
      ∙ ap
          (λ v.
            is_version v
            && verify_hash c other costs_text (c.std_encode salt)
                (c.std_encode (hash_of c salt secret)))
          d.scan_own_version
      ∙ verify_hash_own salt secret other
