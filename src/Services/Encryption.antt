-- ===== src/Services/Encryption.antt =====
-- services/encryption.go. AES-GCM and base64 are a record of arguments, and so are random bytes. The
-- key itself comes from argon2 with the stored salt.
use pooml.Base.{
  ℕ, ◌≡◌, refl, sym, ap, ◌∙◌, false, List, [], ◌∷◌, ◌++◌, Option, none, some, ltb, if◌then◌else◌,
  length, length-append, take, drop, arith,
}
use pooml.Bytes.{Bytes}

pub record Packages : Type 0 where
  pub nonce_size : ℕ
  pub seal : Bytes → Bytes → Bytes  -- nonce, plaintext
  pub unseal : Bytes → Bytes → Option Bytes  -- nonce, ciphertext
  pub encode : Bytes → Bytes  -- base64.StdEncoding
  pub decode : Bytes → Option Bytes

-- `Encrypt`, of the random nonce, `none` where there is none.
unfoldable pub encrypt : Packages → Option Bytes → Bytes → Option Bytes
encrypt c none plaintext = none
encrypt c (some nonce) plaintext = some (c.encode (nonce ++ c.seal nonce plaintext))

unfoldable pub decrypt_raw : Packages → Option Bytes → Option Bytes
decrypt_raw c none = none
decrypt_raw c (some raw) =
    let plain = c.unseal (take c.nonce_size raw) (drop c.nonce_size raw) in
    if ltb (length raw) c.nonce_size then none else plain

unfoldable pub decrypt : Packages → Bytes → Option Bytes
unfolding decrypt_raw
decrypt c stored = decrypt_raw c (c.decode stored)

-- What is relied on: base64 decodes what it encoded, and GCM opens what it sealed under the nonce.
pub record IsDocumented (c : Packages) : Type 0 where
  pub decode-encode : (b : Bytes) → c.decode (c.encode b) ≡ some b
  pub unseal-seal :
      (nonce plaintext : Bytes) → c.unseal nonce (c.seal nonce plaintext) ≡ some plaintext

take_front {ℓ} : {A : Type ℓ} (a b : List A) → take (length a) (a ++ b) ≡ a
take_front [] b = refl
take_front (x ∷ a) b = ap (◌∷◌ x) (take_front a b)

drop_front {ℓ} : {A : Type ℓ} (a b : List A) → drop (length a) (a ++ b) ≡ b
drop_front [] b = refl
drop_front (x ∷ a) b = drop_front a b

-- A value that was encrypted under a nonce of the right size decrypts to itself.
pub decrypt-encode :
    (c : Packages) (nonce plaintext : Bytes)
    → IsDocumented c
    → length nonce ≡ c.nonce_size
    → decrypt c (c.encode (nonce ++ c.seal nonce plaintext)) ≡ some plaintext
unfolding decrypt decrypt_raw
decrypt-encode c nonce plaintext d size =
    let sealed = c.seal nonce plaintext in
    let raw = nonce ++ sealed in
    let fits : ltb (length raw) c.nonce_size ≡ false =
      ground (arith, size, length-append nonce sealed) in
    let front : take c.nonce_size raw ≡ nonce =
      ap (λ n. take n raw) (sym size) ∙ take_front nonce sealed in
    let back : drop c.nonce_size raw ≡ sealed =
      ap (λ n. drop n raw) (sym size) ∙ drop_front nonce sealed in
    ap (decrypt_raw c) (d.decode-encode raw)
    ∙ ap (λ t. if t then none else c.unseal (take c.nonce_size raw) (drop c.nonce_size raw)) fits
    ∙ ap (λ n. c.unseal n (drop c.nonce_size raw)) front
    ∙ ap (c.unseal nonce) back
    ∙ d.unseal-seal nonce plaintext
