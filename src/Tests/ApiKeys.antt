-- ===== src/Tests/ApiKeys.antt =====
-- Concrete runs of services/apikeys.go, with functions in place of the packages.
use pooml.Base.{
  ℕ, ◌+◌, ◌-◌, ◌≡◌, refl, ap, ◌∙◌, List, [], ◌∷◌, ◌++◌, Option, none, some, true, map, take,
  replicate, length, length-append, length-take, length-replicate, if◌then◌else◌, arith,
}
use pooml.Base.Int.{pos}
use pooml.Bytes.{Bytes, codes, str_eq}
use pooml.Dict.{lookup, put, delete, drop_where}
use pooml.Strings.{itoa, digits_of, cut, split_3, number_of}
use pooml.Strings.Split.{Lacks, split, parse_int, read_digits}
use pooml.Services.ApiKeys.{
  Minting, stored, Action, verify, work, unlock, revoke_row, revoke_cached, mint, purge, answers,
  new_api_keys_service,
}
use pooml.Services.ApiKeys.Format.{
  Stdlib, argon_version, argon_memory_kib, argon_time, argon_threads, version_text, costs_text,
  key_text, parse_key, verify_secret, hash_secret, hash_of,
}
use pooml.Services.ApiKeys.Secrets.{IsDocumented, parse_key-key_text, verify_secret-hash_secret}
use pooml.Services.ApiKeys.Accepted.{AllProved, run-AllProved}
use pooml.Services.ApiKeys.Gone.{AllRefused}
use pooml.Services.ApiKeys.Revocation.{revoking, revoke-AllRefused}

abbrev shift : ℕ → ℕ
shift b = 37 + b

abbrev unshift : ℕ → ℕ
unshift b = b - 37

abbrev fit : ℕ → Bytes → Bytes
fit n s = take n (s ++ replicate n 0)

abbrev scan_version : Bytes → Option ℕ
scan_version s = if str_eq s version_text then some argon_version else none

abbrev scan_costs : Bytes → Option (ℕ × ℕ × ℕ)
scan_costs s =
    if str_eq s costs_text then some (argon_memory_kib, argon_time, argon_threads) else none

abbrev toy : Stdlib
toy = record {
  trim_space = λ s. s;
  sha256 = λ s. s;
  id_key = λ secret salt t m p n. fit n (secret ++ salt);
  url_encode = λ s. s;
  std_encode = map shift;
  std_decode = λ s. some (map unshift s);
  scan_version = scan_version;
  scan_costs = scan_costs;
}

toy-IsDocumented : IsDocumented toy
unfolding str_eq
toy-IsDocumented = record {
  decode-encode = λ b. ap some (back b);
  encode_plain = plain;
  scan_own_version = unfold itoa digits_of in refl;
  scan_own_costs = unfold itoa digits_of in refl;
  id_key_length = λ secret salt t m p n. fits n (secret ++ salt);
}
  where
    back : (b : Bytes) → map unshift (map shift b) ≡ b
    back [] = refl
    back (x ∷ b) =
        let same : 37 + x - 37 ≡ x = omega arith in
        ap (λ y. y ∷ map unshift (map shift b)) same ∙ ap (◌∷◌ x) (back b)

    plain : (b : Bytes) → Lacks b'$' (map shift b)
    plain [] = tt
    plain (x ∷ b) = (ground arith, plain b)

    fits : (n : ℕ) (s : Bytes) → length (fit n s) ≡ n
    fits n s =
        length-take n (s ++ replicate n 0)
        ∙ omega (arith, length-append s (replicate n 0), length-replicate {A = ℕ} n 0)

parse_key-key_text_example : parse_key (key_text 7 (codes "a_b")) ≡ some (pos 7, codes "a_b")
parse_key-key_text_example =
    parse_key-key_text 7 (codes "a_b") (omega arith) (unfold str_eq in refl)

verify_secret-hash_secret_example :
    verify_secret toy (codes "other") (hash_secret toy (codes "salt") (codes "secret"))
    ≡ str_eq
        (hash_of toy (codes "salt") (codes "other"))
        (hash_of toy (codes "salt") (codes "secret"))
verify_secret-hash_secret_example =
    verify_secret-hash_secret toy-IsDocumented (codes "salt") (codes "secret") (codes "other")

abbrev minting : ℕ → Minting
minting id = record {
  label = codes "ci";
  raw = some (codes "k_1");
  salt = some (codes "salt");
  inserted = stored id;
  now = 5;
}

abbrev key : Bytes
key = codes "pooml_7_k_1"

-- Create, a call of Verify up to its answer, and a second one that the cache answers.
abbrev visits : List Action
visits =
    mint (minting 7)
    ∷ verify key
    ∷ work 0 true
    ∷ work 0 true
    ∷ work 0 true
    ∷ unlock
    ∷ verify key
    ∷ []

run-AllProved_example : AllProved toy visits new_api_keys_service
run-AllProved_example = run-AllProved toy (λ a b e. e) visits

-- Both of the calls are accepted.
accepted_twice :
    answers toy visits new_api_keys_service
    ≡ none ∷ none ∷ none ∷ none ∷ none ∷ some (key, true) ∷ some (key, true) ∷ []
unfolding answers str_eq itoa digits_of cut split_3 split number_of read_digits parse_int lookup put
accepted_twice = refl

-- A second call has run argon2 when the row goes.
abbrev race : List Action
race = visits ++ (verify (codes "pooml_7_wrong") ∷ mint (minting 8) ∷ work 1 true ∷ [])

revoke-AllRefused_example : AllRefused (pos 7) (
    answers toy
      (verify key ∷ verify (codes "pooml_7_wrong") ∷ mint (minting 9) ∷ work 1 true ∷ [])
      (purge (pos 7) (revoking toy (pos 7) race (work 1 true ∷ []))))
unfolding revoking str_eq itoa digits_of cut split_3 split number_of read_digits parse_int lookup
    put
revoke-AllRefused_example =
    revoke-AllRefused toy (pos 7) race (work 1 true ∷ [])
      (verify key ∷ verify (codes "pooml_7_wrong") ∷ mint (minting 9) ∷ work 1 true ∷ [])
      (λ a b e. e) (refl, tt) (refl, (refl, (refl, (refl, tt)))) refl

-- Where the table gives the id of a revoked key to the next one: a call that has run argon2 on the
-- revoked key is accepted, and so is every later one.
abbrev reused : List Action
reused =
    mint (minting 7)
    ∷ verify key
    ∷ work 0 true
    ∷ work 0 true
    ∷ revoke_row (pos 7) true
    ∷ revoke_cached (pos 7)
    ∷ mint (record (minting 7) { raw = some (codes "k_2") })
    ∷ work 0 true
    ∷ unlock
    ∷ verify key
    ∷ []

accepted_after_revocation :
    answers toy reused new_api_keys_service
    ≡ none
      ∷ none
      ∷ none
      ∷ none
      ∷ none
      ∷ none
      ∷ none
      ∷ none
      ∷ some (key, true)
      ∷ some (key, true)
      ∷ []
unfolding answers str_eq itoa digits_of cut split_3 split number_of read_digits parse_int lookup put
    delete drop_where
accepted_after_revocation = refl
