-- ===== src/Services/ScrapeTargets/SelfScrape.antt =====
-- EnsureSelfScrape of services/scrapetargets.go: afterwards the server scrapes itself with the header
-- that it was started with.
use mathlib.Core.Path.{subst}
use pooml.Base.{
  ℕ, ◌≡◌, refl, ap, ◌∙◌, ◌⊎◌, inl, inr, Bool, true, false, List, [], ◌∷◌, ◌++◌, map, Option, none,
  some, if_cases, Bool-cases, Option-cases, arith, sym, ◌<◌, length, length-append,
}
use pooml.Bytes.{Bytes, str_eq, str_eq_self}
use pooml.Services.Encryption
use pooml.Services.Encryption.{encrypt, decrypt, decrypt-encode}
use pooml.Services.ScrapeTargets.{
  Packages, ScrapeTarget, TargetRow, done, Insert, new_row, trimmed, target_error, insert_target,
  store_target, create_valid, create_target, scan_auth, self_url, self_target, any_url,
  restore_auth, restored, ensure_self_scrape,
}

-- A row of another URL, or one that hands out the header.
abbrev pub Carries : Packages → Bytes → Bytes → TargetRow → Type 0
Carries c url auth_header r = (str_eq r.url url ≡ false) ⊎ (scan_auth c r ≡ some auth_header)

abbrev pub AllCarry : Packages → Bytes → Bytes → List TargetRow → Type 0
AllCarry c url auth_header [] = Unit
AllCarry c url auth_header (r ∷ rows) =
    Carries c url auth_header r × AllCarry c url auth_header rows

-- What is relied on of the encryption: base64 and AES-GCM undo what they do, the empty text
-- decodes to nothing, and the random nonce, where there is one, has the size that the cipher asks for,
-- which is not 0.
pub record IsDocumented (c : Packages) : Type 0 where
  pub undone : Encryption.IsDocumented c.encryption
  pub empty : c.encryption.decode [] ≡ some []
  pub sized : (nonce : Bytes) → c.nonce ≡ some nonce → length nonce ≡ c.encryption.nonce_size
  pub positive : 0 < c.encryption.nonce_size

-- What `Encrypt` gives is the encoding of the nonce and what was sealed under it.
encrypt_cases :
    (c : Packages) (plain stored : Bytes)
    → encrypt c.encryption c.nonce plain ≡ some stored
    → (nonce : Bytes) × (c.nonce ≡ some nonce)
      × (c.encryption.encode (nonce ++ c.encryption.seal nonce plain) ≡ stored)
unfolding encrypt
encrypt_cases c plain stored e = elim (Option-cases c.nonce) [
  | inl absent ↦ absurd (ground (arith, e, absent))
  | inr (nonce, present) ↦ (nonce, present, ground (arith, e, present))
]

decrypts :
    {c : Packages} {plain stored : Bytes}
    → IsDocumented c
    → encrypt c.encryption c.nonce plain ≡ some stored
    → decrypt c.encryption stored ≡ some plain
decrypts {c} {plain} {stored} d e =
    let (nonce, present, text) = encrypt_cases c plain stored e in
    ap (decrypt c.encryption) (sym text)
    ∙ decrypt-encode c.encryption nonce plain d.undone (d.sized nonce present)

nonempty :
    (c : Packages) (plain : Bytes)
    → IsDocumented c
    → encrypt c.encryption c.nonce plain ≡ some []
    → ⊥
nonempty c plain d e =
    let (nonce, present, text) = encrypt_cases c plain [] e in
    let raw = nonce ++ c.encryption.seal nonce plain in
    let nothing : some raw ≡ some [] =
      sym (d.undone.decode-encode raw) ∙ ap c.encryption.decode text ∙ d.empty in
    let none_long : length raw ≡ 0 = ground (arith, nothing) in
    omega (
      arith,
      none_long,
      length-append nonce (c.encryption.seal nonce plain),
      d.sized nonce present,
      d.positive,
    )

scan_auth_stored :
    (c : Packages) (r : TargetRow) (plain stored : Bytes)
    → IsDocumented c
    → encrypt c.encryption c.nonce plain ≡ some stored
    → r.auth_header ≡ some stored
    → r.is_auth_encrypted ≡ true
    → scan_auth c r ≡ some plain
unfolding scan_auth str_eq
scan_auth_stored c r plain [] d e at on = absurd (nonempty c plain d e)
scan_auth_stored c r plain (x ∷ s) d e at on = ground (arith, decrypts d e, at, on)

restored-AllCarry :
    (c : Packages) (url plain stored : Bytes) (rows : List TargetRow)
    → IsDocumented c
    → encrypt c.encryption c.nonce plain ≡ some stored
    → AllCarry c url plain (map (restore_auth url stored) rows)
restored-AllCarry c url plain stored [] d e = tt
restored-AllCarry c url plain stored (r ∷ rows) d e = (
  elim (Bool-cases (str_eq r.url url)) [
    | inl same ↦
        let s = record r { auth_header = some stored; is_auth_encrypted = true } in
        rw same (inr (scan_auth_stored c s plain stored d e refl refl))
    | inr other ↦ rw other (inl other)
  ],
  restored-AllCarry c url plain stored rows d e,
)

absent-AllCarry :
    (c : Packages) (url plain : Bytes) (rows : List TargetRow)
    → any_url url rows ≡ false
    → AllCarry c url plain rows
unfolding any_url
absent-AllCarry c url plain [] h = tt
absent-AllCarry c url plain (r ∷ rows) h =
    (inl (ground (arith, h)), absent-AllCarry c url plain rows (ground (arith, h)))

append-AllCarry :
    (c : Packages) (url plain : Bytes) (rows : List TargetRow) (r : TargetRow)
    → AllCarry c url plain rows
    → Carries c url plain r
    → AllCarry c url plain (rows ++ r ∷ [])
append-AllCarry c url plain [] r h k = (k, tt)
append-AllCarry c url plain (s ∷ rows) r h k = (h.0, append-AllCarry c url plain rows r h.1 k)

insert_target-AllCarry :
    (c : Packages) (url plain : Bytes) (t : ScrapeTarget) (auth : Option Bytes) (on : Bool)
    (w : Insert) (rows : List TargetRow)
    → AllCarry c url plain rows
    → ((id : ℕ) → Carries c url plain (new_row t auth on id w.now))
    → AllCarry c url plain (insert_target t auth on w rows).0
unfolding insert_target
insert_target-AllCarry c url plain t auth on w rows h k = elim (Option-cases w.id) [
  | inl e ↦ rw (e, insert_target) h
  | inr (id, e) ↦
      rw (e, insert_target) (append-AllCarry c url plain rows (new_row t auth on id w.now) h (k id))
]

-- A target that is stored hands out its header.
store_target-AllCarry :
    (c : Packages) (url : Bytes) (t : ScrapeTarget) (w : Insert) (rows : List TargetRow)
    → IsDocumented c
    → str_eq t.auth_header [] ≡ false
    → AllCarry c url t.auth_header rows
    → AllCarry c url t.auth_header (store_target c t w rows).0
unfolding store_target
store_target-AllCarry c url t w rows d given h =
    rw (given, store_target)
      (elim (Option-cases (encrypt c.encryption c.nonce t.auth_header)) [
        | inl e ↦ rw (e, store_target) h
        | inr ([], e) ↦ absurd (nonempty c t.auth_header d e)
        | inr (x ∷ s, e) ↦
            rw (e, store_target)
              (insert_target-AllCarry c url t.auth_header t (some (x ∷ s)) true w rows h (λ id.
                inr (
                  scan_auth_stored c (new_row t (some (x ∷ s)) true id w.now) t.auth_header (x ∷ s)
                    d e refl refl)))
      ])

create_target-AllCarry :
    (c : Packages) (url : Bytes) (t : ScrapeTarget) (w : Insert) (rows : List TargetRow)
    → IsDocumented c
    → str_eq (c.trim_space t.auth_header) [] ≡ false
    → AllCarry c url (c.trim_space t.auth_header) rows
    → AllCarry c url (c.trim_space t.auth_header) (create_target c t w rows).0
unfolding create_target create_valid trimmed
create_target-AllCarry c url t w rows d given h =
    let u = trimmed c t in
    elim (Option-cases (target_error c u)) [
      | inl e ↦ rw (e, create_target) (store_target-AllCarry c url u w rows d given h)
      | inr (error, e) ↦ rw (e, create_target) h
    ]

any_url-append :
    (url : Bytes) (rows : List TargetRow) (r : TargetRow)
    → str_eq r.url url ≡ true
    → any_url url (rows ++ r ∷ []) ≡ true
unfolding any_url
any_url-append url [] r h = ground (arith, h)
any_url-append url (s ∷ rows) r h = ground (arith, any_url-append url rows r h)

any_url-map :
    (url stored : Bytes) (rows : List TargetRow)
    → any_url url (map (restore_auth url stored) rows) ≡ any_url url rows
unfolding any_url
any_url-map url stored [] = refl
any_url-map url stored (r ∷ rows) = ground (arith, any_url-map url stored rows)

insert_target-any_url :
    (url : Bytes) (t : ScrapeTarget) (auth : Option Bytes) (on : Bool) (w : Insert)
    (rows : List TargetRow)
    → str_eq t.url url ≡ true
    → (insert_target t auth on w rows).1 ≡ done
    → any_url url (insert_target t auth on w rows).0 ≡ true
unfolding insert_target
insert_target-any_url url t auth on w rows h = elim (Option-cases w.id) [
  | inl e ↦ rw (e, insert_target) (λ ok. ground (arith, ok))
  | inr (id, e) ↦
      rw (e, insert_target) (λ ok. any_url-append url rows (new_row t auth on id w.now) h)
]

store_target-any_url :
    (c : Packages) (url : Bytes) (t : ScrapeTarget) (w : Insert) (rows : List TargetRow)
    → str_eq t.url url ≡ true
    → str_eq t.auth_header [] ≡ false
    → (store_target c t w rows).1 ≡ done
    → any_url url (store_target c t w rows).0 ≡ true
unfolding store_target
store_target-any_url c url t w rows h given =
    rw (given, store_target)
      (elim (Option-cases (encrypt c.encryption c.nonce t.auth_header)) [
        | inl e ↦ rw (e, store_target) (λ ok. ground (arith, ok))
        | inr ([], e) ↦ rw (e, store_target) (insert_target-any_url url t none true w rows h)
        | inr (x ∷ s, e) ↦
            rw (e, store_target) (insert_target-any_url url t (some (x ∷ s)) true w rows h)
      ])

create_target-any_url :
    (c : Packages) (url : Bytes) (t : ScrapeTarget) (w : Insert) (rows : List TargetRow)
    → str_eq (c.trim_space t.url) url ≡ true
    → str_eq (c.trim_space t.auth_header) [] ≡ false
    → (create_target c t w rows).1 ≡ done
    → any_url url (create_target c t w rows).0 ≡ true
unfolding create_target create_valid trimmed
create_target-any_url c url t w rows h given =
    let u = trimmed c t in
    elim (Option-cases (target_error c u)) [
      | inl e ↦ rw (e, create_target) (store_target-any_url c url u w rows h given)
      | inr (error, e) ↦ rw (e, create_target) (λ ok. ground (arith, ok))
    ]

-- The server's own target is there, and every row of it hands out the header.
abbrev pub ScrapesSelf : Packages → Bytes → Bytes → List TargetRow → Type 0
ScrapesSelf c url auth_header rows = (any_url url rows ≡ true) × AllCarry c url auth_header rows

restored-ScrapesSelf :
    (c : Packages) (url plain : Bytes) (rows : List TargetRow) (o : Option Bytes)
    → IsDocumented c
    → encrypt c.encryption c.nonce plain ≡ o
    → any_url url rows ≡ true
    → (restored url rows o).1 ≡ done
    → ScrapesSelf c url plain (restored url rows o).0
unfolding restored
restored-ScrapesSelf c url plain rows none d e there ok = absurd (ground (arith, ok))
restored-ScrapesSelf c url plain rows (some stored) d e there ok =
    (any_url-map url stored rows ∙ there, restored-AllCarry c url plain stored rows d e)

-- When EnsureSelfScrape reports no error, its statements succeeding, the server's own URL is a target,
-- and every target of that URL hands out the header that it was given, through the server's own Encrypt
-- and Decrypt, a rotated secret included. The header is not empty, and neither it nor the URL has space
-- around it. Relied on: base64 and AES-GCM undo what they do, the empty text decodes to nothing, and the
-- nonce has the size that the cipher asks for.
pub ensure_self_scrape-ScrapesSelf :
    (c : Packages) (api_addr auth_header : Bytes) (w : Insert) (rows : List TargetRow)
    → IsDocumented c
    → c.trim_space auth_header ≡ auth_header
    → c.trim_space (self_url api_addr) ≡ self_url api_addr
    → str_eq auth_header [] ≡ false
    → (ensure_self_scrape c api_addr auth_header w rows).1 ≡ done
    → ScrapesSelf c
        (self_url api_addr)
        auth_header
        (ensure_self_scrape c api_addr auth_header w rows).0
unfolding ensure_self_scrape
ensure_self_scrape-ScrapesSelf c api_addr auth_header w rows d plain same given =
    let url = self_url api_addr in
    let t = self_target api_addr auth_header in
    if_cases (λ r. r.1 ≡ done → ScrapesSelf c url auth_header r.0) (any_url url rows)
      (restored url rows (encrypt c.encryption c.nonce auth_header)) (create_target c t w rows)
      (λ there.
        restored-ScrapesSelf c url auth_header rows (encrypt c.encryption c.nonce auth_header) d
          refl there)
      (λ absent ok. (
        create_target-any_url c url t w rows (ap (λ u. str_eq u url) same ∙ str_eq_self url)
            (ap (λ h. str_eq h []) plain ∙ given) ok,
        subst (λ h. AllCarry c url h (create_target c t w rows).0) plain
            (create_target-AllCarry c url t w rows d (ap (λ h. str_eq h []) plain ∙ given)
              (absent-AllCarry c url (c.trim_space auth_header) rows absent)),
      ))
