-- ===== src/Services/ScrapeTargets.antt =====
-- services/scrapetargets.go: the table of scrape targets. `url.Parse`, `strings.TrimSpace`, the clock
-- and the outcome of the statements are arguments; the encryption is that of Services.Encryption.
pub mod SelfScrape
use pooml.Base.{
  ℕ, Bool, true, false, not, ◌&&◌, ◌||◌, List, [], ◌∷◌, ◌++◌, Option, none, some, ltb, ◌==◌,
  if◌then◌else◌, map, length,
}
use pooml.Base.Int.{ℤ}
use pooml.Bytes.{Bytes, codes, str_eq}
use pooml.Services.Encryption
use pooml.Services.Encryption.{encrypt, decrypt}

abbrev pub min_scrape_interval_ms : ℕ
min_scrape_interval_ms = 30000

abbrev pub max_scrape_interval_ms : ℕ
max_scrape_interval_ms = 3600000

-- What a caller of Create gives; intervals are not negative here, as the form reads them.
pub record ScrapeTarget : Type 0 where
  pub service : Bytes
  pub host : Bytes
  pub url : Bytes
  pub auth_header : Bytes
  pub scrape_interval_ms : ℕ
  pub enabled : Bool

-- A row of `scrape_targets`; `auth_header` is as it is stored.
pub record TargetRow : Type 0 where
  pub id : ℕ
  pub service : Bytes
  pub host : Bytes
  pub url : Bytes
  pub auth_header : Option Bytes
  pub is_auth_encrypted : Bool
  pub scrape_interval_ms : ℕ
  pub enabled : Bool
  pub last_scraped_at : Option ℤ
  pub last_error : Option Bytes
  pub last_error_at : Option ℤ
  pub created_at : ℕ

-- The scheme and the host that `url.Parse` finds.
pub record Packages : Type 0 where
  pub trim_space : Bytes → Bytes
  pub url_parse : Bytes → Option (Bytes × Bytes)
  pub encryption : Encryption.Packages
  pub nonce : Option Bytes  -- the random bytes of this call's `Encrypt`, `none` where there are none

-- The errors of `validateScrapeTarget`.
pub data TargetError : Type 0 where
  bad_service bad_host bad_url bad_auth too_often too_seldom : TargetError

unfoldable pub trimmed : Packages → ScrapeTarget → ScrapeTarget
trimmed c t = record t {
  service = c.trim_space t.service;
  host = c.trim_space t.host;
  url = c.trim_space t.url;
  auth_header = c.trim_space t.auth_header;
}

abbrev pub bad_length : ℕ → Bytes → Bool
bad_length max s = str_eq s [] || ltb max (length s)

abbrev pub good_url : Option (Bytes × Bytes) → Bool
good_url none = false
good_url (some (scheme, host)) =
    (str_eq scheme (codes "http") || str_eq scheme (codes "https")) && not (str_eq host [])

-- `strings.Contains` of one character
unfoldable pub contains : ℕ → Bytes → Bool
contains c [] = false
contains c (x ∷ s) = let rest = contains c s in x == c || rest

-- The tests of `validateScrapeTarget` on a trimmed target.
unfoldable pub target_error : Packages → ScrapeTarget → Option TargetError
unfolding contains
target_error c t =
    if bad_length 200 t.service
    then some bad_service
    else if bad_length 200 t.host
    then some bad_host
    else if not (good_url (c.url_parse t.url))
    then some bad_url
    else if not (str_eq t.auth_header []) && not (contains b':' t.auth_header)
    then some bad_auth
    else if ltb t.scrape_interval_ms min_scrape_interval_ms
    then some too_often
    else if ltb max_scrape_interval_ms t.scrape_interval_ms
    then some too_seldom
    else none

-- How the statements that change the table end.
pub data Outcome : Type 0 where
  done : Outcome
  invalid : TargetError → Outcome
  not_found : Outcome
  failed : Outcome

-- The INSERT: the id it gives, `none` where it fails, and the clock.
pub record Insert : Type 0 where
  pub id : Option ℕ
  pub now : ℕ

abbrev pub new_row : ScrapeTarget → Option Bytes → Bool → ℕ → ℕ → TargetRow
new_row t auth encrypted id now = record {
  id = id;
  service = t.service;
  host = t.host;
  url = t.url;
  auth_header = auth;
  is_auth_encrypted = encrypted;
  scrape_interval_ms = t.scrape_interval_ms;
  enabled = t.enabled;
  last_scraped_at = none;
  last_error = none;
  last_error_at = none;
  created_at = now;
}

unfoldable pub insert_target :
    ScrapeTarget → Option Bytes → Bool → Insert → List TargetRow → List TargetRow × Outcome
insert_target t auth encrypted w rows = elim w.id [
  | none ↦ (rows, failed)
  | some id ↦ (rows ++ new_row t auth encrypted id w.now ∷ [], done)
]

-- `Create` behind its validation. An encrypted header that is empty would be stored as NULL; it
-- never is.
unfoldable pub store_target :
    Packages → ScrapeTarget → Insert → List TargetRow → List TargetRow × Outcome
unfolding insert_target
store_target c t w rows =
    if str_eq t.auth_header []
    then insert_target t none false w rows
    else elim (encrypt c.encryption c.nonce t.auth_header) [
      | none ↦ (rows, failed)
      | some [] ↦ insert_target t none true w rows
      | some (x ∷ s) ↦ insert_target t (some (x ∷ s)) true w rows
    ]

unfoldable pub create_valid :
    Packages
    → Option TargetError
    → ScrapeTarget
    → Insert
    → List TargetRow
    → List TargetRow × Outcome
unfolding store_target
create_valid c none t w rows = store_target c t w rows
create_valid c (some e) t w rows = (rows, invalid e)

unfoldable pub create_target :
    Packages → ScrapeTarget → Insert → List TargetRow → List TargetRow × Outcome
unfolding create_valid target_error trimmed
create_target c t w rows = let u = trimmed c t in create_valid c (target_error c u) u w rows

unfoldable pub any_id : ℕ → List TargetRow → Bool
any_id id [] = false
any_id id (r ∷ rows) = let rest = any_id id rows in r.id == id || rest

-- `SetEnabled`, of an UPDATE that succeeds
unfoldable pub set_enabled : ℕ → Bool → List TargetRow → List TargetRow × Outcome
unfolding any_id
set_enabled id enabled rows = (
  map (λ r. if r.id == id then record r { enabled = enabled } else r) rows,
  if any_id id rows then done else not_found,
)

-- `Delete`, of a DELETE that succeeds
unfoldable pub delete_target : ℕ → List TargetRow → List TargetRow
delete_target id [] = []
delete_target id (r ∷ rows) =
    let rest = delete_target id rows in if r.id == id then rest else r ∷ rest

abbrev pub error_at : Option Bytes → ℤ → Option ℤ
error_at none at = none
error_at (some e) at = some at

unfoldable pub record_scrape : ℕ → ℤ → Option Bytes → List TargetRow → List TargetRow
record_scrape id scraped_at err rows =
    map
      (λ r.
        if r.id == id
        then record r {
          last_scraped_at = some scraped_at;
          last_error = err;
          last_error_at = error_at err scraped_at;
        }
        else r)
      rows

-- The header that `scanTarget` hands out; `none` is its error.
unfoldable pub scan_auth : Packages → TargetRow → Option Bytes
scan_auth c r = elim r.auth_header [
  | none ↦ some []
  | some [] ↦ some []
  | some (x ∷ s) ↦ if r.is_auth_encrypted then decrypt c.encryption (x ∷ s) else some (x ∷ s)
]

abbrev pub self_url : Bytes → Bytes
self_url api_addr = codes "http://" ++ (api_addr ++ codes "/metrics")

abbrev pub self_target : Bytes → Bytes → ScrapeTarget
self_target api_addr auth_header = record {
  service = codes "pooml";
  host = codes "self";
  url = self_url api_addr;
  auth_header = auth_header;
  scrape_interval_ms = min_scrape_interval_ms;
  enabled = true;
}

unfoldable pub any_url : Bytes → List TargetRow → Bool
any_url url [] = false
any_url url (r ∷ rows) = let rest = any_url url rows in str_eq r.url url || rest

abbrev pub restore_auth : Bytes → Bytes → TargetRow → TargetRow
restore_auth url stored r =
    if str_eq r.url url then record r { auth_header = some stored; is_auth_encrypted = true } else r

-- The UPDATE of `EnsureSelfScrape`, of what `Encrypt` returns.
unfoldable pub restored : Bytes → List TargetRow → Option Bytes → List TargetRow × Outcome
restored url rows none = (rows, failed)
restored url rows (some stored) = (map (restore_auth url stored) rows, done)

-- `EnsureSelfScrape`, whose statements succeed
unfoldable pub ensure_self_scrape :
    Packages → Bytes → Bytes → Insert → List TargetRow → List TargetRow × Outcome
unfolding any_url create_target restored
ensure_self_scrape c api_addr auth_header w rows =
    let url = self_url api_addr in
    let updated = restored url rows (encrypt c.encryption c.nonce auth_header) in
    let made = create_target c (self_target api_addr auth_header) w rows in
    if any_url url rows then updated else made
