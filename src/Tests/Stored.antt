-- ===== src/Tests/Stored.antt =====
-- Concrete runs of services/settings.go, services/encryption.go,
-- services/retention.go and services/scrapetargets.go.
use pooml.Base.{ℕ, zero, suc, ◌≡◌, refl, true, List, [], ◌∷◌, some, arith}
use pooml.Base.Int.{pos}
use pooml.Bytes.{codes, str_eq}
use pooml.Dict.{lookup}
use pooml.Services.ScrapeTargets
use pooml.Services.ScrapeTargets.SelfScrape
use pooml.Services.Encryption.{Packages, IsDocumented, encrypt}
use pooml.Services.Settings.{
  get, set, ensure_encryption_salt, get-set, ensure_encryption_salt_twice,
}
use pooml.Services.Retention.{Rows, Round, goes_on, delete_expired}
use pooml.Services.Retention.Chunks.{IsDeletion, delete_expired-IsDeletion}

abbrev plain : Packages
plain = record {
  nonce_size = 2;
  seal = λ nonce text. text;
  unseal = λ nonce sealed. some sealed;
  encode = λ b. b;
  decode = λ b. some b;
}

plain-IsDocumented : IsDocumented plain
plain-IsDocumented = record { decode-encode = λ b. refl; unseal-seal = λ nonce text. refl }

get-set_example :
    let after = (set plain (codes "a") (codes "token") true (some (codes "nn")) 3 true []).0 in
    (get plain (codes "a") after ≡ some (codes "token"))
    × (get plain (codes "b") after ≡ get plain (codes "b") [])
get-set_example =
    get-set plain (codes "a") (codes "b") (codes "token") (codes "nn") true 3 [] plain-IsDocumented
      refl (unfold str_eq in refl)

ensure_encryption_salt_twice_example :
    let first = ensure_encryption_salt plain (codes "salt") 3 [] in
    (first.1 ≡ some (codes "salt"))
    × (ensure_encryption_salt plain (codes "other") 4 first.0 ≡ first)
ensure_encryption_salt_twice_example =
    ensure_encryption_salt_twice plain (codes "salt") (codes "other") 3 4 [] plain-IsDocumented
      (unfold lookup in refl)

abbrev table : Rows
table = (1, pos 5) ∷ (2, pos 90) ∷ (3, pos 6) ∷ []

-- Two rows arrive before the first round, one of them expired.
abbrev busy : ℕ → Round
busy zero = record { arrived = (4, pos 7) ∷ (5, pos 95) ∷ []; outcome = goes_on }
busy (suc i) = record { arrived = []; outcome = goes_on }

two_left : (delete_expired busy (pos 50) 4 0 0 table).rows ≡ (2, pos 90) ∷ (5, pos 95) ∷ []
unfolding delete_expired
two_left = refl

delete_expired-IsDeletion_example :
    IsDeletion busy (pos 50) 0 0 table (delete_expired busy (pos 50) 4 0 0 table)
delete_expired-IsDeletion_example =
    delete_expired-IsDeletion busy (pos 50) 4 0 0 table (omega arith)

-- The encryption of the tests, with a nonce of its size
abbrev scraping : ScrapeTargets.Packages
scraping = record {
  trim_space = λ s. s;
  url_parse = λ s. some (codes "http", codes "self");
  encryption = plain;
  nonce = some (codes "nn");
}

scraping-IsDocumented : SelfScrape.IsDocumented scraping
scraping-IsDocumented = record {
  undone = plain-IsDocumented;
  empty = refl;
  sized = λ nonce e. ground (arith, e);
  positive = omega arith;
}

abbrev first_insert : ScrapeTargets.Insert
first_insert = record { id = some 1; now = 3 }

-- The target of the first start, with an older secret
abbrev older : List ScrapeTargets.TargetRow
older =
    ScrapeTargets.new_row (ScrapeTargets.self_target (codes "a") (codes "K: 1"))
      (some (codes "mmK: 1")) true 1 3
    ∷ []

ensure_self_scrape-ScrapesSelf_example :
    SelfScrape.ScrapesSelf scraping
      (ScrapeTargets.self_url (codes "a"))
      (codes "K: 2")
      (ScrapeTargets.ensure_self_scrape scraping (codes "a") (codes "K: 2") first_insert older).0
unfolding ScrapeTargets.ensure_self_scrape encrypt str_eq
ensure_self_scrape-ScrapesSelf_example =
    SelfScrape.ensure_self_scrape-ScrapesSelf scraping (codes "a") (codes "K: 2") first_insert older
      scraping-IsDocumented refl refl refl refl
