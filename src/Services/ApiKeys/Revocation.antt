-- ===== src/Services/ApiKeys/Revocation.antt =====
-- Revoke of services/apikeys.go: once it has returned, no call of Verify accepts a key of its id,
-- those included that were on their way before.
use pooml.Base.{
  ℕ, ◌≡◌, ap, ◌∙◌, Bool, true, false, List, [], ◌∷◌, Option, none, get_elem?, if_cases, arith,
}
use pooml.Base.Int.{ℤ, pos}
use pooml.Bytes.{Bytes}
use pooml.Dict.{bytes_eq, is_some, lookup, drop_where}
use pooml.Dict.Laws.{lookup-put, lookup-delete}
use pooml.Dict.Every.{Every}
use pooml.Services.ApiKeys.{
  int_beq, int_beq_iff, int_eq, KeyRow, Verify, Service, Inserted, failed, unread, stored, Action,
  insert_key, start, start_parsed, advance, store, delete_row, names_id, purge, work_on, step, run,
  answers, verify, work, unlock, revoke_row, revoke_cached, mint, new_api_keys_service,
}
use pooml.Services.ApiKeys.Format.{Stdlib}
use pooml.Services.ApiKeys.Accepted.{
  create-Keeps, run-IsSound, new-IsSound, delete_row-IsSound, purge-IsSound,
}
use pooml.Services.ApiKeys.Gone.{
  inserts_other, mints_other, NotReused, AllRefused, OtherId, holds_other, IsGone,
  answers-AllRefused,
}

module _ (c : Stdlib) (id : ℤ) where
  -- Verify leaves the table as it is.
  start-rows : (key : Bytes) (s : Service) → (start c key s).0.rows ≡ s.rows
  unfolding start start_parsed
  start-rows key s = ground arith

  work_on-rows :
      (i : ℕ) (ok : Bool) (o : Option Verify) (s : Service) → (work_on c i ok o s).0.rows ≡ s.rows
  unfolding work_on advance
  work_on-rows i ok o s = ground arith

  store-rows : (o : Option (Bytes × ℤ)) (s : Service) → (store c o s).0.rows ≡ s.rows
  unfolding store
  store-rows o s = ground arith

  purge-rows : (j : ℤ) (s : Service) → (purge j s).rows ≡ s.rows
  unfolding purge
  purge-rows j s = ground arith

  insert_key-RowGone :
      (secret : Bytes) (row : KeyRow) (o : Inserted) (s : Service)
      → inserts_other id o ≡ true
      → lookup id s.rows ≡ none
      → lookup id (insert_key secret row o s).0.rows ≡ none
  insert_key-RowGone secret row failed s other h = h
  insert_key-RowGone secret row (unread n) s other h =
      lookup-put (pos n) id row s.rows ∙ ground (arith, other, h)
  insert_key-RowGone secret row (stored n) s other h =
      lookup-put (pos n) id row s.rows ∙ ground (arith, other, h)

  delete_row-RowGone :
      (j : ℤ) (ok : Bool) (s : Service)
      → lookup id s.rows ≡ none
      → lookup id (delete_row j ok s).rows ≡ none
  unfolding delete_row
  delete_row-RowGone j true s h = lookup-delete j id s.rows ∙ ground (arith, h)
  delete_row-RowGone j false s h = h

  step-RowGone :
      (a : Action) (s : Service)
      → mints_other id a ≡ true
      → lookup id s.rows ≡ none
      → lookup id (step c a s).0.rows ≡ none
  unfolding step
  step-RowGone (verify key) s other h = ap (lookup id) (start-rows key s) ∙ h
  step-RowGone (work i ok) s other h =
      ap (lookup id) (work_on-rows i ok (get_elem? s.calls i) s) ∙ h
  step-RowGone unlock s other h = ap (lookup id) (store-rows s.holder s) ∙ h
  step-RowGone (revoke_row j ok) s other h = delete_row-RowGone j ok s h
  step-RowGone (revoke_cached j) s other h = ap (lookup id) (purge-rows j s) ∙ h
  step-RowGone (mint m) s other h =
      create-Keeps c (λ t. lookup id t.rows ≡ none) m s h
        (λ secret row. insert_key-RowGone secret row m.inserted s other h)

  run-RowGone :
      (actions : List Action) (s : Service)
      → NotReused id actions
      → lookup id s.rows ≡ none
      → lookup id (run c actions s).rows ≡ none
  unfolding run
  run-RowGone [] s other h = h
  run-RowGone (a ∷ actions) s other h =
      run-RowGone actions (step c a s).0 other.1 (step-RowGone a s other.0 h)

  dropped-OtherId : (m : List (Bytes × ℤ)) → Every (OtherId id) (drop_where (names_id id) m)
  unfolding drop_where
  dropped-OtherId [] = tt
  dropped-OtherId ((digest, j) ∷ m) =
      if_cases (Every (OtherId id)) (int_beq j id) (drop_where (names_id id) m)
        ((digest, j) ∷ drop_where (names_id id) m) (λ _. dropped-OtherId m)
        (λ other. (other, dropped-OtherId m))

  purged-IsGone :
      (s : Service) → lookup id s.rows ≡ none → is_some s.holder ≡ false → IsGone id (purge id s)
  unfolding purge
  purged-IsGone s gone free =
      let hold : holds_other id s.holder ≡ true = ground (arith, free) in
      rw (free, purge) (record { row = gone; cache = dropped-OtherId s.verified; hold = hold })

  deleted-RowGone : (s : Service) → lookup id (delete_row id true s).rows ≡ none
  unfolding delete_row
  deleted-RowGone s = lookup-delete id id s.rows ∙ ground (arith, int_beq_iff id id)

-- The state in which Revoke of an id is about to take the lock, after any schedule before it and any
-- between its DELETE and the lock.
unfoldable pub revoking : Stdlib → ℤ → List Action → List Action → Service
unfolding run delete_row
revoking c id before mid = run c mid (delete_row id true (run c before new_api_keys_service))

-- Once Revoke has returned, no call of Verify accepts a key of its id, under any schedule before,
-- during and after it, calls included that passed argon2 before the revocation. The database may not
-- give the id to a new row after the DELETE, and no two keys may share a digest.
pub revoke-AllRefused :
    (c : Stdlib) (id : ℤ) (before mid later : List Action)
    → ((a b : Bytes) → c.sha256 a ≡ c.sha256 b → a ≡ b)
    → NotReused id mid
    → NotReused id later
    → is_some (revoking c id before mid).holder ≡ false
    → AllRefused id (answers c later (purge id (revoking c id before mid)))
unfolding revoking
revoke-AllRefused c id before mid later inj in_mid in_later free =
    let start = run c before new_api_keys_service in
    let first = run-IsSound c inj before new_api_keys_service (new-IsSound c) in
    let sound =
      run-IsSound c inj mid (delete_row id true start) (delete_row-IsSound c id true start first) in
    let gone =
      run-RowGone c id mid (delete_row id true start) in_mid (deleted-RowGone c id start) in
    let s = run c mid (delete_row id true start) in
    answers-AllRefused c id inj later (purge id s) (purge-IsSound c id s sound) in_later
      (purged-IsGone c id s gone free)
