-- ===== src/Metrics/Writer.antt =====
-- `tryFlush` and the INSERT of `flush` of metrics/pipeline.go. Which INSERTs succeed is an argument, by
-- their number; one that fails stores nothing.
use mathlib.Core.List.{append_assoc, append-nil}
use pooml.Base.{
  ℕ, zero, suc, ◌+◌, ◌*◌, ◌<◌, ◌≡◌, refl, sym, ap, ◌∙◌, ◌⊎◌, inl, inr, Bool, true, false, List, [],
  ◌∷◌, ◌++◌, if◌then◌else◌, length, take, drop, take-append-drop, length-drop, take-add, drop-add,
  arith, Bool-cases,
}
use pooml.Bytes.{Bytes, codes}
use pooml.Sql.{value_groups}

abbrev pub batch_size : ℕ
batch_size = 500

abbrev pub insert_prefix : Bytes
insert_prefix = codes "INSERT INTO metrics(timestamp,name,type,value,service,host,labels) VALUES "

-- The statement for so many rows
pub flush_query : ℕ → Bytes
flush_query n = insert_prefix ++ value_groups (codes "(?,?,?,?,?,?,?)") n

-- The INSERTs from the number `i` on, so many of them, succeed.
abbrev pub AllSucceed : (ℕ → Bool) → ℕ → ℕ → Type 0
AllSucceed succeeds i zero = Unit
AllSucceed succeeds i (suc k) = (succeeds i ≡ true) × AllSucceed succeeds (suc i) k

module _ {Row : Type 0} (succeeds : ℕ → Bool) where
  -- The loop of `tryFlush`, from the INSERT number `i` on: the buffer, and the rows stored, that it
  -- leaves.
  unfoldable pub try_flush : ℕ → ℕ → List Row → List Row → List Row × List Row
  try_flush zero i buf stored = (buf, stored)
  try_flush (suc fuel) i [] stored = ([], stored)
  try_flush (suc fuel) i (r ∷ buf) stored =
      let flushed =
        try_flush fuel (suc i) (drop batch_size (r ∷ buf)) (stored ++ take batch_size (r ∷ buf)) in
      if succeeds i then flushed else (r ∷ buf, stored)

  -- What a flush comes to: so many batches of 500 were inserted, the one attempted behind them failed
  -- unless nothing is left.
  pub record IsFlush (i : ℕ) (buf stored : List Row) (after : List Row × List Row) : Type 0 where
    pub batches : ℕ
    pub succeeded : AllSucceed succeeds i batches
    pub inserted : after.1 ≡ stored ++ take (batches * batch_size) buf
    pub left : after.0 ≡ drop (batches * batch_size) buf
    pub stopped : (after.0 ≡ []) ⊎ (succeeds (i + batches) ≡ false)

  more_batches :
      (i : ℕ) (buf stored : List Row) (after : List Row × List Row)
      → succeeds i ≡ true
      → IsFlush (suc i) (drop batch_size buf) (stored ++ take batch_size buf) after
      → IsFlush i buf stored after
  more_batches i buf stored after e f = record {
    batches = suc f.batches;
    succeeded = (e, f.succeeded);
    inserted =
        f.inserted
        ∙ append_assoc stored (take batch_size buf) _
        ∙ ap (λ rows. stored ++ rows) (sym (take-add batch_size (f.batches * batch_size) buf))
        ∙ ap (λ n. stored ++ take n buf) count;
    left =
        f.left
        ∙ sym (drop-add batch_size (f.batches * batch_size) buf)
        ∙ ap (λ n. drop n buf) count;
    stopped = ground (arith, f.stopped);
  }
    where
      count : batch_size + f.batches * batch_size ≡ suc f.batches * batch_size
      count = omega arith

  try_flush-IsFlush :
      (fuel i : ℕ) (buf stored : List Row)
      → length buf < fuel
      → IsFlush i buf stored (try_flush fuel i buf stored)
  unfolding try_flush
  try_flush-IsFlush zero i buf stored h = absurd (omega arith)
  try_flush-IsFlush (suc fuel) i [] stored h = record {
    batches = 0;
    succeeded = tt;
    inserted = sym (append-nil stored);
    left = refl;
    stopped = inl refl;
  }
  try_flush-IsFlush (suc fuel) i (r ∷ buf) stored h = elim (Bool-cases (succeeds i)) [
    | inr e ↦
        rw (e, try_flush)
          (record {
            batches = 0;
            succeeded = tt;
            inserted = sym (append-nil stored);
            left = refl;
            stopped = inr (ground (arith, e));
          })
    | inl e ↦
        rw (e, try_flush)
          (more_batches i (r ∷ buf) stored _ e (
            try_flush-IsFlush fuel (suc i) (drop batch_size (r ∷ buf))
              (stored ++ take batch_size (r ∷ buf))
              (omega (arith, h, length-drop batch_size (r ∷ buf)))))
  ]

  -- With more fuel than rows the loop ends by itself. It has stored so many batches of 500, in their
  -- order, whose INSERTs all succeeded, and keeps the rows behind them; rows stay only if the INSERT
  -- of the next batch, the last one attempted, failed. No row is lost: the rows stored, followed by
  -- those that stay, are the ones stored before and the buffer.
  pub try_flush_lem :
      (fuel i : ℕ) (buf stored : List Row)
      → length buf < fuel
      → let after = try_flush fuel i buf stored in
        (after.1 ++ after.0 ≡ stored ++ buf) × IsFlush i buf stored after
  try_flush_lem fuel i buf stored h =
      let f = try_flush-IsFlush fuel i buf stored h in
      (
        rw (f.inserted, f.left, append_assoc)
            (ap (λ rows. stored ++ rows) (take-append-drop (f.batches * batch_size) buf)),
        f,
      )
