-- ===== src/Services/Retention/Expired.antt =====
-- What one DELETE of services/retention.go takes and what it leaves.
use pooml.Base.{
  ℕ, zero, suc, ◌+◌, ◌≤◌, ◌<◌, ◌≡◌, refl, ap, [], ◌∷◌, ◌++◌, if◌then◌else◌, length, arith,
}
use pooml.Base.Int.{ℤ}
use pooml.Services.Retention.{Rows, delete_chunk, is_expired}

-- The rows that are not expired.
abbrev pub fresh : ℤ → Rows → Rows
fresh limit [] = []
fresh limit (row ∷ rows) =
    let rest = fresh limit rows in if is_expired limit row then rest else row ∷ rest

pub fresh-delete_chunk :
    (limit : ℤ) (n : ℕ) (rows : Rows) → fresh limit (delete_chunk limit n rows) ≡ fresh limit rows
unfolding delete_chunk
fresh-delete_chunk limit n [] = refl
fresh-delete_chunk limit zero (row ∷ rows) = refl
fresh-delete_chunk limit (suc n) (row ∷ rows) =
    ground (arith, fresh-delete_chunk limit n rows, fresh-delete_chunk limit (suc n) rows)

pub length-delete_chunk :
    (limit : ℤ) (n : ℕ) (rows : Rows) → length (delete_chunk limit n rows) ≤ length rows
unfolding delete_chunk
length-delete_chunk limit n [] = omega arith
length-delete_chunk limit zero (row ∷ rows) = omega arith
length-delete_chunk limit (suc n) (row ∷ rows) =
    ground (arith, length-delete_chunk limit n rows, length-delete_chunk limit (suc n) rows)

-- A chunk that is not full leaves no expired row.
pub delete_chunk_all :
    (limit : ℤ) (n : ℕ) (rows : Rows)
    → length rows < length (delete_chunk limit n rows) + n
    → delete_chunk limit n rows ≡ fresh limit rows
unfolding delete_chunk
delete_chunk_all limit n [] h = refl
delete_chunk_all limit zero (row ∷ rows) h = absurd (omega arith)
delete_chunk_all limit (suc n) (row ∷ rows) h =
    ground (arith, h, delete_chunk_all limit n rows, delete_chunk_all limit (suc n) rows)

pub fresh-append :
    (limit : ℤ) (xs ys : Rows) → fresh limit (xs ++ ys) ≡ fresh limit xs ++ fresh limit ys
fresh-append limit [] ys = refl
fresh-append limit (row ∷ xs) ys = ground (arith, fresh-append limit xs ys)

-- How many rows are expired.
abbrev pub expired : ℤ → Rows → ℕ
expired limit [] = 0
expired limit (row ∷ rows) =
    let rest = expired limit rows in if is_expired limit row then rest + 1 else rest

pub expired-append :
    (limit : ℤ) (xs ys : Rows) → expired limit (xs ++ ys) ≡ expired limit xs + expired limit ys
expired-append limit [] ys = omega arith
expired-append limit (row ∷ xs) ys = ground (arith, expired-append limit xs ys)

pub expired-fresh :
    (limit : ℤ) (rows : Rows) → expired limit rows + length (fresh limit rows) ≡ length rows
expired-fresh limit [] = omega arith
expired-fresh limit (row ∷ rows) = ground (arith, expired-fresh limit rows)

-- A chunk deletes expired rows only.
pub expired-delete_chunk :
    (limit : ℤ) (n : ℕ) (rows : Rows)
    → let left = delete_chunk limit n rows in
      expired limit left + length rows ≡ expired limit rows + length left
expired-delete_chunk limit n rows =
    let left = delete_chunk limit n rows in
    let same : length (fresh limit left) ≡ length (fresh limit rows) =
      ap length (fresh-delete_chunk limit n rows) in
    omega (arith, same, expired-fresh limit left, expired-fresh limit rows)

-- A chunk deletes no more rows than its size.
pub delete_chunk-bounded :
    (limit : ℤ) (n : ℕ) (rows : Rows) → length rows ≤ length (delete_chunk limit n rows) + n
unfolding delete_chunk
delete_chunk-bounded limit n [] = omega arith
delete_chunk-bounded limit zero (row ∷ rows) = omega arith
delete_chunk-bounded limit (suc n) (row ∷ rows) =
    ground (arith, delete_chunk-bounded limit n rows, delete_chunk-bounded limit (suc n) rows)
