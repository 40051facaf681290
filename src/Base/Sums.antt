-- ===== src/Base/Sums.antt =====
-- Removing an element of a list, and sums over lists from which one is removed or replaced.
use pooml.Base.{
  Bool, true, false, ℕ, zero, suc, ◌+◌, ◌≡◌, List, [], ◌∷◌, ◌++◌, some, get_elem?, set, arith,
}

abbrev pub remove {ℓ} : {A : Type ℓ} → List A → ℕ → List A
remove [] i = []
remove (x ∷ xs) zero = xs
remove (x ∷ xs) (suc i) = x ∷ remove xs i

abbrev pub is_nil {ℓ} : {A : Type ℓ} → List A → Bool
is_nil [] = true
is_nil (x ∷ xs) = false

module _ {ℓ} {A : Type ℓ} where
  abbrev pub sum : (A → ℕ) → List A → ℕ
  sum f [] = 0
  sum f (x ∷ xs) = f x + sum f xs

  pub sum-append : (f : A → ℕ) (xs ys : List A) → sum f (xs ++ ys) ≡ sum f xs + sum f ys
  sum-append f [] ys = omega arith
  sum-append f (x ∷ xs) ys = omega (arith, sum-append f xs ys)

  pub sum-remove :
      (f : A → ℕ) (xs : List A) (i : ℕ) (x : A)
      → get_elem? xs i ≡ some x
      → sum f (remove xs i) + f x ≡ sum f xs
  sum-remove f [] i x h = cc
  sum-remove f (y ∷ xs) zero x h = ground arith
  sum-remove f (y ∷ xs) (suc i) x h = omega (arith, sum-remove f xs i x h)

  pub sum-set :
      (f : A → ℕ) (xs : List A) (i : ℕ) (x y : A)
      → get_elem? xs i ≡ some x
      → sum f (set xs i y) + f x ≡ sum f xs + f y
  sum-set f [] i x y h = cc
  sum-set f (z ∷ xs) zero x y h = ground arith
  sum-set f (z ∷ xs) (suc i) x y h = omega (arith, sum-set f xs i x y h)
