-- ===== src/Dict/Every.antt =====
-- A property of every entry of a map.
use mathlib.Core.Path.{subst}
use pooml.Base.{arith, Bool, List, [], ◌∷◌, some, ◌≡◌, if_cases, Bool-cases, inl, inr}
use pooml.Dict.{Eq, ◌==◌, lookup, put, delete, drop_where}

module _ {ℓ κ} {K : Type ℓ} {V : Type κ} ⦃e : Eq K⦄ where
  abbrev pub Every : (K → V → Type 0) → List (K × V) → Type 0
  Every P [] = Unit
  Every P ((k, v) ∷ m) = P k v × Every P m

  pub lookup-Every :
      (P : K → V → Type 0) (k : K) (m : List (K × V)) (v : V)
      → lookup k m ≡ some v
      → Every P m
      → P k v
  unfolding lookup
  lookup-Every P k [] v h d = ground (arith, h)
  lookup-Every P k ((j, w) ∷ m) v h d = elim (Bool-cases (j == k)) [
    | inl same ↦
        let key : j ≡ k = (e.beq_iff j k).0 same in
        let value : w ≡ v = ground (arith, h, same) in
        subst (λ i. P i v) key (subst (λ x. P j x) value d.0)
    | inr other ↦ lookup-Every P k m v (ground (arith, h, other)) d.1
  ]

  pub put-Every :
      (P : K → V → Type 0) (k : K) (v : V) (m : List (K × V))
      → P k v
      → Every P m
      → Every P (put k v m)
  unfolding put
  put-Every P k v [] p d = (p, tt)
  put-Every P k v ((j, w) ∷ m) p d =
      if_cases (Every P) (j == k) ((k, v) ∷ m) ((j, w) ∷ put k v m) (λ _. (p, d.1))
        (λ _. (d.0, put-Every P k v m p d.1))

  pub drop_where-Every :
      (P : K → V → Type 0) (stale : K → V → Bool) (m : List (K × V))
      → Every P m
      → Every P (drop_where stale m)
  unfolding drop_where
  drop_where-Every P stale [] d = tt
  drop_where-Every P stale ((j, w) ∷ m) d =
      if_cases (Every P) (stale j w) (drop_where stale m) ((j, w) ∷ drop_where stale m)
        (λ _. drop_where-Every P stale m d.1) (λ _. (d.0, drop_where-Every P stale m d.1))

  pub delete-Every :
      (P : K → V → Type 0) (k : K) (m : List (K × V)) → Every P m → Every P (delete k m)
  unfolding delete
  delete-Every P k [] d = tt
  delete-Every P k ((j, w) ∷ m) d =
      if_cases (Every P) (j == k) (delete k m) ((j, w) ∷ delete k m) (λ _. delete-Every P k m d.1)
        (λ _. (d.0, delete-Every P k m d.1))

  pub Every-mono :
      (P Q : K → V → Type 0) (m : List (K × V))
      → ((k : K) (v : V) → P k v → Q k v)
      → Every P m
      → Every Q m
  Every-mono P Q [] f d = tt
  Every-mono P Q ((j, w) ∷ m) f d = (f j w d.0, Every-mono P Q m f d.1)
