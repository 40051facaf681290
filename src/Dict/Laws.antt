-- ===== src/Dict/Laws.antt =====
-- The laws of the map operations. Keys of a map are distinct.
use pooml.Base.{
  ◌+◌, ◌≤◌, Bool, true, List, [], ◌∷◌, Option, none, some, ◌≡◌, refl, arith, if◌then◌else◌, length,
}
use pooml.Dict.{Eq, ◌==◌, is_some, lookup, put, delete, drop_where}

module _ {ℓ κ} {K : Type ℓ} {V : Type κ} ⦃e : Eq K⦄ where
  abbrev pub Distinct : List (K × V) → Type κ
  Distinct [] = Unit
  Distinct ((j, v) ∷ m) = (lookup j m ≡ none) × Distinct m

  pub lookup-put :
      (k j : K) (v : V) (m : List (K × V))
      → lookup j (put k v m) ≡ (if k == j then some v else lookup j m)
  unfolding lookup put
  lookup-put k j v [] = refl
  lookup-put k j v ((i, w) ∷ m) =
      ground (arith, e.beq_iff k j, e.beq_iff i k, e.beq_iff i j, lookup-put k j v m)

  pub lookup-delete :
      (k j : K) (m : List (K × V)) → lookup j (delete k m) ≡ (if k == j then none else lookup j m)
  unfolding lookup delete
  lookup-delete k j [] = ground arith
  lookup-delete k j ((i, w) ∷ m) =
      ground (arith, e.beq_iff k j, e.beq_iff i k, e.beq_iff i j, lookup-delete k j m)

  pub length-put :
      (k : K) (v : V) (m : List (K × V))
      → length (put k v m) ≡ (if is_some (lookup k m) then length m else length m + 1)
  unfolding lookup put
  length-put k v [] = refl
  length-put k v ((i, w) ∷ m) = ground (arith, length-put k v m)

  pub delete_absent : (k : K) (m : List (K × V)) → lookup k m ≡ none → delete k m ≡ m
  unfolding lookup delete
  delete_absent k [] h = refl
  delete_absent k ((i, w) ∷ m) h = ground (arith, delete_absent k m)

  pub length-delete_le : (k : K) (m : List (K × V)) → length (delete k m) ≤ length m
  unfolding delete
  length-delete_le k [] = omega arith
  length-delete_le k ((i, w) ∷ m) = ground (arith, length-delete_le k m)

  pub length-delete :
      (k : K) (m : List (K × V))
      → Distinct m
      → is_some (lookup k m) ≡ true
      → length (delete k m) + 1 ≡ length m
  unfolding lookup delete
  length-delete k [] d h = ground arith
  length-delete k ((i, w) ∷ m) d h =
      ground (arith, e.beq_iff i k, length-delete k m d.1, delete_absent k m)

  pub put-Distinct : (k : K) (v : V) (m : List (K × V)) → Distinct m → Distinct (put k v m)
  unfolding lookup put
  put-Distinct k v [] d = (refl, tt)
  put-Distinct k v ((i, w) ∷ m) d =
      ground (arith, e.beq_iff i k, e.beq_iff k i, put-Distinct k v m d.1, lookup-put k i v m)

  pub delete-Distinct : (k : K) (m : List (K × V)) → Distinct m → Distinct (delete k m)
  unfolding delete
  delete-Distinct k [] d = tt
  delete-Distinct k ((i, w) ∷ m) d =
      ground (arith, e.beq_iff i k, e.beq_iff k i, delete-Distinct k m d.1, lookup-delete k i m)

  pub drop_where_absent :
      (p : K → V → Bool) (k : K) (m : List (K × V))
      → lookup k m ≡ none
      → lookup k (drop_where p m) ≡ none
  unfolding lookup drop_where
  drop_where_absent p k [] h = refl
  drop_where_absent p k ((i, w) ∷ m) h = ground (arith, drop_where_absent p k m)

  pub drop_where-Distinct :
      (p : K → V → Bool) (m : List (K × V)) → Distinct m → Distinct (drop_where p m)
  unfolding drop_where
  drop_where-Distinct p [] d = tt
  drop_where-Distinct p ((i, w) ∷ m) d =
      ground (arith, drop_where-Distinct p m d.1, drop_where_absent p i m)

  abbrev pub kept : (K → V → Bool) → K → Option V → Option V
  kept p k none = none
  kept p k (some v) = if p k v then none else some v

  pub lookup-drop_where :
      (p : K → V → Bool) (k : K) (m : List (K × V))
      → Distinct m
      → lookup k (drop_where p m) ≡ kept p k (lookup k m)
  unfolding lookup drop_where
  lookup-drop_where p k [] d = refl
  lookup-drop_where p k ((i, w) ∷ m) d =
      ground (arith, e.beq_iff i k, lookup-drop_where p k m d.1, drop_where_absent p k m)

  pub length-drop_where : (p : K → V → Bool) (m : List (K × V)) → length (drop_where p m) ≤ length m
  unfolding drop_where
  length-drop_where p [] = omega arith
  length-drop_where p ((i, w) ∷ m) = ground (arith, length-drop_where p m)
