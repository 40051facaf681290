-- ===== src/Sql.antt =====
-- The text of a multi-row INSERT, as ingestion/pipeline.go and metrics/pipeline.go build it with
-- `strings.Repeat` and `strings.TrimSuffix`.
use mathlib.Core.List.{append_assoc}
use pooml.Base.{
  ℕ, zero, suc, ◌+◌, ◌*◌, false, ◌≡◌, refl, ap, ◌∙◌, [], ◌∷◌, ◌++◌, ◌==◌, if◌then◌else◌, arith,
}
use pooml.Bytes.{Bytes}

-- `strings.Repeat`
unfoldable pub repeat : Bytes → ℕ → Bytes
repeat s zero = []
repeat s (suc n) = s ++ repeat s n

-- `strings.TrimSuffix` with a suffix of one byte
unfoldable pub trim_suffix : Bytes → ℕ → Bytes
trim_suffix [] c = []
trim_suffix (x ∷ []) c = if x == c then [] else x ∷ []
trim_suffix (x ∷ y ∷ s) c = x ∷ trim_suffix (y ∷ s) c

-- The values of one row's group, and the comma behind it.
unfoldable pub value_groups : Bytes → ℕ → Bytes
unfolding repeat trim_suffix
value_groups group n = trim_suffix (repeat (group ++ b',' ∷ []) n) b','

-- `n` groups with a comma between any two.
unfoldable pub comma_separated : Bytes → ℕ → Bytes
comma_separated group zero = []
comma_separated group (suc zero) = group
comma_separated group (suc (suc n)) = group ++ b',' ∷ comma_separated group (suc n)

abbrev pub count : ℕ → Bytes → ℕ
count c [] = 0
count c (x ∷ s) = (if x == c then 1 else 0) + count c s

pub count-append : (c : ℕ) (s t : Bytes) → count c (s ++ t) ≡ count c s + count c t
count-append c [] t = omega arith
count-append c (x ∷ s) t = omega (arith, count-append c s t)

trim_suffix-append :
    (s t : Bytes) (x c : ℕ) → trim_suffix (s ++ x ∷ t) c ≡ s ++ trim_suffix (x ∷ t) c
unfolding trim_suffix
trim_suffix-append [] t x c = refl
trim_suffix-append (y ∷ []) t x c = refl
trim_suffix-append (y ∷ z ∷ s) t x c = ap (◌∷◌ y) (trim_suffix-append (z ∷ s) t x c)

groups_more :
    (g : ℕ) (group : Bytes) (n : ℕ)
    → trim_suffix (repeat ((g ∷ group) ++ b',' ∷ []) (suc n)) b','
      ≡ comma_separated (g ∷ group) (suc n)
unfolding repeat comma_separated trim_suffix
groups_more g group zero =
    ap (λ s. trim_suffix s b',') (append_assoc (g ∷ group) (b',' ∷ []) [])
    ∙ trim_suffix-append (g ∷ group) [] b',' b','
    ∙ append_nil_lem (g ∷ group)
  where
    append_nil_lem : (s : Bytes) → s ++ [] ≡ s
    append_nil_lem [] = refl
    append_nil_lem (x ∷ s) = ap (◌∷◌ x) (append_nil_lem s)
groups_more g group (suc n) =
    ap (λ s. trim_suffix s b',') (append_assoc (g ∷ group) (b',' ∷ []) _)
    ∙ trim_suffix-append (g ∷ group) _ b',' b','
    ∙ ap (λ s. (g ∷ group) ++ b',' ∷ s) (groups_more g group n)

-- The repeated and trimmed text is the groups with commas between them.
pub value_groups-comma_separated :
    (g : ℕ) (group : Bytes) (n : ℕ) → value_groups (g ∷ group) n ≡ comma_separated (g ∷ group) n
unfolding value_groups
value_groups-comma_separated g group zero = unfold comma_separated in refl
value_groups-comma_separated g group (suc n) = groups_more g group n

pub count-comma_separated :
    (c : ℕ) (group : Bytes) (n : ℕ)
    → (c == b',') ≡ false
    → count c (comma_separated group n) ≡ n * count c group
unfolding comma_separated
count-comma_separated c group zero h = omega arith
count-comma_separated c group (suc zero) h = omega arith
count-comma_separated c group (suc (suc n)) h =
    count-append c group (b',' ∷ comma_separated group (suc n))
    ∙ ground (arith, count-comma_separated c group (suc n) h)
