-- ===== src/Strings/Split.antt =====
-- Texts with a separator: Go's `strings.Split`, `strings.SplitN` and `strconv.ParseInt`, on what was
-- printed with the separator between its parts.
use mathlib.Core.Path.{subst}
use pooml.Base.{
  ℕ, zero, suc, ◌+◌, ◌-◌, ◌<◌, ◌≡◌, refl, Bool, true, false, not, ◌&&◌, List, [], ◌∷◌, ◌++◌, Option,
  none, some, leb, ◌==◌, if◌then◌else◌, arith, length, ◌/◌, ◌%◌,
}
use pooml.Base.Int.{ℤ, pos, negsuc}
use pooml.Strings.{Text, within, cut, split_3, itoa, digits_of, number_of}
use pooml.Strings.Numbers.{AllDigits, itoa-AllDigits, number_of-itoa}

-- A character in front of the first of the parts.
abbrev pub in_front : ℕ → List Text → List Text
in_front c [] = (c ∷ []) ∷ []
in_front c (s ∷ parts) = (c ∷ s) ∷ parts

-- `strings.Split` for a separator of one character
unfoldable pub split : ℕ → Text → List Text
split sep [] = [] ∷ []
split sep (c ∷ s) = let parts = split sep s in if c == sep then [] ∷ parts else in_front c parts

-- The character does not occur.
abbrev pub Lacks : ℕ → Text → Type 0
Lacks sep [] = Unit
Lacks sep (c ∷ s) = ((c == sep) ≡ false) × Lacks sep s

abbrev pub lacks : ℕ → Text → Bool
lacks sep [] = true
lacks sep (c ∷ s) = let rest = lacks sep s in not (c == sep) && rest

pub lacks-Lacks : (sep : ℕ) (s : Text) → lacks sep s ≡ true → Lacks sep s
lacks-Lacks sep [] h = tt
lacks-Lacks sep (c ∷ s) h = (ground (arith, h), lacks-Lacks sep s (ground (arith, h)))

pub cut_at : (sep : ℕ) (a s : Text) → Lacks sep a → cut sep (a ++ sep ∷ s) ≡ some (a, s)
unfolding cut
cut_at sep [] s h = ground arith
cut_at sep (c ∷ a) s h = rw (h.0, cut_at sep a s h.1)

pub split_at : (sep : ℕ) (a s : Text) → Lacks sep a → split sep (a ++ sep ∷ s) ≡ a ∷ split sep s
unfolding split
split_at sep [] s h = ground arith
split_at sep (c ∷ a) s h = rw (h.0, split_at sep a s h.1)

pub split_last : (sep : ℕ) (a : Text) → Lacks sep a → split sep a ≡ a ∷ []
unfolding split
split_last sep [] h = refl
split_last sep (c ∷ a) h = rw (h.0, split_last sep a h.1)

pub split_3-join :
    (sep : ℕ) (a b s : Text)
    → Lacks sep a
    → Lacks sep b
    → split_3 sep (a ++ sep ∷ (b ++ sep ∷ s)) ≡ a ∷ b ∷ s ∷ []
unfolding split_3
split_3-join sep a b s h k = ground (arith, cut_at sep a (b ++ sep ∷ s) h, cut_at sep b s k)

pub AllDigits-Lacks : (sep : ℕ) (s : Text) → AllDigits s → b'9' < sep → Lacks sep s
AllDigits-Lacks sep [] d h = tt
AllDigits-Lacks sep (c ∷ s) d h = (ground (arith, d, h), AllDigits-Lacks sep s d.2 h)

abbrev pub all_digits : Text → Bool
all_digits [] = true
all_digits (c ∷ s) = let rest = all_digits s in within b'0' b'9' c && rest

-- 1 << 63
abbrev pub int64_limit : ℕ
int64_limit = 9223372036854775808

-- A digit string that is not empty, below a bound.
unfoldable pub read_digits : ℕ → Text → Option ℕ
read_digits bound [] = none
read_digits bound (c ∷ s) =
    let n = number_of 0 (c ∷ s) in
    if all_digits (c ∷ s) then if leb n bound then some n else none else none

abbrev pub negated : Option ℕ → Option ℤ
negated none = none
negated (some zero) = some (pos zero)
negated (some (suc n)) = some (negsuc n)

abbrev pub positive : Option ℕ → Option ℤ
positive none = none
positive (some n) = some (pos n)

-- `strconv.ParseInt(s, 10, 64)`; `none` stands for its errors
unfoldable pub parse_int : Text → Option ℤ
unfolding read_digits
parse_int [] = none
parse_int (c ∷ s) =
    if c == b'-'
    then negated (read_digits int64_limit s)
    else if c == b'+'
    then positive (read_digits (int64_limit - 1) s)
    else positive (read_digits (int64_limit - 1) (c ∷ s))

AllDigits-all_digits : (s : Text) → AllDigits s → all_digits s ≡ true
AllDigits-all_digits [] d = refl
AllDigits-all_digits (c ∷ s) d = let rest = AllDigits-all_digits s d.2 in ground (arith, d, rest)

parse_int-digits :
    (c : ℕ) (s : Text)
    → AllDigits (c ∷ s)
    → number_of 0 (c ∷ s) < int64_limit
    → parse_int (c ∷ s) ≡ some (pos (number_of 0 (c ∷ s)))
unfolding parse_int read_digits
parse_int-digits c s d h = ground (arith, d, h, AllDigits-all_digits (c ∷ s) d)

digits_of-nonempty : (fuel n : ℕ) (out : Text) → 0 < length out → 0 < length (digits_of fuel n out)
unfolding digits_of
digits_of-nonempty zero n out h = h
digits_of-nonempty (suc fuel) n out h =
    ground (arith, digits_of-nonempty fuel (n / 10) ((b'0' + n % 10) ∷ out))

pub itoa-nonempty : (n : ℕ) → 0 < length (itoa n)
unfolding itoa digits_of
itoa-nonempty n = ground (arith, digits_of-nonempty n (n / 10) ((b'0' + n % 10) ∷ []))

parse_int-read :
    (s : Text)
    → AllDigits s
    → 0 < length s
    → number_of 0 s < int64_limit
    → parse_int s ≡ some (pos (number_of 0 s))
parse_int-read [] d h k = absurd (omega arith)
parse_int-read (c ∷ s) d h k = parse_int-digits c s d k

-- A number that fits an int64 reads as itself.
pub parse_int-itoa : (n : ℕ) → n < int64_limit → parse_int (itoa n) ≡ some (pos n)
parse_int-itoa n h =
    let same = number_of-itoa n in
    subst (λ m. parse_int (itoa n) ≡ some (pos m)) same
      (parse_int-read (itoa n) (itoa-AllDigits n) (itoa-nonempty n) (omega (arith, same, h)))
