-- ===== src/Strings/Numbers.antt =====
-- Reading a number back from its decimal digits.
use pooml.Base.{
  ℕ, zero, suc, ◌+◌, ◌-◌, ◌*◌, ◌/◌, ◌%◌, ◌≤◌, ◌<◌, ◌≡◌, refl, ap, ◌∙◌, true, false, [], ◌∷◌, leb,
  ◌==◌, arith, Bool-cases, inl, inr,
}
use pooml.Base.Int.{ℤ, pos, negsuc}
use pooml.Strings.{Text, itoa, digits_of, number_of}

number_of-digits_of :
    (fuel n : ℕ) (out : Text) → n < fuel → number_of 0 (digits_of fuel n out) ≡ number_of n out
unfolding digits_of number_of
number_of-digits_of zero n out h = absurd (omega arith)
number_of-digits_of (suc fuel) n out h = elim (Bool-cases (leb n 9)) [
  | inl small ↦
      let same : 0 * 10 + (b'0' + n - b'0') ≡ n = omega arith in
      rw (small, digits_of) (ap (λ k. number_of k out) same)
  | inr large ↦
      let big : 9 < n = ground (arith, large) in
      let same : n / 10 * 10 + (b'0' + n % 10 - b'0') ≡ n = omega arith in
      rw (large, digits_of)
        (number_of-digits_of fuel (n / 10) ((b'0' + n % 10) ∷ out) (omega arith)
          ∙ ap (λ k. number_of k out) same)
]

pub number_of-itoa : (n : ℕ) → number_of 0 (itoa n) ≡ n
unfolding itoa number_of
number_of-itoa n = number_of-digits_of (suc n) n [] (omega arith)

-- Every character is a digit.
abbrev pub AllDigits : Text → Type 0
AllDigits [] = Unit
AllDigits (c ∷ s) = (b'0' ≤ c) × (c ≤ b'9') × AllDigits s

digits_of-AllDigits : (fuel n : ℕ) (out : Text) → AllDigits out → AllDigits (digits_of fuel n out)
unfolding digits_of
digits_of-AllDigits zero n out h = h
digits_of-AllDigits (suc fuel) n out h = elim (Bool-cases (leb n 9)) [
  | inl small ↦
      let bound : n ≤ 9 = ground (arith, small) in
      rw (small, digits_of) ((omega arith, omega arith, h))
  | inr large ↦
      rw (large, digits_of)
        (digits_of-AllDigits fuel (n / 10) ((b'0' + n % 10) ∷ out) (omega arith, omega arith, h))
]

pub itoa-AllDigits : (n : ℕ) → AllDigits (itoa n)
unfolding itoa
itoa-AllDigits n = digits_of-AllDigits (suc n) n [] tt

-- `strconv.ParseInt`, of a text that is a number
unfoldable pub read_int : Text → ℤ
unfolding number_of
read_int [] = pos 0
read_int (c ∷ s) = elim (c == b'-') [
  | true ↦ negsuc (number_of 0 s - 1)
  | false ↦ pos (number_of 0 (c ∷ s))
]

read_int-digits : (s : Text) → AllDigits s → read_int s ≡ pos (number_of 0 s)
unfolding read_int
read_int-digits [] h = unfold number_of in refl
read_int-digits (c ∷ s) h = ground (arith, h)

pub read_int-itoa : (n : ℕ) → read_int (itoa n) ≡ pos n
read_int-itoa n = read_int-digits (itoa n) (itoa-AllDigits n) ∙ ap pos (number_of-itoa n)

pub read_int-minus : (n : ℕ) → read_int (b'-' ∷ itoa (suc n)) ≡ negsuc n
unfolding read_int
read_int-minus n = let e = number_of-itoa (suc n) in ap negsuc (omega (arith, e))
