-- ===== src/Strings.antt =====
-- Go's string functions that query/ and ingestion/ use, over the code points or bytes of a text.
pub mod Numbers
pub mod Split
use pooml.Base.{
  ℕ, zero, suc, ◌+◌, ◌-◌, ◌*◌, ◌/◌, ◌%◌, Bool, ◌&&◌, ◌||◌, List, [], ◌∷◌, ◌++◌, Option, none, some,
  leb, ◌==◌, if◌then◌else◌,
}

-- A Go string that is valid UTF-8: its code points.
abbrev pub Text : Type 0
Text = List ℕ

abbrev pub within : ℕ → ℕ → ℕ → Bool
within lo hi c = leb lo c && leb c hi

-- `unicode.IsSpace`, by which `strings.Fields` and `strings.TrimSpace` go
unfoldable pub is_space : ℕ → Bool
is_space c =
    within 9 13 c
    || c == 32
    || c == 0x85
    || c == 0xa0
    || c == 0x1680
    || within 0x2000 0x200a c
    || within 0x2028 0x2029 c
    || c == 0x202f
    || c == 0x205f
    || c == 0x3000

-- `\s` of the regexp package: [\t\n\f\r ]
unfoldable pub is_re_space : ℕ → Bool
is_re_space c = c == 9 || c == 10 || c == 12 || c == 13 || c == 32

-- `strings.ToLower`, where its result is compared with ASCII words: beside A-Z, two code points
-- have an ASCII lower case.
unfoldable pub to_lower : ℕ → ℕ
to_lower c =
    if within b'A' b'Z' c
    then c + 32
    else if c == 0x130
    then b'i'
    else if c == 0x212a
    then b'k'
    else c

-- `strings.ToUpper` on ASCII text
unfoldable pub to_upper : ℕ → ℕ
to_upper c = if within b'a' b'z' c then c - 32 else c

unfoldable pub skip_while : (ℕ → Bool) → Text → Text
skip_while p [] = []
skip_while p (c ∷ s) = let rest = skip_while p s in if p c then rest else c ∷ s

-- The longest prefix of characters of a kind, and what follows it.
unfoldable pub span : (ℕ → Bool) → Text → Text × Text
span p [] = ([], [])
span p (c ∷ s) = let rest = span p s in if p c then (c ∷ rest.0, rest.1) else ([], c ∷ s)

unfoldable pub reverse_onto : Text → Text → Text
reverse_onto [] out = out
reverse_onto (c ∷ s) out = reverse_onto s (c ∷ out)

-- `strings.TrimFunc`
unfoldable pub trim_both : (ℕ → Bool) → Text → Text
unfolding skip_while reverse_onto
trim_both p s = reverse_onto (skip_while p (reverse_onto (skip_while p s) [])) []

abbrev pub flush : Text → List Text
flush [] = []
flush (c ∷ word) = (c ∷ word) ∷ []

unfoldable pub fields_from : Text → Text → List Text
fields_from word [] = flush word
fields_from word (c ∷ s) =
    let next = fields_from [] s in
    let longer = fields_from (word ++ c ∷ []) s in if is_space c then flush word ++ next else longer

-- `strings.Fields`
unfoldable pub fields : Text → List Text
unfolding fields_from is_space
fields = fields_from []

-- `strings.Cut` at one character; `none` where it does not occur
unfoldable pub cut : ℕ → Text → Option (Text × Text)
cut sep [] = none
cut sep (c ∷ s) =
    let rest = cut sep s in
    if c == sep
    then some ([], s)
    else elim rest [ none ↦ none | some (before, after) ↦ some (c ∷ before, after) ]

-- `strings.ReplaceAll` of one character by two of it
unfoldable pub double : ℕ → Text → Text
double q [] = []
double q (c ∷ s) = let rest = double q s in if c == q then q ∷ q ∷ rest else c ∷ rest

-- `strings.Join`
unfoldable pub join : Text → List Text → Text
join sep [] = []
join sep (s ∷ []) = s
join sep (s ∷ t ∷ rest) = s ++ (sep ++ join sep (t ∷ rest))

-- Decimal digits, as `%d` prints a number; `fuel` bounds their count.
unfoldable pub digits_of : ℕ → ℕ → Text → Text
digits_of zero n out = out
digits_of (suc fuel) n out =
    let more = digits_of fuel (n / 10) ((b'0' + n % 10) ∷ out) in
    if leb n 9 then (b'0' + n) ∷ out else more

unfoldable pub itoa : ℕ → Text
unfolding digits_of
itoa n = digits_of (suc n) n []

-- The number that digits denote, as `strconv.ParseInt` reads them before its range check.
unfoldable pub number_of : ℕ → Text → ℕ
number_of acc [] = acc
number_of acc (c ∷ s) = number_of (acc * 10 + (c - b'0')) s

-- `strings.SplitN(s, sep, 3)` for a separator of one character
unfoldable pub split_3 : ℕ → Text → List Text
unfolding cut
split_3 sep s = elim (cut sep s) [
  | none ↦ s ∷ []
  | some (first, rest) ↦ elim (cut sep rest) [
    | none ↦ first ∷ rest ∷ []
    | some (second, third) ↦ first ∷ second ∷ third ∷ []
  ]
]

-- The lines of a text: what `bytes.Split` makes of it, less an empty part at the very end.
unfoldable pub lines_from : Text → Text → List Text
lines_from line [] = flush line
lines_from line (c ∷ s) =
    let next = lines_from [] s in
    let longer = lines_from (line ++ c ∷ []) s in if c == 10 then line ∷ next else longer

abbrev pub lines : Text → List Text
lines = lines_from []
