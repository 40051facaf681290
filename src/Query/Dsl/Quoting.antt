-- ===== src/Query/Dsl/Quoting.antt =====
-- User text in the generated SQL stays inside string literals.
use pooml.Base.{
  ℕ, zero, suc, ◌+◌, ◌-◌, ◌%◌, ◌/◌, ◌^◌, ◌≡◌, ◌≢◌, refl, ◌∙◌, Bool, true, false, not, ◌||◌, List,
  [], ◌∷◌, ◌++◌, ltb, ◌==◌, if◌then◌else◌, arith, map, Bool-cases, inl, inr, if_cases, ◌⊎◌,
}
use pooml.Base.Int.{ℤ, pos, negsuc, ltb_ℤ}
use pooml.Bytes.{codes, str_eq, str_eq_iff}
use pooml.Strings.{Text, double, join, itoa, digits_of}
use pooml.Query.Dsl.{Filter, Query}
use pooml.Query.Dsl.Sql.{
  cat, quote_str, literal, filter_condition, time_condition, conditions, where_clause, show64,
  show_ℤ, quot64,
}

abbrev pub turn : Bool → ℕ → Bool
turn inside c = if c == b'\'' then not inside else inside

-- What SQL reads of a text outside its string literals, from a state in or out of one. A quote
-- doubled in a literal leaves it and enters it again.
unfoldable pub outside : Bool → Text → Text
outside inside [] = []
outside inside (c ∷ s) =
    let rest = outside (turn inside c) s in if c == b'\'' || inside then rest else c ∷ rest

-- Whether the text ends inside a literal.
unfoldable pub ends_inside : Bool → Text → Bool
ends_inside inside [] = inside
ends_inside inside (c ∷ s) = ends_inside (turn inside c) s

pub outside-append :
    (i : Bool) (s t : Text) → outside i (s ++ t) ≡ outside i s ++ outside (ends_inside i s) t
unfolding outside ends_inside
outside-append i [] t = refl
outside-append i (c ∷ s) t = ground (arith, outside-append (turn i c) s t)

pub ends_inside-append :
    (i : Bool) (s t : Text) → ends_inside i (s ++ t) ≡ ends_inside (ends_inside i s) t
unfolding ends_inside
ends_inside-append i [] t = refl
ends_inside-append i (c ∷ s) t = ends_inside-append (turn i c) s t

pub outside-quote_str : (s : Text) → outside true (quote_str s) ≡ []
unfolding quote_str double outside
outside-quote_str [] = refl
outside-quote_str (c ∷ s) = ground (arith, outside-quote_str s)

pub ends_inside-quote_str : (s : Text) → ends_inside true (quote_str s) ≡ true
unfolding quote_str double ends_inside
ends_inside-quote_str [] = refl
ends_inside-quote_str (c ∷ s) = ground (arith, ends_inside-quote_str s)

-- From state `i` the text shows `shown` outside its literals, and leaves state `j`.
record Shows (i : Bool) (s shown : Text) (j : Bool) : Type 0 where
  seen : outside i s ≡ shown
  left : ends_inside i s ≡ j

Shows-append :
    {i j k : Bool} (s t a b : Text) → Shows i s a j → Shows j t b k → Shows i (s ++ t) (a ++ b) k
Shows-append {i} s t a b x y = record {
  seen = outside-append i s t ∙ cc (x.seen, x.left, y.seen);
  left = ends_inside-append i s t ∙ cc (x.left, y.left);
}

quote_str-Shows : (s : Text) → Shows true (quote_str s) [] true
quote_str-Shows s = record { seen = outside-quote_str s; left = ends_inside-quote_str s }

close-Shows :
    (s t shown : Text) → Shows true t shown false → Shows true (quote_str s ++ t) shown false
close-Shows s t shown x = Shows-append (quote_str s) t [] shown (quote_str-Shows s) x

-- A literal shows nothing.
literal-Shows : (s : Text) → Shows false (literal s) [] false
unfolding outside ends_inside
literal-Shows s =
    Shows-append (codes "'") (quote_str s ++ codes "'") [] [] (record { seen = refl; left = refl })
      (close-Shows s (codes "'") [] (record { seen = refl; left = refl }))

abbrev NoQuote : Text → Type 0
NoQuote [] = Unit
NoQuote (c ∷ s) = (c ≢ b'\'') × NoQuote s

NoQuote-Shows : (s : Text) → NoQuote s → Shows false s s false
unfolding outside ends_inside
NoQuote-Shows [] n = ground arith
NoQuote-Shows (c ∷ s) n = ground (arith, NoQuote-Shows s n.1)

digits_of-NoQuote : (fuel n : ℕ) (out : Text) → NoQuote out → NoQuote (digits_of fuel n out)
unfolding digits_of
digits_of-NoQuote zero n out q = q
digits_of-NoQuote (suc fuel) n out q =
    ground (arith, digits_of-NoQuote fuel (n / 10) ((b'0' + n % 10) ∷ out))

itoa-NoQuote : (n : ℕ) → NoQuote (itoa n)
unfolding itoa
itoa-NoQuote n = digits_of-NoQuote (suc n) n [] tt

show64-NoQuote : (n : ℕ) → NoQuote (show64 n)
unfolding show64
show64-NoQuote n =
    if_cases NoQuote (ltb n (2 ^ 63)) (itoa n) (b'-' ∷ itoa (2 ^ 64 - n)) (λ _. itoa-NoQuote n)
      (λ _. (omega arith, itoa-NoQuote (2 ^ 64 - n)))

show_ℤ-NoQuote : (z : ℤ) → NoQuote (show_ℤ z)
unfolding show_ℤ
show_ℤ-NoQuote (pos n) = itoa-NoQuote n
show_ℤ-NoQuote (negsuc n) = (omega arith, itoa-NoQuote (suc n))

NoQuote-append : (s t : Text) → NoQuote s → NoQuote t → NoQuote (s ++ t)
NoQuote-append [] t a b = b
NoQuote-append (c ∷ s) t a b = (a.0, NoQuote-append s t a.1 b)

time_condition-NoQuote : (d : Query) → NoQuote (time_condition d)
unfolding time_condition
time_condition-NoQuote d =
    if_cases NoQuote (ltb_ℤ (pos 0) d.to_ms) _ _
      (λ _. NoQuote-append (codes "timestamp BETWEEN ") _ (omega arith) (
        NoQuote-append (show_ℤ d.from_ms) _ (show_ℤ-NoQuote d.from_ms)
          (NoQuote-append (codes " AND ") _ (omega arith) (show_ℤ-NoQuote d.to_ms))))
      (λ _. NoQuote-append (codes "timestamp > (unixepoch() - ") _ (omega arith) (
        NoQuote-append (show64 (quot64 d.window_ms 1000)) _
          (show64-NoQuote (quot64 d.window_ms 1000)) (omega arith)))

-- What is seen of a condition: the name of a column, and no part of a label's key or a value.
abbrev pub filter_shown : Filter → Text
filter_shown f =
    if str_eq f.key (codes "service") || str_eq f.key (codes "host")
    then f.key ++ codes " = "
    else codes "json_extract(labels, ) = "

column-NoQuote :
    (key : Text) → (str_eq key (codes "service") || str_eq key (codes "host")) ≡ true → NoQuote key
column-NoQuote key h = elim (either key h) [
  | inl e ↦ rw e (omega arith)
  | inr e ↦ rw e (omega arith)
]
  where
    either :
        (key : Text)
        → (str_eq key (codes "service") || str_eq key (codes "host")) ≡ true
        → (key ≡ codes "service") ⊎ (key ≡ codes "host")
    either key h = ground (arith, str_eq_iff key (codes "service"), str_eq_iff key (codes "host"))

column-Shows :
    (key value : Text)
    → NoQuote key
    → Shows false (cat (key ∷ codes " = " ∷ literal value ∷ [])) (key ++ codes " = ") false
unfolding outside ends_inside
column-Shows key value n = Shows-append key _ key (codes " = ") (NoQuote-Shows key n) (
    Shows-append (codes " = '") (quote_str value ++ codes "'") (codes " = ") []
      (record { seen = refl; left = refl })
      (close-Shows value (codes "'") [] (record { seen = refl; left = refl })))

label-Shows :
    (key value : Text)
    → Shows false
        (cat
          (codes "json_extract(labels, '$." ∷ quote_str key ∷ codes "') = " ∷ literal value ∷ []))
        (codes "json_extract(labels, ) = ")
        false
unfolding outside ends_inside
label-Shows key value =
    Shows-append (codes "json_extract(labels, '$.") _ (codes "json_extract(labels, ") (codes ") = ")
      (record { seen = refl; left = refl })
      (close-Shows key _ (codes ") = ") (
        Shows-append (codes "') = '") (quote_str value ++ codes "'") (codes ") = ") []
          (record { seen = refl; left = refl })
          (close-Shows value (codes "'") [] (record { seen = refl; left = refl }))))

filter_condition-Shows : (f : Filter) → Shows false (filter_condition f) (filter_shown f) false
unfolding filter_condition
filter_condition-Shows f =
    elim (Bool-cases (str_eq f.key (codes "service") || str_eq f.key (codes "host"))) [
      | inl column ↦
          rw (column, filter_condition) (column-Shows f.key f.value (column-NoQuote f.key column))
      | inr label ↦ rw (label, filter_condition) (label-Shows f.key f.value)
    ]

-- Conditions with what they show.
AllShow : List Text → List Text → Type 0
AllShow [] [] = Unit
AllShow (s ∷ ss) (a ∷ bs) = Shows false s a false × AllShow ss bs
AllShow _ _ = ⊥

AllShow-filters :
    (fs : List Filter) (s a : Text)
    → Shows false s a false
    → AllShow (map filter_condition fs ++ s ∷ []) (map filter_shown fs ++ a ∷ [])
unfolding AllShow
AllShow-filters [] s a x = (x, tt)
AllShow-filters (f ∷ fs) s a x = (filter_condition-Shows f, AllShow-filters fs s a x)

join-Shows :
    (sep : Text) (ss bs : List Text)
    → NoQuote sep
    → AllShow ss bs
    → Shows false (join sep ss) (join sep bs) false
unfolding AllShow join
join-Shows sep [] [] q x = NoQuote-Shows [] tt
join-Shows sep (s ∷ []) (a ∷ []) q x = x.0
join-Shows sep (s ∷ t ∷ ss) (a ∷ b ∷ bs) q x =
    Shows-append s (sep ++ join sep (t ∷ ss)) a (sep ++ join sep (b ∷ bs)) x.0 (
      Shows-append sep (join sep (t ∷ ss)) sep (join sep (b ∷ bs)) (NoQuote-Shows sep q)
        (join-Shows sep (t ∷ ss) (b ∷ bs) q x.1))
join-Shows sep [] (a ∷ bs) q x = absurd x
join-Shows sep (s ∷ ss) [] q x = absurd x
join-Shows sep (s ∷ []) (a ∷ b ∷ bs) q x = absurd x.1
join-Shows sep (s ∷ t ∷ ss) (a ∷ []) q x = absurd x.1

-- Whatever the metric's name, the labels' keys and the values hold: outside its string literals the
-- WHERE clause reads as its conditions' fixed text with AND between them, and every literal is
-- closed. User text never becomes SQL.
pub where_clause-outside :
    (d : Query)
    → (outside false (where_clause d)
        ≡ join
            (codes " AND ")
            (codes "name = " ∷ (map filter_shown d.filters ++ time_condition d ∷ [])))
      × (ends_inside false (where_clause d) ≡ false)
unfolding where_clause AllShow outside ends_inside
where_clause-outside d =
    let named : Shows false (codes "name = " ++ literal d.metric) (codes "name = ") false =
      Shows-append (codes "name = ") (literal d.metric) (codes "name = ") []
        (record { seen = refl; left = refl }) (literal-Shows d.metric) in
    let whole =
      join-Shows (codes " AND ") (conditions d)
        (codes "name = " ∷ (map filter_shown d.filters ++ time_condition d ∷ [])) (omega arith)
        (
          named,
          AllShow-filters d.filters (time_condition d) (time_condition d)
              (NoQuote-Shows (time_condition d) (time_condition-NoQuote d)),
        ) in
    (whole.seen, whole.left)
