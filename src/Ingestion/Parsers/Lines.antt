-- ===== src/Ingestion/Parsers/Lines.antt =====
-- The line-by-line half of `parsePayload` of ingestion/parsers.go.
use mathlib.Core.List.{append-nil, append_assoc}
use mathlib.Core.Path.{subst}
use pooml.Base.{
  ℕ, zero, suc, ◌+◌, ◌-◌, ◌<◌, ◌≡◌, refl, List, [], ◌∷◌, ◌++◌, none, some, leb, if◌then◌else◌, map,
  length, take, length-append, arith, Option-cases, inl, inr, ap, sym, ◌∙◌, Option,
}
use pooml.Base.Int.{ℤ}
use pooml.Bytes.{Bytes, str_eq}
use pooml.Common.{StandardLog}
use pooml.Strings.{cut, lines_from, lines, flush}
use pooml.Ingestion.Parsers.{
  Stdlib, Object, ClfMatch, line_log, parse_lines, parse_line, parse_json_line, json_log,
  parse_clf_line, clf_log, parse_plain_line, fallback_level, max_records_per_payload,
}

unlines_of_split : (w s : Bytes) → cut 10 s ≡ none → lines_from w s ≡ flush (w ++ s)
unfolding cut lines_from
unlines_of_split w [] h = rw (append-nil w)
unlines_of_split w (c ∷ s) h =
    ground (arith, unlines_of_split (w ++ c ∷ []) s, append_assoc w (c ∷ []) s)

lines_of_split :
    (w s before after : Bytes)
    → cut 10 s ≡ some (before, after)
    → lines_from w s ≡ (w ++ before) ∷ lines after
unfolding cut lines_from
lines_of_split w [] before after h = ground arith
lines_of_split w (c ∷ s) before after h = elim (Option-cases (cut 10 s)) [
  | inl e ↦ ground (arith, append-nil w)
  | inr ((b, a), e) ↦
      ground (arith, append-nil w, append_assoc w (c ∷ []) b, lines_of_split (w ++ c ∷ []) s b a e)
]

length-cut : (s before after : Bytes) → cut 10 s ≡ some (before, after) → length after < length s
unfolding cut
length-cut [] before after h = ground arith
length-cut (c ∷ s) before after h = elim (Option-cases (cut 10 s)) [
  | inl e ↦ ground arith
  | inr ((b, a), e) ↦ ground (arith, length-cut s b a e)
]

-- The lines that are not empty, trimmed.
unfoldable pub kept : (Bytes → Bytes) → List Bytes → List Bytes
kept trim [] = []
kept trim (s ∷ ss) = let rest = kept trim ss in if str_eq (trim s) [] then rest else trim s ∷ rest

take-suc {ℓ} :
    {A : Type ℓ} (n : ℕ) (x : A) (xs : List A) → 0 < n → take n (x ∷ xs) ≡ x ∷ take (n - 1) xs
take-suc zero x xs h = absurd (omega arith)
take-suc (suc n) x xs h = ap (λ m. x ∷ take m xs) (omega arith)

take-zero {ℓ} : {A : Type ℓ} (n : ℕ) (xs : List A) → n ≡ 0 → take n xs ≡ []
take-zero zero xs h = refl
take-zero (suc n) xs h = absurd (omega arith)

take-nil {ℓ} : {A : Type ℓ} (n : ℕ) → take {A = A} n [] ≡ []
take-nil zero = refl
take-nil (suc n) = refl

or_else_cases {ℓ κ} :
    {A : Type ℓ} (P : A → Type κ) (o : Option A) (d : A)
    → ((a : A) → o ≡ some a → P a)
    → P d
    → P (elim o [ some a ↦ a | none ↦ d ])
or_else_cases P none d p q = q
or_else_cases P (some a) d p q = p a refl

-- A property of what each of the three parsers returns is one of a parsed line.
pub parse_line_cases {κ} :
    (std : Stdlib) (P : StandardLog → Type κ) (line : Bytes)
    → ((m : Object std.Float) → P (json_log std line m))
    → ((m : ClfMatch) → P (clf_log std line m))
    → P (parse_plain_line std line)
    → P (parse_line std line)
unfolding parse_line parse_json_line parse_clf_line
parse_line_cases std P line json clf plain =
    or_else_cases P (parse_json_line std line) _ (json_case line json)
      (or_else_cases P (parse_clf_line std line) _ clf_case plain)
  where
    json_case :
        (s : Bytes)
        → ((m : Object std.Float) → P (json_log std s m))
        → (l : StandardLog) → parse_json_line std s ≡ some l
        → P l
    json_case [] p l e = absurd (ground (arith, e))
    json_case (c ∷ s) p l e = elim (Option-cases (std.unmarshal (c ∷ s))) [
      | inl n ↦ absurd (ground (arith, e, n))
      | inr (m, n) ↦ subst P (ground (arith, e, n)) (p m)
    ]

    clf_case : (l : StandardLog) → parse_clf_line std line ≡ some l → P l
    clf_case l e = elim (Option-cases (std.match_clf line)) [
      | inl n ↦ absurd (ground (arith, e, n))
      | inr (m, n) ↦ subst P (ground (arith, e, n)) (clf m)
    ]

raw-parse_line : (std : Stdlib) (line : Bytes) → (parse_line std line).raw ≡ line
unfolding json_log clf_log parse_plain_line
raw-parse_line std line = parse_line_cases std (λ l. l.raw ≡ line) line (λ m. refl) (λ m. refl) refl

raw-fallback_level : (l : StandardLog) → (fallback_level l).raw ≡ l.raw
unfolding fallback_level
raw-fallback_level l = ground arith

take-map {ℓ κ} :
    {A : Type ℓ} {B : Type κ} (n : ℕ) (f : A → B) (xs : List A)
    → take n (map f xs) ≡ map f (take n xs)
take-map zero f xs = refl
take-map (suc n) f [] = refl
take-map (suc n) f (x ∷ xs) = ap (λ ys. f x ∷ ys) (take-map n f xs)

module _ (std : Stdlib) where
  -- What `parsePayload` returns for a payload that is no FluentBit envelope.
  unfoldable pub parse_plain_payload : Bytes → Bytes → Bytes → ℤ → List StandardLog
  unfolding parse_lines
  parse_plain_payload service host payload received_at =
      parse_lines std (suc (length payload)) service host received_at payload []

  module _ (service host : Bytes) (received_at : ℤ) where
    abbrev logs : Bytes → List StandardLog
    logs s = map (line_log std service host received_at) (kept std.trim_space (lines s))

    -- one round
    after_line :
        (out : List StandardLog) (line rest : Bytes) (skipped parsed : List StandardLog)
        → skipped ≡ out ++ take (max_records_per_payload - length out) (logs rest)
        → parsed
          ≡ (out ++ line_log std service host received_at (std.trim_space line) ∷ [])
            ++ take (max_records_per_payload - (length out + 1)) (logs rest)
        → (if str_eq (std.trim_space line) []
            then skipped
            else if leb max_records_per_payload (length out)
            then out
            else parsed)
          ≡ out
            ++ take (max_records_per_payload - length out) (
                map
                  (line_log std service host received_at)
                  (kept std.trim_space (line ∷ lines rest)))
    unfolding kept
    after_line out line rest skipped parsed hs hp =
        let n = max_records_per_payload - length out in
        let l = line_log std service host received_at (std.trim_space line) in
        ground (
          arith,
          take-zero n (l ∷ logs rest),
          take-suc n l (logs rest),
          append-nil out,
          append_assoc out (l ∷ []) (take (max_records_per_payload - (length out + 1)) (logs rest)),
        )

    -- a round, of the lines that a cut leaves
    after_cut :
        (fuel : ℕ) (s line rest : Bytes) (out : List StandardLog)
        → lines s ≡ line ∷ lines rest
        → ((out : List StandardLog)
            → parse_lines std fuel service host received_at rest out
              ≡ out ++ take (max_records_per_payload - length out) (logs rest))
        → (if str_eq (std.trim_space line) []
            then parse_lines std fuel service host received_at rest out
            else if leb max_records_per_payload (length out)
            then out
            else parse_lines std fuel service host received_at rest
                (out ++ line_log std service host received_at (std.trim_space line) ∷ []))
          ≡ out ++ take (max_records_per_payload - length out) (logs s)
    after_cut fuel s line rest out e ih =
        let l = line_log std service host received_at (std.trim_space line) in
        after_line out line rest _ _ (ih out) (
          ih (out ++ l ∷ [])
          ∙ ap (λ n. (out ++ l ∷ []) ++ take (max_records_per_payload - n) (logs rest))
              (length-append out (l ∷ [])))
        ∙ ap
            (λ ls.
              out
              ++ take (max_records_per_payload - length out)
                  (map (line_log std service host received_at) (kept std.trim_space ls)))
            (sym e)

    -- Fuel above the length of the text never runs out.
    parse_lines-total :
        (fuel : ℕ) (s : Bytes) (out : List StandardLog)
        → length s < fuel
        → parse_lines std fuel service host received_at s out
          ≡ out ++ take (max_records_per_payload - length out) (logs s)
    unfolding parse_lines lines_from kept
    parse_lines-total zero s out h = absurd (omega arith)
    parse_lines-total (suc fuel) [] out h =
        rw (take-nil (max_records_per_payload - length out)) (sym (append-nil out))
    parse_lines-total (suc fuel) (c ∷ s) out h = elim (Option-cases (cut 10 (c ∷ s))) [
      | inl e ↦
          rw (e, parse_lines)
            (after_cut fuel (c ∷ s) (c ∷ s) [] out (unlines_of_split [] (c ∷ s) e)
              (λ out'. parse_lines-total fuel [] out' (omega arith)))
      | inr ((line, rest), e) ↦
          rw (e, parse_lines)
            (after_cut fuel (c ∷ s) line rest out (lines_of_split [] (c ∷ s) line rest e) (λ out'.
              parse_lines-total fuel rest out' (omega (arith, length-cut (c ∷ s) line rest e))))
    ]

    raw-line_log : (line : Bytes) → (line_log std service host received_at line).raw ≡ line
    unfolding line_log
    raw-line_log line = raw-fallback_level _ ∙ raw-parse_line std line

    raws-map :
        (ls : List Bytes) → map (λ l. l.raw) (map (line_log std service host received_at) ls) ≡ ls
    raws-map [] = refl
    raws-map (s ∷ ls) = rw (raw-line_log s, raws-map ls) refl

    -- Of a payload that is no FluentBit envelope, `parsePayload` returns one log for each of the first
    -- 100000 lines that are not blank, in their order; its raw text is the trimmed line.
    pub parse_plain_payload_lem :
        (payload : Bytes)
        → let ls = take max_records_per_payload (kept std.trim_space (lines payload)) in
          (parse_plain_payload service host payload received_at
            ≡ map (line_log std service host received_at) ls)
          × (map (λ l. l.raw) (parse_plain_payload service host payload received_at) ≡ ls)
    unfolding parse_plain_payload
    parse_plain_payload_lem payload =
        let f = line_log std service host received_at in
        let logs_of =
          parse_lines-total (suc (length payload)) payload [] (omega arith)
          ∙ take-map max_records_per_payload f (kept std.trim_space (lines payload)) in
        (
          logs_of,
          ap (map (λ l. l.raw)) logs_of
              ∙ raws-map (take max_records_per_payload (kept std.trim_space (lines payload))),
        )
