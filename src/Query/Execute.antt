-- ===== src/Query/Execute.antt =====
-- query/execute.go, from the rows that the database returns.
use mathlib.Core.List.{append_assoc, append-nil}
use pooml.Base.{
  ℕ, ◌+◌, ◌≤◌, ◌<◌, ◌≡◌, refl, ap, ◌∙◌, ◌⊎◌, inl, inr, Bool, true, false, List, [], ◌∷◌, ◌++◌,
  Option, none, some, leb, if◌then◌else◌, length, map, arith, Bool-cases, length-append,
}
use pooml.Bytes.{Bytes}
use pooml.Query.Rewrite.{max_rows}

-- 64 << 20
abbrev pub max_result_bytes : ℕ
max_result_bytes = 67108864

pub data Cell : Type 0 where
  blob : Bytes → Cell
  text : Bytes → Cell
  opaque_cell : ℕ → Cell

-- What `rows.Next` and `rows.Scan` give: a row, an error of its scan, or an error that ends the
-- iteration and that `rows.Err` returns.
pub data Fetched : Type 0 where
  row : List Cell → Fetched
  scan_error : Fetched
  next_error : Fetched

pub data Result : Type 0 where
  rows : List (List Cell) → Bool → Result  -- and whether it is truncated
  error : Result

-- A `[]byte` becomes a string.
unfoldable pub stringified : List Cell → List Cell
stringified [] = []
stringified (blob b ∷ cells) = text b ∷ stringified cells
stringified (text s ∷ cells) = text s ∷ stringified cells
stringified (opaque_cell n ∷ cells) = opaque_cell n ∷ stringified cells

abbrev pub cell_bytes : List Cell → ℕ
cell_bytes [] = 0
cell_bytes (blob b ∷ cells) = length b + cell_bytes cells
cell_bytes (text s ∷ cells) = length s + cell_bytes cells
cell_bytes (opaque_cell n ∷ cells) = cell_bytes cells

-- The loop of `Execute`, with `res.Rows` and `resultBytes`
unfoldable pub scan_rows : List (List Cell) → ℕ → List Fetched → Result
unfolding stringified
scan_rows out bytes [] = rows out false
scan_rows out bytes (next_error ∷ fetched) = error
scan_rows out bytes (scan_error ∷ fetched) =
    if leb max_rows (length out) then rows out true else error
scan_rows out bytes (row cells ∷ fetched) =
    let out' = out ++ stringified cells ∷ [] in
    let bytes' = bytes + cell_bytes cells in
    let more = scan_rows out' bytes' fetched in
    if leb max_rows (length out)
    then rows out true
    else if leb max_result_bytes bytes'
    then rows out' true
    else more

-- `none` where the query fails
unfoldable pub execute : Option (List Fetched) → Result
unfolding scan_rows
execute none = error
execute (some fetched) = scan_rows [] 0 fetched

abbrev pub total_bytes : List (List Cell) → ℕ
total_bytes [] = 0
total_bytes (r ∷ rs) = cell_bytes r + total_bytes rs

-- The rows of a result that were fetched, before those in `rest`
abbrev pub fetched_rows : List (List Cell) → List Fetched → List Fetched
fetched_rows [] rest = rest
fetched_rows (r ∷ rs) rest = row r ∷ fetched_rows rs rest

abbrev pub but_last : List (List Cell) → List (List Cell)
but_last [] = []
but_last (r ∷ []) = []
but_last (r ∷ r' ∷ rs) = r ∷ but_last (r' ∷ rs)

-- A run of the loop that returns `out ++ map stringified taken`
record Taken (bytes : ℕ) (fetched : List Fetched) (out result : List (List Cell)) (truncated : Bool)
    : Type 0 where
  taken : List (List Cell)
  rest : List Fetched
  first : fetched ≡ fetched_rows taken rest
  as_text : result ≡ out ++ map stringified taken
  few : length result ≤ max_rows
  whole : (truncated ≡ true) ⊎ (rest ≡ [])
  small : bytes + total_bytes (but_last taken) < max_result_bytes

Taken-cons :
    (bytes : ℕ) (fetched : List Fetched) (out result : List (List Cell)) (truncated : Bool)
    (cells : List Cell)
    → Taken (bytes + cell_bytes cells) fetched (out ++ stringified cells ∷ []) result truncated
    → bytes < max_result_bytes
    → Taken bytes (row cells ∷ fetched) out result truncated
Taken-cons bytes fetched out result truncated cells t h = record {
  taken = cells ∷ t.taken;
  rest = t.rest;
  first = ap (λ fs. row cells ∷ fs) t.first;
  as_text = t.as_text ∙ append_assoc out (stringified cells ∷ []) (map stringified t.taken);
  few = t.few;
  whole = t.whole;
  small = last_small t.taken t.small;
}
  where
    last_small :
        (rs : List (List Cell))
        → bytes + cell_bytes cells + total_bytes (but_last rs) < max_result_bytes
        → bytes + total_bytes (but_last (cells ∷ rs)) < max_result_bytes
    last_small [] k = omega arith
    last_small (r ∷ rs) k = omega arith

-- The cap on rows is met.
full-Taken :
    (out : List (List Cell)) (bytes : ℕ) (f : Fetched) (fetched : List Fetched)
    (result : List (List Cell)) (truncated : Bool)
    → scan_rows out bytes (f ∷ fetched) ≡ rows result truncated
    → leb max_rows (length out) ≡ true
    → length out ≤ max_rows
    → bytes < max_result_bytes
    → Taken bytes (f ∷ fetched) out result truncated
unfolding scan_rows
full-Taken out bytes next_error fetched result truncated e full n b = absurd (ground (arith, e))
full-Taken out bytes f fetched result truncated e full n b = record {
  taken = [];
  rest = f ∷ fetched;
  first = refl;
  as_text = ground (arith, e, full, append-nil out);
  few = ground (arith, e, full, n);
  whole = inl (ground (arith, e, full));
  small = omega arith;
}

scan_rows-Taken :
    (out : List (List Cell)) (bytes : ℕ) (fetched : List Fetched) (result : List (List Cell))
    (truncated : Bool)
    → scan_rows out bytes fetched ≡ rows result truncated
    → length out ≤ max_rows
    → bytes < max_result_bytes
    → Taken bytes fetched out result truncated
unfolding scan_rows
scan_rows-Taken out bytes [] result truncated e n b = record {
  taken = [];
  rest = [];
  first = refl;
  as_text = ground (arith, e, append-nil out);
  few = ground (arith, e);
  whole = inr refl;
  small = omega arith;
}
scan_rows-Taken out bytes (next_error ∷ fetched) result truncated e n b = absurd (ground (arith, e))
scan_rows-Taken out bytes (scan_error ∷ fetched) result truncated e n b =
    elim (Bool-cases (leb max_rows (length out))) [
      | inl full ↦ full-Taken out bytes scan_error fetched result truncated e full n b
      | inr room ↦ absurd (ground (arith, e, room))
    ]
scan_rows-Taken out bytes (row cells ∷ fetched) result truncated e n b =
    let longer = length-append out (stringified cells ∷ []) in
    elim (Bool-cases (leb max_rows (length out))) [
      | inl full ↦ full-Taken out bytes (row cells) fetched result truncated e full n b
      | inr room ↦ elim (Bool-cases (leb max_result_bytes (bytes + cell_bytes cells))) [
        | inl heavy ↦ record {
          taken = cells ∷ [];
          rest = fetched;
          first = refl;
          as_text = ground (arith, e, room, heavy);
          few = ground (arith, e, room, heavy, longer);
          whole = inl (ground (arith, e, room, heavy));
          small = omega arith;
        }
        | inr light ↦
            Taken-cons bytes fetched out result truncated cells
              (scan_rows-Taken (out ++ stringified cells ∷ []) (bytes + cell_bytes cells) fetched
                result truncated (ground (arith, e, room, light)) (ground (arith, room, longer))
                (ground (arith, light)))
              b
      ]
    ]

-- A result that `Execute` returns is the first rows that the database gave, in their order, with
-- byte strings as strings: at most 10000 of them, below 64 MiB of text without the last one, and all
-- of them unless it is marked as truncated.
pub execute-Taken :
    (fetched : List Fetched) (result : List (List Cell)) (truncated : Bool)
    → execute (some fetched) ≡ rows result truncated
    → (taken : List (List Cell)) × (rest : List Fetched) × (fetched ≡ fetched_rows taken rest)
      × (result ≡ map stringified taken)
      × (length result ≤ max_rows)
      × (total_bytes (but_last taken) < max_result_bytes)
      × ((truncated ≡ true) ⊎ (rest ≡ []))
unfolding execute
execute-Taken fetched result truncated e =
    let t = scan_rows-Taken [] 0 fetched result truncated e (omega arith) (omega arith) in
    (t.taken, t.rest, t.first, t.as_text, t.few, omega (arith, t.small), t.whole)
