-- ===== src/Metrics/Row.antt =====
-- `Row` of metrics/pipeline.go, and what `flush` binds for it. A value is a float64, about which
-- nothing is said here.
use pooml.Base.{ℕ, List, [], ◌∷◌, ◌++◌, ◌≡◌, refl, ◌∙◌, length, length-append, arith, ◌*◌}
use pooml.Base.Int.{ℤ}
use pooml.Bytes.{Bytes}

abbrev pub type_counter : ℕ
type_counter = 0

abbrev pub type_gauge : ℕ
type_gauge = 1

pub record Row (Value : Type 0) : Type 0 where
  pub timestamp : ℤ  -- milliseconds
  pub name : Bytes
  pub type : ℕ
  pub value : Value
  pub service : Bytes
  pub host : Bytes
  pub labels : Bytes  -- a JSON object, or empty

-- A value bound to a mark of the statement.
pub data Bound (Value : Type 0) : Type 0 where
  null : Bound Value
  integer : ℤ → Bound Value
  kind : ℕ → Bound Value
  real : Value → Bound Value
  text : Bytes → Bound Value

module _ {Value : Type 0} where
  abbrev pub bound_labels : Bytes → Bound Value
  bound_labels [] = null
  bound_labels (c ∷ s) = text (c ∷ s)

  unfoldable pub row_args : Row Value → List (Bound Value)
  row_args r =
      integer r.timestamp
      ∷ text r.name
      ∷ kind r.type
      ∷ real r.value
      ∷ text r.service
      ∷ text r.host
      ∷ bound_labels r.labels
      ∷ []

  -- The arguments of the statement that `flush` runs.
  unfoldable pub flush_args : List (Row Value) → List (Bound Value)
  unfolding row_args
  flush_args [] = []
  flush_args (r ∷ rows) = row_args r ++ flush_args rows

  -- Seven values for each row, as many as the statement has marks.
  pub length-flush_args : (rows : List (Row Value)) → length (flush_args rows) ≡ length rows * 7
  unfolding flush_args
  length-flush_args [] = refl
  length-flush_args (r ∷ rows) =
      length-append (row_args r) (flush_args rows) ∙ omega (arith, length-flush_args rows)
