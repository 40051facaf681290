-- ===== src/Ingestion/BatchWriter/Insert.antt =====
-- The INSERT of a batch.
use pooml.Base.{ℕ, zero, suc, List, [], ◌∷◌, Option, none, some, length, take, drop, if◌then◌else◌}
use pooml.Base.Int.{pos_part}
use pooml.Bytes.{Bytes, codes, str_eq}
use pooml.Strings.{cut}
use pooml.Strings.Split.{split}
use pooml.Common.{StandardLog}
use pooml.Ingestion.BatchWriter.{Arg, int_or_null, text_or_null}

-- The names between the first parentheses of a statement.
names_before : Option (Bytes × Bytes) → List Bytes
names_before none = []
names_before (some (names, rest)) = split b',' names

names_behind : Option (Bytes × Bytes) → List Bytes
unfolding names_before
names_behind none = []
names_behind (some (table, rest)) = names_before (cut b')' rest)

unfoldable pub column_names : Bytes → List Bytes
unfolding names_behind
column_names statement = names_behind (cut b'(' statement)

-- The value that is bound to a column.
unfoldable pub value_of : Bytes → List Bytes → List Arg → Option Arg
value_of name (column ∷ columns) (arg ∷ args) =
    let later = value_of name columns args in if str_eq column name then some arg else later
value_of name _ _ = none

level_of : Arg → Option ℕ
level_of (Arg.int n) = some (pos_part n)
level_of _ = none

text_of : Arg → Option Bytes
text_of (Arg.text s) = some s
text_of _ = none

row_of :
    Option Arg
    → Option Arg
    → Option Arg
    → Option Arg
    → Option Arg
    → Option Arg
    → Option Arg
    → Option Arg
    → Option StandardLog
unfolding level_of text_of
row_of (some (Arg.int timestamp)) (some (Arg.int ingested_at)) (some level)
      (some (Arg.text service)) (some (Arg.text host)) (some message) (some parsed)
      (some (Arg.text raw)) =
    some (record {
      timestamp = timestamp;
      ingested_at = ingested_at;
      level = level_of level;
      service = service;
      host = host;
      message = text_of message;
      parsed = text_of parsed;
      raw = raw;
    })
row_of _ _ _ _ _ _ _ _ = none

-- The log that a row's values make when each field is taken from the column of its name.
unfoldable pub read_row : List Bytes → List Arg → Option StandardLog
unfolding row_of value_of
read_row columns args =
    row_of (value_of (codes "timestamp") columns args) (value_of (codes "ingested_at") columns args)
      (value_of (codes "level") columns args) (value_of (codes "service") columns args)
      (value_of (codes "host") columns args) (value_of (codes "message") columns args)
      (value_of (codes "parsed") columns args) (value_of (codes "raw") columns args)

-- So many rows, each of one value for every column
unfoldable pub read_rows : List Bytes → ℕ → List Arg → List (Option StandardLog)
unfolding read_row
read_rows columns zero args = []
read_rows columns (suc n) args =
    read_row columns (take (length columns) args) ∷ read_rows columns n (drop (length columns) args)

abbrev columns : List Bytes
columns =
    codes "timestamp"
    ∷ codes "ingested_at"
    ∷ codes "level"
    ∷ codes "service"
    ∷ codes "host"
    ∷ codes "message"
    ∷ codes "parsed"
    ∷ codes "raw"
    ∷ []

row_args : StandardLog → List Arg
row_args l =
    Arg.int l.timestamp
    ∷ Arg.int l.ingested_at
    ∷ int_or_null l.level
    ∷ Arg.text l.service
    ∷ Arg.text l.host
    ∷ text_or_null l.message
    ∷ text_or_null l.parsed
    ∷ Arg.text l.raw
    ∷ []
