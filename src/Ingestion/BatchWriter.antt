-- ===== src/Ingestion/BatchWriter.antt =====
-- `batchWriter` and `flushBatch` of ingestion/pipeline.go. `stored` are the rows of logs.db and
-- `dropped` the rows that the writer held when it returned; whether an `Exec` fails is an argument.
-- A failed INSERT stores nothing, as SQLite documents for a single statement.
pub mod Insert
pub mod Turns
use pooml.Base.{
  ℕ, Bool, true, false, List, [], ◌∷◌, ◌++◌, Option, none, some, leb, length, if◌then◌else◌,
}
use pooml.Base.Int.{ℤ, pos}
use pooml.Bytes.{Bytes, codes}
use pooml.Common.{StandardLog}
use pooml.Sql.{value_groups}

abbrev pub batch_size : ℕ
batch_size = 1000

-- The values that are bound to the statement.
pub data Arg : Type 0 where
  int : ℤ → Arg
  text : Bytes → Arg
  null : Arg

pub int_or_null : Option ℕ → Arg
int_or_null none = Arg.null
int_or_null (some n) = Arg.int (pos n)

pub text_or_null : Option Bytes → Arg
text_or_null none = Arg.null
text_or_null (some s) = Arg.text s

abbrev pub insert_prefix : Bytes
insert_prefix =
    codes "INSERT INTO logs(timestamp,ingested_at,level,service,host,message,parsed,raw) VALUES "

pub flush_query : List StandardLog → Bytes
flush_query buf = insert_prefix ++ value_groups (codes "(?,?,?,?,?,?,?,?)") (length buf)

pub flush_args : List StandardLog → List Arg
flush_args [] = []
flush_args (l ∷ buf) =
    Arg.int l.timestamp
    ∷ Arg.int l.ingested_at
    ∷ int_or_null l.level
    ∷ Arg.text l.service
    ∷ Arg.text l.host
    ∷ text_or_null l.message
    ∷ text_or_null l.parsed
    ∷ Arg.text l.raw
    ∷ flush_args buf

pub record Writer : Type 0 where
  pub buf : List StandardLog
  pub armed : Bool
  pub timer : Bool  -- the timer will fire
  pub stored : List StandardLog
  pub dropped : List StandardLog
  pub running : Bool

abbrev pub new_writer : Writer
new_writer = record {
  buf = [];
  armed = false;
  timer = false;
  stored = [];
  dropped = [];
  running = true;
}

-- `tryFlush`; the flag says that the INSERT succeeds.
unfoldable pub try_flush : Bool → Writer → Writer
try_flush ok w =
    if leb (length w.buf) 0
    then w
    else if ok
    then record w { stored = w.stored ++ w.buf; buf = [] }
    else w

-- `drain`, and the return behind it.
unfoldable pub drain : Bool → Writer → Writer
unfolding try_flush
drain ok w =
    let w' = try_flush ok w in
    record w' { dropped = w'.dropped ++ w'.buf; buf = []; running = false }

-- The test of the loop's first `if`.
unfoldable pub is_full : Writer → Bool
is_full w = leb batch_size (length w.buf)

-- The turns of the loop: of the first `if`, and, where the buffer is not full, those of a log
-- received, of the closed channel and of the timer. The writer waits for its timer only while it
-- is armed.
unfoldable pub full_turn : Bool → Writer → Writer
unfolding try_flush
full_turn ok w = try_flush ok w

unfoldable pub receive_turn : StandardLog → Writer → Writer
receive_turn l w =
    let w' = record w { buf = w.buf ++ l ∷ [] } in
    if w.armed then w' else record w' { timer = true; armed = true }

unfoldable pub close_turn : Bool → Writer → Writer
unfolding drain
close_turn ok w = drain ok w

unfoldable pub timer_turn : Bool → Writer → Writer
unfolding try_flush
timer_turn ok w =
    let w' = try_flush ok (record w { timer = false }) in
    if leb 1 (length w'.buf) then record w' { timer = true } else record w' { armed = false }
