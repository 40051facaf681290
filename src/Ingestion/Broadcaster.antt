-- ===== src/Ingestion/Broadcaster.antt =====
-- ingestion/broadcaster.go. A channel is what waits in its buffer. A subscriber holds the channel
-- made by its `Subscribe`, which no other call makes again, so the channel is named by the
-- subscriber's number; when it is closed, the subscriber keeps what is left in it.
pub mod Delivery
pub mod Interleaved
use pooml.Base.{
  ℕ, ◌+◌, ◌≤◌, Bool, List, [], ◌∷◌, ◌++◌, Option, none, some, ltb, length, if◌then◌else◌,
}
use pooml.Common.{StandardLog}
use pooml.Dict.{nat_eq, lookup, put, delete}

abbrev pub subscriber_buf_size : ℕ
subscriber_buf_size = 100

abbrev pub Chan : Type 0
Chan = List StandardLog

pub record Broadcaster : Type 0 where
  pub subs : List (ℕ × Chan)
  pub next_id : ℕ

abbrev pub new_broadcaster : Broadcaster
new_broadcaster = record { subs = []; next_id = 0 }

-- `select { case ch <- l: default: }`
unfoldable pub offer : StandardLog → Chan → Chan
offer l ch = if ltb (length ch) subscriber_buf_size then ch ++ l ∷ [] else ch

unfoldable pub offer_each : StandardLog → List (ℕ × Chan) → List (ℕ × Chan)
offer_each l [] = []
offer_each l ((id, ch) ∷ subs) = (id, offer l ch) ∷ offer_each l subs

unfoldable pub broadcast : StandardLog → Broadcaster → Broadcaster
broadcast l b = record b { subs = offer_each l b.subs }

-- The number stands for the returned channel and for the returned function.
unfoldable pub subscribe : Broadcaster → Broadcaster × ℕ
subscribe b = (record b { next_id = b.next_id + 1; subs = put b.next_id [] b.subs }, b.next_id)

-- The function that `Subscribe` returns, with what the closed channel still holds; `none` where
-- the channel was closed before, and is not closed again.
unfoldable pub unsubscribe : ℕ → Broadcaster → Broadcaster × Option Chan
unsubscribe id b = elim (lookup id b.subs) [
  | none ↦ (b, none)
  | some ch ↦ (record b { subs = delete id b.subs }, some ch)
]

-- A subscriber takes the next log from its open channel, if there is one.
unfoldable pub take_first : Chan → Chan
take_first [] = []
take_first (l ∷ ch) = ch

unfoldable pub receive : ℕ → Broadcaster → Broadcaster
receive id b = elim (lookup id b.subs) [
  | none ↦ b
  | some ch ↦ record b { subs = put id (take_first ch) b.subs }
]
