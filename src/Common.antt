-- ===== src/Common.antt =====
-- common/models.go and common/consts.go: the normalized log record, and the guard on event times.
use pooml.Base.{ℕ, ◌+◌, ◌-◌, ◌%◌, ◌^◌, ◌≤◌, ◌<◌, ◌≡◌, ◌⊎◌, ◌||◌, Option, arith, if◌then◌else◌}
use pooml.Base.Int.{ℤ, pos, pos_part, neg_part, sub_ℕ, ltb_ℤ, ◌+ℤ◌, ◌-ℤ◌, ◌≤ℤ◌, +ℤ_parts, -ℤ_parts}
use pooml.Bytes.{Bytes}

abbrev pub level_trace : ℕ
level_trace = 0

abbrev pub level_debug : ℕ
level_debug = 1

abbrev pub level_info : ℕ
level_info = 2

abbrev pub level_warn : ℕ
level_warn = 3

abbrev pub level_error : ℕ
level_error = 4

abbrev pub level_fatal : ℕ
level_fatal = 5

-- `StandardLog`; a nil pointer is `none`. Times are int64 milliseconds. A parser yields the levels
-- 0 to 5 only, so the level is a number.
pub record StandardLog : Type 0 where
  pub timestamp : ℤ
  pub ingested_at : ℤ
  pub level : Option ℕ
  pub service : Bytes
  pub host : Bytes
  pub message : Option Bytes
  pub parsed : Option Bytes
  pub raw : Bytes

-- The value that an int64 keeps of an integer.
unfoldable pub int64 : ℤ → ℤ
int64 z = sub_ℕ ((pos_part z + 2 ^ 63 + (2 ^ 64 - neg_part z % 2 ^ 64)) % 2 ^ 64) (2 ^ 63)

abbrev pub IsInt64 : ℤ → Type 0
IsInt64 z = (pos_part z < 2 ^ 63) × (neg_part z ≤ 2 ^ 63)

abbrev pub max_future_ms : ℤ
max_future_ms = pos 86400000

abbrev pub max_past_ms : ℤ
max_past_ms = pos 315360000000

-- `ClampTimestamp`
unfoldable pub clamp_timestamp : ℤ → ℤ → ℤ
clamp_timestamp ts received_at =
    if ltb_ℤ (int64 (received_at +ℤ max_future_ms)) ts
      || ltb_ℤ ts (int64 (received_at -ℤ max_past_ms))
    then received_at
    else ts

pub int64_of_IsInt64 : (z : ℤ) → IsInt64 z → int64 z ≡ z
unfolding int64
int64_of_IsInt64 z h = ground arith

-- An arrival time that int64 arithmetic does not wrap on: within 2^62 of 1970.
abbrev pub IsClock : ℤ → Type 0
IsClock t = (pos_part t < 2 ^ 62) × (neg_part t < 2 ^ 62)

-- What is stored lies between ten years before the arrival and a day after it, whatever time the
-- client sent; a time in that window is kept as it is, and any other becomes the arrival time.
pub clamp_timestamp_window :
    (ts received_at : ℤ)
    → IsClock received_at
    → let t = clamp_timestamp ts received_at in
      (received_at -ℤ max_past_ms ≤ℤ t)
      × (t ≤ℤ received_at +ℤ max_future_ms)
      × ((t ≡ ts) ⊎ (t ≡ received_at))
      × (received_at -ℤ max_past_ms ≤ℤ ts → ts ≤ℤ received_at +ℤ max_future_ms → t ≡ ts)
unfolding clamp_timestamp
clamp_timestamp_window ts received_at h = ground (
  arith,
  int64_of_IsInt64 (received_at +ℤ max_future_ms),
  int64_of_IsInt64 (received_at -ℤ max_past_ms),
  +ℤ_parts received_at max_future_ms,
  -ℤ_parts received_at max_past_ms,
)
