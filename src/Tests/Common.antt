-- ===== src/Tests/Common.antt =====
-- Event times around an arrival in 2026.
use pooml.Base.{◌≡◌, ◌⊎◌, refl, arith}
use pooml.Base.Int.{pos, negsuc, ◌≤ℤ◌, ◌-ℤ◌, ◌+ℤ◌}
use pooml.Common.{clamp_timestamp, clamp_timestamp_window, int64, max_past_ms, max_future_ms}

far_future : clamp_timestamp (pos 9999999999999) (pos 1780000000000) ≡ pos 1780000000000
unfolding clamp_timestamp int64 ◌+ℤ◌ ◌-ℤ◌
far_future = refl

before_1970 : clamp_timestamp (negsuc 0) (pos 1780000000000) ≡ pos 1780000000000
unfolding clamp_timestamp int64 ◌+ℤ◌ ◌-ℤ◌
before_1970 = refl

clamp_timestamp_window_example :
    let t = clamp_timestamp (pos 1779999990000) (pos 1780000000000) in
    (pos 1780000000000 -ℤ max_past_ms ≤ℤ t)
    × (t ≤ℤ pos 1780000000000 +ℤ max_future_ms)
    × ((t ≡ pos 1779999990000) ⊎ (t ≡ pos 1780000000000))
    × (pos 1780000000000 -ℤ max_past_ms ≤ℤ pos 1779999990000
        → pos 1779999990000 ≤ℤ pos 1780000000000 +ℤ max_future_ms
        → t ≡ pos 1779999990000)
clamp_timestamp_window_example =
    clamp_timestamp_window (pos 1779999990000) (pos 1780000000000) (omega arith)
