-- ===== src/Core/Time.antt =====
-- crates/ort-core/src/time.rs: the acceptance window of a signed timestamp, and the clocks. A
-- function that reads a clock takes the reading.
use ort.Prelude.{
  ℕ, ◌+◌, ◌-◌, ◌%◌, ◌^◌, ◌≤◌, min, ◌≡◌, ◌↔◌, Result, ok, err, ltb, if◌then◌else◌, max_u64, IsU64,
  arith,
}
use ort.Core.Error.{CoreResult, stale_timestamp}

pub record FixedClock : Type 0 where
  pub millis : ℕ

unfoldable pub new : ℕ → FixedClock
new millis = record { millis = millis }

unfoldable pub set : FixedClock → ℕ → FixedClock
set c millis = record { millis = millis }

-- `fetch_add` wraps.
unfoldable pub advance : FixedClock → ℕ → FixedClock
advance c delta = record { millis = (c.millis + delta) % 2 ^ 64 }

unfoldable pub now_millis : FixedClock → ℕ
now_millis c = c.millis

-- `SystemClock`, on what `duration_since(UNIX_EPOCH)` answers, in milliseconds; the cast to 64 bits
-- wraps, and a clock before the epoch reads as zero.
unfoldable pub system_millis {ℓ} : {E : Type ℓ} → Result E ℕ → ℕ
system_millis (ok millis) = millis % 2 ^ 64
system_millis (err e) = 0

-- Each reading fits the field that carries it.
pub system_millis-IsU64 {ℓ} : {E : Type ℓ} (since : Result E ℕ) → IsU64 (system_millis since)
unfolding system_millis
system_millis-IsU64 (ok millis) = omega arith
system_millis-IsU64 (err e) = omega arith

abbrev pub saturating_add : ℕ → ℕ → ℕ
saturating_add a b = min (a + b) max_u64

-- `saturating_sub` is the subtraction of ℕ.
unfoldable pub check_window : ℕ → ℕ → ℕ → ℕ → CoreResult (Unit {0})
check_window now_ms ts_ms window_ms skew_ms =
    if ltb (saturating_add now_ms skew_ms) ts_ms
    then err stale_timestamp
    else if ltb window_ms (now_ms - ts_ms)
    then err stale_timestamp
    else ok tt

-- A 64-bit timestamp is accepted exactly when it is at most `skew` ahead and at most `window`
-- behind. The saturation at the end of the 64-bit range changes no answer.
pub check_window_iff :
    (now ts window skew : ℕ)
    → IsU64 ts
    → (check_window now ts window skew ≡ ok tt) ↔ ((ts ≤ now + skew) × (now ≤ ts + window))
unfolding check_window
check_window_iff now ts window skew h = ground arith

-- The only error is a stale timestamp.
pub check_window_cases :
    (now ts window skew : ℕ)
    → IsU64 ts
    → ¬ ((ts ≤ now + skew) × (now ≤ ts + window))
    → check_window now ts window skew ≡ err stale_timestamp
unfolding check_window
check_window_cases now ts window skew h k = ground arith
