-- ===== src/Time.antt =====
-- Times of the standard library, tokio and bson: a `Duration` is a number of nanoseconds, a
-- `DateTime` a number of milliseconds since the epoch.
use getitdone.Prelude.{◌%◌, ◌^◌, ◌-◌, ltb, ℕ, ◌*◌, ◌/◌, Option, some, none, if◌then◌else◌, leb}
use getitdone.Prelude.Int.{ℤ, pos, negsuc, i64_max}

-- `Duration::from_millis`, `Duration::from_secs` and `Duration::as_millis`
abbrev pub from_millis : ℕ → ℕ
from_millis n = n * 1_000_000

abbrev pub from_secs : ℕ → ℕ
from_secs n = n * 1_000_000_000

abbrev pub as_millis : ℕ → ℕ
as_millis d = d / 1_000_000

-- `i64::try_from(d.as_millis()).unwrap_or(i64::MAX)`
abbrev pub clamped_millis : ℕ → ℤ
clamped_millis d =
    if leb (as_millis d) 9_223_372_036_854_775_807 then pos (as_millis d) else i64_max

-- `d.as_millis() as i64`, which wraps.
abbrev pub wrapped_millis : ℕ → ℤ
wrapped_millis d =
    let n = as_millis d % 2 ^ 64 in if ltb n (2 ^ 63) then pos n else negsuc (2 ^ 64 - 1 - n)

-- `u64::try_from(millis).ok()`
abbrev pub u64_of : ℤ → Option ℕ
u64_of (pos n) = some n
u64_of (negsuc n) = none
