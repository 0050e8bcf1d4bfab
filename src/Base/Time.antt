-- ===== src/Base/Time.antt =====
-- `Instant` and `Duration` of the standard library, on Linux: an instant counts nanoseconds, and its
-- seconds are a signed 64-bit number.
use Prim.Native.Nat.{ℕ, ◌+◌, ◌-◌, ◌*◌, ◌/◌, ◌^◌}
use mathlib.Core.Option.{Option, none, some}
use gozara.Base.Tests.{ltb, if◌then◌else◌}

abbrev pub nanos : ℕ
nanos = 1000000000

-- `duration_since` stops at zero.
abbrev pub secs_since : ℕ → ℕ → ℕ
secs_since now at = (now - at) / nanos

-- `Instant::checked_add(Duration::from_secs(secs))`
abbrev pub checked_add_secs : ℕ → ℕ → Option ℕ
checked_add_secs now secs =
    if ltb (now / nanos + secs) (2 ^ 63) then some (now + secs * nanos) else none
