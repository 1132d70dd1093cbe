-- ===== src/Base/Clock.antt =====
-- `time.Time` and `time.Duration` in nanoseconds, and Go's comparisons of them without a
-- subtraction, so that they are exact when the clock steps back.
use Prim.Native.Nat.{ℕ, ◌+◌, ◌*◌, ◌≤◌}
use mathlib.Core.Path.{◌≡◌}
use mathlib.Core.Bool.{Bool, true}
use native.Mathlib.Omega.{arith}
use self_healing_kubernetes.Base.Tests.{ltb, nat_eq}

-- The zero time is 0.
abbrev pub Time : Type 0
Time = ℕ

abbrev pub Duration : Type 0
Duration = ℕ

abbrev pub second : Duration
second = 1_000_000_000

abbrev pub minute : Duration
minute = 60 * 1_000_000_000

abbrev pub hour : Duration
hour = 3600 * 1_000_000_000

-- `t.After(now.Add(-d))`, which is also `now.Sub(t) < d`.
abbrev pub within : Time → Duration → Time → Bool
within now d t = ltb now (t + d)

-- `t.Before(now.Add(-d))`
abbrev pub stale : Time → Duration → Time → Bool
stale now d t = ltb (t + d) now

-- `t.IsZero()`
abbrev pub is_zero : Time → Bool
is_zero t = nat_eq t 0

-- A time that is within the window of a later clock is within that of an earlier one.
pub within_mono :
    (now later : Time) (d : Duration) (t : Time)
    → now ≤ later
    → within later d t ≡ true
    → within now d t ≡ true
within_mono now later d t h w = ground arith
