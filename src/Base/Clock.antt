-- ===== src/Base/Clock.antt =====
-- A `time.Time` counts nanoseconds from Go's zero time; durations that are added to it are
-- nanoseconds too.
use Prim.Native.Nat.{ℕ}

abbrev pub Time : Type 0
Time = ℕ

abbrev pub second : ℕ
second = 1_000_000_000

abbrev pub minute : ℕ
minute = 60_000_000_000

-- One time.Millisecond.
abbrev pub millisecond : ℕ
millisecond = 1_000_000
