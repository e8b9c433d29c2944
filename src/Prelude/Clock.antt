-- ===== src/Prelude/Clock.antt =====
-- Instants and durations of Go's `time`, as far as the program uses them.
use Prim.Native.Nat.{ℕ}
use mathlib.Core.Bool.{Bool}
use xscope_hub.Prelude.Tests.{◌==◌, ltb}
use xscope_hub.Prelude.Int.{ℤ}
use xscope_hub.Prelude.Text.{Bytes, codes}

-- `nanos` counts nanoseconds since Go's zero time, midnight of January 1 of the year 1, UTC.
pub record Time : Type 0 where
  pub nanos : ℕ
  pub location : Bytes

-- A signed number of nanoseconds.
abbrev pub Duration : Type 0
Duration = ℤ

abbrev pub zero_time : Time
zero_time = record { nanos = 0; location = codes "UTC" }

abbrev pub is_zero : Time → Bool
is_zero t = t.nanos == 0

abbrev pub after : Time → Time → Bool
after t u = ltb u.nanos t.nanos

abbrev pub utc : Time → Time
utc t = record t { location = codes "UTC" }

abbrev pub second : ℕ
second = 1000000000

abbrev pub minute : ℕ
minute = 60000000000

abbrev pub hour : ℕ
hour = 3600000000000
