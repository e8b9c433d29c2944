-- ===== src/Bridge/Window.antt =====
-- observe-bridge/etl/pkg/window/window.go, and `parseWindowParams` of
-- observe-bridge/internal/etl/server.go.
pub mod Params
use xscope_hub.Prelude.{
  ℕ, ◌+◌, ◌-◌, ◌*◌, ◌/◌, ◌%◌, suc, Bytes, codes, Bool, ◌||◌, Option, none, some, ◌++◌, Outcome, ok,
  err, if◌then◌else◌, ltb, ℤ, pos, negsuc, is_empty,
}
use xscope_hub.Prelude.Strconv.{parse_int, int64_cutoff}

-- A `time.Time` of any 64-bit number of seconds: seconds since 1970, and nanoseconds behind them.
pub record Instant : Type 0 where
  pub seconds : ℤ
  pub nanos : ℕ

-- Go's zero time, midnight of January 1 of the year 1, UTC.
abbrev pub zero_instant : Instant
zero_instant = record { seconds = negsuc 62135596799; nanos = 0 }

pub record Window : Type 0 where
  pub from : Instant
  pub to : Instant

abbrev pub empty_window : Window
empty_window = record { from = zero_instant; to = zero_instant }

-- 2^64
abbrev pub word : ℕ
word = 18446744073709551616

-- The signed 64-bit integer that a word of 64 bits stands for.
unfoldable pub signed : ℕ → ℤ
signed u = if ltb u int64_cutoff then pos u else negsuc (word - 1 - u)

-- `t.UnixMilli()`, whose product and sum wrap around.
abbrev pub milli : ℤ → ℕ → ℤ
milli (pos a) nanos = signed ((a * 1000 + nanos / 1000000) % word)
milli (negsuc a) nanos = signed ((word - (suc a * 1000 - nanos / 1000000) % word) % word)

unfoldable pub unix_milli : Instant → ℤ
unfolding signed
unix_milli t = milli t.seconds t.nanos

-- `time.Parse(time.RFC3339, s)`, or none where it fails.
abbrev pub TimeParser : Type 0
TimeParser = Bytes → Option Instant

abbrev pub first_of : Bytes → Outcome ℤ ℤ → Option Instant → Outcome Bytes Instant
first_of s number (some t) = ok t
first_of s (ok i) none = ok (record { seconds = i; nanos = 0 })
first_of s (err _) none = err (codes "invalid time " ++ s)

-- The local function `parse`.
unfoldable pub parse_instant : TimeParser → Bytes → Outcome Bytes Instant
unfolding parse_int
parse_instant rfc3339 s = first_of s (parse_int s) (rfc3339 s)

abbrev pub window_of : Outcome Bytes Instant → Outcome Bytes Instant → Outcome Bytes Window
window_of (err e) to = err e
window_of (ok from) (err e) = err e
window_of (ok from) (ok to) = ok (record { from = from; to = to })

-- A query is "" where the request has none.
unfoldable pub parse_window_params : TimeParser → Bytes → Bytes → Outcome Bytes Window
unfolding parse_instant
parse_window_params rfc3339 from to =
    if is_empty from || is_empty to
    then err (codes "missing from/to")
    else window_of (parse_instant rfc3339 from) (parse_instant rfc3339 to)
