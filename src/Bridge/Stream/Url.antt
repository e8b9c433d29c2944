-- ===== src/Bridge/Stream/Url.antt =====
-- The bounds of a window in the URL of a search.
use xscope_hub.Prelude.{
  ℕ, ◌≤◌, ◌<◌, Bytes, codes, ok, ◌++◌, ◌≡◌, refl, ap, ◌∙◌, arith, ℤ, pos, negsuc,
}
use xscope_hub.Prelude.Strconv.{parse_int}
use xscope_hub.Prelude.Print.{format_int}
use xscope_hub.Prelude.Print.Round.{IsInt64, parse_int-format_int}
use xscope_hub.Bridge.Window.{Instant, Window, signed, unix_milli, milli, word}
use xscope_hub.Bridge.Window.Params.{size, last_second, true_milli, unix_milli-exact}
use xscope_hub.Bridge.Stream.{search_url}

signed-IsInt64 : (u : ℕ) → u < word → IsInt64 (signed u)
unfolding signed
signed-IsInt64 u h = ground (arith, h)

milli-IsInt64 : (s : ℤ) (nanos : ℕ) → IsInt64 (milli s nanos)
milli-IsInt64 (pos a) nanos = signed-IsInt64 _ (omega arith)
milli-IsInt64 (negsuc a) nanos = signed-IsInt64 _ (omega arith)

-- An instant that 64 bits of milliseconds hold.
pub record InRange (t : Instant) : Type 0 where
  pub nanos_below : t.nanos < 1000000000
  pub seconds_within : size t.seconds ≤ last_second

bound_read :
    (t : Instant)
    → InRange t
    → parse_int (format_int (unix_milli t)) ≡ ok (true_milli t.seconds t.nanos)
unfolding unix_milli
bound_read t h =
    parse_int-format_int (unix_milli t) (milli-IsInt64 t.seconds t.nanos)
    ∙ ap ok (unix_milli-exact t h.nanos_below h.seconds_within)

-- For a window within 9223372036854774 seconds of 1970, the two numbers in the URL of a search,
-- read back, are the milliseconds since 1970 of the window's ends.
pub search_url-Bounds :
    (endpoint typ : Bytes) (w : Window)
    → InRange w.from
    → InRange w.to
    → (start : Bytes) × (end : Bytes) × (search_url endpoint typ w
        ≡ endpoint ++ typ ++ codes "/_search?start=" ++ start ++ codes "&end=" ++ end)
      × (parse_int start ≡ ok (true_milli w.from.seconds w.from.nanos))
      × (parse_int end ≡ ok (true_milli w.to.seconds w.to.nanos))
unfolding search_url
search_url-Bounds endpoint typ w h k = (
  format_int (unix_milli w.from),
  format_int (unix_milli w.to),
  refl,
  bound_read w.from h,
  bound_read w.to k,
)
