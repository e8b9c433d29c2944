-- ===== src/Gateway/Query.antt =====
-- observe-gateway/internal/query/types.go. `parse_duration` is `time.ParseDuration`.
use xscope_hub.Prelude.{
  Bytes, Bool, not, ◌&&◌, Outcome, ok, if◌then◌else◌, Time, Duration, ℤ, pos, ℕ, is_empty,
}
use xscope_hub.Prelude.Clock.{is_zero}

pub record Request : Type 0 where
  pub lang : Bytes
  pub query : Bytes
  pub start : Time
  pub end : Time
  pub step : Bytes
  pub normalize : Bool

pub record Stats : Type 0 where
  pub backend : Bytes
  pub cached : Bool
  pub duration_ms : ℕ
  pub cost : ℤ

pub record Response : Type 0 where
  pub lang : Bytes
  pub tenant : Bytes
  pub result : Bytes
  pub stats : Stats

abbrev pub has_time_range : Request → Bool
has_time_range r = not (is_zero r.start) && not (is_zero r.end)

abbrev pub step_duration : (Bytes → Outcome Bytes Duration) → Request → Outcome Bytes Duration
step_duration parse_duration r = if is_empty r.step then ok (pos 0) else parse_duration r.step
