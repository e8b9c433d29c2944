-- ===== src/Gateway/Limiter.antt =====
-- observe-gateway/internal/limiter/limiter.go.
-- `Rate` is golang.org/x/time/rate with the float64 that sets its limit: `F` the numbers, `B` a
-- token bucket, none as a limit standing for `rate.Inf`. The Redis script is here command by command: a sorted set
-- is a list of members with their scores, a member standing once. The script's `PEXPIRE` is left
-- out: it drops the set no earlier than the next run of the script would empty it.
pub mod Window
pub mod Spread
pub mod Tenants
use xscope_hub.Prelude.{
  ℕ, ◌+◌, ◌-◌, ◌/◌, Bytes, codes, Bool, true, false, ◌||◌, Option, none, some, List, [], ◌∷◌, ◌++◌,
  Outcome, ok, err, if◌then◌else◌, ◌==◌, leb, ltb, ℤ, pos, negsuc, is_nonpos, is_empty, Dict,
  lookup, insert, Time, Duration, length,
}
use xscope_hub.Prelude.Clock.{minute}

pub record Rate : Type 1 where
  pub F : Type 0
  pub B : Type 0
  pub is_positive : F → Bool
  pub twice : F → ℤ
  pub new_limiter : Option F → ℤ → B
  pub allow : Time → B → Bool × B

-- `ErrRateLimited`, or an error of Redis with its text.
pub data LimitError : Type 0 where
  rate_limited : LimitError
  redis_error : Bytes → LimitError

abbrev pub Members : Type 0
Members = List (ℕ × ℕ)

-- `ZREMRANGEBYSCORE key 0 to`
unfoldable pub remove_up_to : ℕ → Members → Members
remove_up_to to [] = []
remove_up_to to ((m, score) ∷ ms) =
    let rest = remove_up_to to ms in if leb score to then rest else (m, score) ∷ rest

-- `ZADD key score member`
unfoldable pub add_member : ℕ → ℕ → Members → Members
add_member member score [] = (member, score) ∷ []
add_member member score ((m, s) ∷ ms) =
    if m == member then (member, score) ∷ ms else (m, s) ∷ add_member member score ms

-- `redisScript`: whether it returns 1, and the set it leaves. Where `now` is below `window` the
-- range is empty, since no score is negative.
unfoldable pub redis_script : ℕ → ℕ → ℕ → Members → Bool × Members
unfolding remove_up_to add_member
redis_script now window limit ms =
    let kept = if ltb now window then ms else remove_up_to (now - window) ms in
    if leb limit (length kept) then (false, kept) else (true, add_member now now kept)

module _ (rate : Rate) where
  pub record Config : Type 0 where
    pub enabled : Bool
    pub requests_per_second : rate.F
    pub burst : ℤ
    pub window : Duration
    pub redis : Bool

  pub record Limits : Type 0 where
    pub rps : rate.F
    pub burst : ℤ
    pub window : Duration
    pub has_redis : Bool

  -- The buckets of the process, and the sorted sets of Redis by their keys.
  pub record Buckets : Type 0 where
    pub buckets : Dict rate.B
    pub windows : Dict Members

  pub data Limiter : Type 0 where
    disabled : Limiter
    enabled : Limits → Buckets → Limiter

  -- `cfg.Burst`, or twice the rate, and at least 1.
  abbrev pub at_least_one : ℤ → ℤ
  at_least_one b = if is_nonpos b then pos 1 else b

  unfoldable pub new : Config → Limiter
  new cfg =
      if cfg.enabled
      then enabled
          (record {
            rps = cfg.requests_per_second;
            burst =
                if is_nonpos cfg.burst
                then at_least_one (rate.twice cfg.requests_per_second)
                else cfg.burst;
            window = if is_nonpos cfg.window then pos minute else cfg.window;
            has_redis = cfg.redis;
          })
          (record { buckets = []; windows = [] })
      else disabled

  abbrev pub bucket_of : Limits → Option rate.B → rate.B
  bucket_of l (some b) = b
  bucket_of l none = rate.new_limiter (if rate.is_positive l.rps then some l.rps else none) l.burst

  unfoldable pub allow_local : Limits → Time → Bytes → Buckets → Bool × Buckets
  unfolding lookup insert
  allow_local l now tenant s =
      let (allowed, b) = rate.allow now (bucket_of l (lookup tenant s.buckets)) in
      (allowed, record s { buckets = insert tenant b s.buckets })

  abbrev pub to_ℕ : ℤ → ℕ
  to_ℕ (pos n) = n
  to_ℕ (negsuc n) = 0

  abbrev pub members_of : Option Members → Members
  members_of none = []
  members_of (some ms) = ms

  -- `l.window.Milliseconds()`, or a minute's
  abbrev pub window_ms : Limits → ℕ
  window_ms l = let ms = to_ℕ l.window / 1000000 in if ms == 0 then minute / 1000000 else ms

  -- The script run for the tenant's key, `ms` being the time in milliseconds, unless Redis fails.
  unfoldable pub allow_redis :
      Limits → Option Bytes → ℕ → Bytes → Buckets → Outcome LimitError Bool × Buckets
  unfolding redis_script lookup insert
  allow_redis l failure ms tenant s =
      let key = codes "rate:" ++ tenant in
      let (allowed, members) =
        redis_script ms (window_ms l) (to_ℕ (at_least_one l.burst))
          (members_of (lookup key s.windows)) in
      elim failure [
        | some e ↦ (err (redis_error e), s)
        | none ↦ (ok allowed, record s { windows = insert key members s.windows })
      ]

  abbrev pub answer : Outcome LimitError Bool → Outcome LimitError (Unit {0})
  answer (ok true) = ok tt
  answer (ok false) = err rate_limited
  answer (err e) = err e

  abbrev pub answered : Outcome LimitError Bool × Buckets → Outcome LimitError (Unit {0}) × Buckets
  answered (r, s) = (answer r, s)

  -- What follows the local bucket's answer: Redis, where it is configured and the bucket allowed.
  unfoldable pub after_local :
      Limits → Option Bytes → ℕ → Bytes → Bool → Buckets → Outcome LimitError (Unit {0}) × Buckets
  unfolding allow_redis
  after_local l failure ms tenant false s = (err rate_limited, s)
  after_local l failure ms tenant true s =
      if l.has_redis then answered (allow_redis l failure ms tenant s) else (ok tt, s)

  unfoldable pub allow_tenant :
      Limits → Option Bytes → Time → ℕ → Bytes → Buckets → Outcome LimitError (Unit {0}) × Buckets
  unfolding allow_local after_local
  allow_tenant l failure now ms tenant s =
      let (locally, s') = allow_local l now tenant s in after_local l failure ms tenant locally s'

  -- `Allow`; `failure` is the error of Redis, if the call of it fails.
  unfoldable pub allow :
      Option Bytes → Time → ℕ → Bytes → Limiter → Outcome LimitError (Unit {0}) × Limiter
  unfolding allow_tenant
  allow failure now ms tenant disabled = (ok tt, disabled)
  allow failure now ms tenant (enabled l s) =
      if is_empty tenant
      then (ok tt, enabled l s)
      else let (r, s') = allow_tenant l failure now ms tenant s in (r, enabled l s')
