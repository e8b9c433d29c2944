-- ===== src/Gateway/Cache.antt =====
-- observe-gateway/internal/cache/cache.go. The ristretto store is a parameter: its contents `S`, and
-- what it finds and keeps, which is its own choice.
use xscope_hub.Prelude.{
  Bytes, Bool, Option, none, Outcome, ok, err, if◌then◌else◌, ℤ, pos, Duration, is_nonpos, length,
}
use xscope_hub.Prelude.Clock.{minute}

-- `ristretto.Config`, as far as the source fills it.
pub record StoreConfig : Type 0 where
  pub num_counters : ℤ
  pub max_cost : ℤ
  pub buffer_items : ℤ

pub record Ristretto : Type 1 where
  pub S : Type 0
  pub new_cache : StoreConfig → Outcome Bytes S
  pub get : S → Bytes → Option Bytes
  pub set_with_ttl : Bytes → Bytes → ℤ → Duration → S → S

pub record CacheConfig : Type 0 where
  pub enabled : Bool
  pub num_counters : ℤ
  pub max_cost : ℤ
  pub buffer_items : ℤ
  pub ttl : Duration

-- `int64OrDefault`
abbrev pub int64_or_default : ℤ → ℤ → ℤ
int64_or_default v def = if is_nonpos v then def else v

module _ (R : Ristretto) where
  -- A cache that is switched off has no store.
  pub data Cache : Type 0 where
    off : Cache
    on : Duration → R.S → Cache

  abbrev pub with_ttl : Duration → Outcome Bytes R.S → Outcome Bytes Cache
  with_ttl ttl (ok s) = ok (on ttl s)
  with_ttl ttl (err e) = err e

  unfoldable pub new_cache : CacheConfig → Outcome Bytes Cache
  new_cache cfg =
      if cfg.enabled
      then with_ttl (if is_nonpos cfg.ttl then pos minute else cfg.ttl) (
          R.new_cache (record {
            num_counters = cfg.num_counters;
            max_cost = cfg.max_cost;
            buffer_items = int64_or_default cfg.buffer_items (pos 64);
          }))
      else ok off

  unfoldable pub get : Cache → Bytes → Option Bytes
  get off key = none
  get (on ttl s) key = R.get s key

  unfoldable pub set : Bytes → Bytes → ℤ → Cache → Cache
  set key val cost off = off
  set key val cost (on ttl s) =
      on ttl (R.set_with_ttl key val (if is_nonpos cost then pos (length val) else cost) ttl s)
