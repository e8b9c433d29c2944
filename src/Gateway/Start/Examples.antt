-- ===== src/Gateway/Start/Examples.antt =====
-- A gateway that starts with keys, a limiter, a cache and a fallback, most of whose settings are the
-- defaults.
use xscope_hub.Prelude.{Bytes, codes, true, false, none, some, [], ok, err, pos, ◌≡◌, refl, ℕ}
use xscope_hub.Prelude.Clock.{minute, zero_time}
use xscope_hub.Gateway.Limiter
use xscope_hub.Gateway.Cache
use xscope_hub.Gateway.Config.{Config, default_config}
use xscope_hub.Gateway.Examples.{keep_all, jwx, platform, counting, auth_config}
use xscope_hub.Gateway.Start.{Pool, RedisServer, Gateway, start}
use xscope_hub.Gateway.Start.Sound.{Sound, start-Sound}

abbrev no_pool : Pool
no_pool = record {
  C = Bytes;
  parse_config = λ (dsn : Bytes). ok dsn;
  with_max_conns = λ n c. c;
  with_max_conn_idle_time = λ d c. c;
  new_with_config = λ (c : Bytes). ok (ok tt);
}

abbrev no_redis : RedisServer
no_redis = record {
  read_file = λ path. err (codes "missing");
  has_certs = λ ca. false;
  ping = λ options. ok tt;
}

abbrev plain : Config ℕ
plain = default_config (λ n. n)

abbrev settings : Config ℕ
settings = record plain {
  auth = auth_config;
  rate_limiter = record plain.rate_limiter { enabled = true; burst = pos 0 };
  cache = record plain.cache { enabled = true; ttl = pos 0 };
  backends = record plain.backends {
    fallback = record plain.backends.fallback { enabled = true; base_url = codes "http://vm" };
  };
}

abbrev running : Gateway counting keep_all jwx platform
running = record {
  address = codes ":8080";
  auth = record { cfg = auth_config; set = some tt; fetched_at = zero_time };
  cache = Cache.on (pos minute) [];
  limiter =
      Limiter.enabled (record { rps = 10; burst = pos 20; window = pos minute; has_redis = false })
        (record { buckets = []; windows = [] });
  backend = record {
    oo = record {
      base_url = codes "http://localhost:5080";
      default_org = codes "default";
      api_key = [];
      prom_query = codes "/api/%s/promql/query";
      prom_range = codes "/api/%s/promql/query_range";
      log_search = codes "/api/%s/_search";
      trace_search = codes "/api/%s/traces";
    };
    fallback =
        some
          (record { base_url = codes "http://vm"; query_path = []; range_path = []; api_key = [] });
    metadata = none;
    default_log_table = codes "logs";
    default_trace_table = codes "traces";
  };
  audit = record { enabled = true; out = [] };
}

it_starts : start counting keep_all jwx platform no_redis no_pool zero_time settings ≡ ok running
unfolding start default_config
it_starts = refl

start-Sound_example : Sound counting keep_all jwx platform settings running
start-Sound_example =
    start-Sound counting keep_all jwx platform no_redis no_pool zero_time settings running it_starts
