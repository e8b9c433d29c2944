-- ===== src/Gateway/Config.antt =====
-- observe-gateway/internal/config/config.go. `F` are the numbers of Go's float64, `files` what reads
-- a file, and `decode` the decoding of YAML onto a configuration. The settings of authentication and
-- of the cache are those of Gateway.Auth and Gateway.Cache.
use xscope_hub.Prelude.{
  ℕ, ◌*◌, Bytes, codes, Bool, true, false, [], ◌++◌, Outcome, ok, err, ℤ, pos, Duration, is_empty,
  if◌then◌else◌,
}
use xscope_hub.Prelude.Clock.{second, minute, hour}
use xscope_hub.Gateway.Auth.{AuthConfig}
use xscope_hub.Gateway.Cache.{CacheConfig}

pub record ServerConfig : Type 0 where
  pub address : Bytes
  pub read_timeout : Duration
  pub write_timeout : Duration
  pub idle_timeout : Duration

pub record OpenObserveConfig : Type 0 where
  pub base_url : Bytes
  pub org : Bytes
  pub api_key : Bytes
  pub timeout : Duration
  pub prom_query_endpoint : Bytes
  pub prom_range_endpoint : Bytes
  pub log_search_endpoint : Bytes
  pub trace_search_endpoint : Bytes
  pub log_table : Bytes
  pub trace_table : Bytes

pub record FallbackConfig : Type 0 where
  pub enabled : Bool
  pub base_url : Bytes
  pub api_key : Bytes
  pub timeout : Duration
  pub query_endpoint : Bytes
  pub range_endpoint : Bytes

pub record MetadataConfig : Type 0 where
  pub enabled : Bool
  pub dsn : Bytes
  pub max_connections : ℤ
  pub max_conn_idle_time : Duration
  pub tenant_lookup_query : Bytes

pub record BackendConfig : Type 0 where
  pub openobserve : OpenObserveConfig
  pub fallback : FallbackConfig
  pub metadata : MetadataConfig

-- `os.IsNotExist`, or another error with its text.
pub data FileError : Type 0 where
  not_exist : FileError
  unreadable : Bytes → FileError

module _ (F : Type 0) where
  pub record RateLimiterConfig : Type 0 where
    pub enabled : Bool
    pub requests_per_second : F
    pub burst : ℤ
    pub window : Duration
    pub redis_addr : Bytes
    pub redis_username : Bytes
    pub redis_password : Bytes
    pub redis_db : ℤ
    pub redis_tls_insecure : Bool
    pub redis_tls_ca : Bytes
    pub redis_tls_skip_verify : Bool

  pub record Config : Type 0 where
    pub server : ServerConfig
    pub auth : AuthConfig
    pub rate_limiter : RateLimiterConfig
    pub cache : CacheConfig
    pub audit_enabled : Bool
    pub backends : BackendConfig

module _ {F : Type 0} (whole : ℕ → F) where
  unfoldable pub default_config : Config F
  default_config = record {
    server = record {
      address = codes ":8080";
      read_timeout = pos (15 * second);
      write_timeout = pos (15 * second);
      idle_timeout = pos (60 * second);
    };
    auth = record {
      enabled = false;
      jwks_url = [];
      audience = [];
      issuer = [];
      tenant_claim = codes "tenant";
      user_claim = codes "sub";
      cache_ttl = pos hour;
      insecure_tls = false;
    };
    rate_limiter = record {
      enabled = false;
      requests_per_second = whole 10;
      burst = pos 20;
      window = pos minute;
      redis_addr = [];
      redis_username = [];
      redis_password = [];
      redis_db = pos 0;
      redis_tls_insecure = false;
      redis_tls_ca = [];
      redis_tls_skip_verify = false;
    };
    cache = record {
      enabled = false;
      num_counters = pos 10000;
      max_cost = pos 268435456;
      buffer_items = pos 64;
      ttl = pos minute;
    };
    audit_enabled = true;
    backends = record {
      openobserve = record {
        base_url = codes "http://localhost:5080";
        org = codes "default";
        api_key = [];
        timeout = pos (30 * second);
        prom_query_endpoint = codes "/api/%s/promql/query";
        prom_range_endpoint = codes "/api/%s/promql/query_range";
        log_search_endpoint = codes "/api/%s/_search";
        trace_search_endpoint = codes "/api/%s/traces";
        log_table = codes "logs";
        trace_table = codes "traces";
      };
      fallback = record {
        enabled = false;
        base_url = [];
        api_key = [];
        timeout = pos 0;
        query_endpoint = [];
        range_endpoint = [];
      };
      metadata = record {
        enabled = false;
        dsn = [];
        max_connections = pos 0;
        max_conn_idle_time = pos 0;
        tenant_lookup_query = [];
      };
    };
  }

  module _ (read_file : Bytes → Outcome FileError Bytes)
      (decode : Bytes → Config F → Outcome Bytes (Config F)) where
    abbrev pub decoded : Outcome Bytes (Config F) → Outcome Bytes (Config F)
    decoded (ok cfg) = ok cfg
    decoded (err e) = err (codes "unmarshal config: " ++ e)

    abbrev pub of_file : Outcome FileError Bytes → Outcome Bytes (Config F)
    of_file (err not_exist) = ok default_config
    of_file (err (unreadable e)) = err (codes "read config: " ++ e)
    of_file (ok content) = decoded (decode content default_config)

    unfoldable pub load : Bytes → Outcome Bytes (Config F)
    unfolding default_config
    load path = if is_empty path then ok default_config else of_file (read_file path)
