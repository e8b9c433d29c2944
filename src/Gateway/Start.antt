-- ===== src/Gateway/Start.antt =====
-- The making of the parts of observe-gateway: `New` of internal/backend/client.go with the clients it
-- makes, `newMetadataStore` of internal/backend/metadata.go, and observe-gateway/cmd/gateway/main.go
-- up to the listener. `Pool` is pgx and `RedisServer` go-redis. The timeout of an HTTP client stands
-- with the exchange of `Platform` and is left out of the clients.
pub mod Sound
mod Examples
use xscope_hub.Prelude.{
  Bytes, codes, Bool, true, false, not, ◌||◌, Option, none, some, [], ◌++◌, Outcome, ok, err,
  if◌then◌else◌, ℤ, pos, is_nonpos, is_empty, Time, Duration, ℕ,
}
use xscope_hub.Gateway.Text.{trim_space, drop_while}
use xscope_hub.Gateway.Translate.{or_default}
use xscope_hub.Gateway.Backend.{Platform, OpenObserve, PromFallback, Client}
use xscope_hub.Gateway.Auth.{Jwx, Authenticator}
use xscope_hub.Gateway.Auth
use xscope_hub.Gateway.Limiter.{Rate, Limiter}
use xscope_hub.Gateway.Limiter
use xscope_hub.Gateway.Cache.{Ristretto, Cache, new_cache}
use xscope_hub.Gateway.Audit.{Logger}
use xscope_hub.Gateway.Config.{
  Config, OpenObserveConfig, FallbackConfig, MetadataConfig, BackendConfig, RateLimiterConfig,
}

-- The next call of a constructor, unless one before it failed.
abbrev pub and_then {ℓ κ} :
    {A : Type ℓ} {B : Type κ} → Outcome Bytes A → (A → Outcome Bytes B) → Outcome Bytes B
and_then (ok a) f = f a
and_then (err e) f = err e

abbrev pub failing_with {ℓ} : {A : Type ℓ} → Bytes → Outcome Bytes A → Outcome Bytes A
failing_with what (ok a) = ok a
failing_with what (err e) = err (what ++ e)

-- `pgxpool`: a configuration, which is changed and connected to, and the ping of what is connected.
pub record Pool : Type 1 where
  pub C : Type 0
  pub parse_config : Bytes → Outcome Bytes C
  pub with_max_conns : ℤ → C → C
  pub with_max_conn_idle_time : Duration → C → C
  pub new_with_config : C → Outcome Bytes (Outcome Bytes (Unit {0}))

pub record Tls : Type 0 where
  pub insecure_skip_verify : Bool
  pub root_cas : Option Bytes

pub record RedisOptions : Type 0 where
  pub addr : Bytes
  pub username : Bytes
  pub password : Bytes
  pub db : ℤ
  pub tls : Option Tls

pub record RedisServer : Type 0 where
  pub read_file : Bytes → Outcome Bytes Bytes
  pub has_certs : Bytes → Bool
  pub ping : RedisOptions → Outcome Bytes (Unit {0})

abbrev pub tenant_query : Bytes
tenant_query = codes "SELECT org, log_table, trace_table FROM tenant_metadata WHERE tenant = $1"

module _ (pool : Pool) where
  abbrev pub pinged : Bytes → Outcome Bytes (Unit {0}) → Outcome Bytes (Option Bytes)
  pinged query (ok _) = ok (some query)
  pinged query (err e) = err (codes "ping metadata db: " ++ e)

  abbrev pub pool_config : MetadataConfig → pool.C → pool.C
  pool_config cfg c =
      let sized =
        if is_nonpos cfg.max_connections then c else pool.with_max_conns cfg.max_connections c in
      if is_nonpos cfg.max_conn_idle_time
      then sized
      else pool.with_max_conn_idle_time cfg.max_conn_idle_time sized

  abbrev pub query_of : MetadataConfig → Bytes
  query_of cfg = or_default (trim_space cfg.tenant_lookup_query) tenant_query

  abbrev pub parsed_dsn : MetadataConfig → Outcome Bytes pool.C
  parsed_dsn cfg = failing_with (codes "parse metadata dsn: ") (pool.parse_config cfg.dsn)

  abbrev pub connected : MetadataConfig → pool.C → Outcome Bytes (Outcome Bytes (Unit {0}))
  connected cfg c =
      failing_with (codes "connect metadata db: ") (pool.new_with_config (pool_config cfg c))

  abbrev pub connect : MetadataConfig → pool.C → Outcome Bytes (Option Bytes)
  connect cfg c = and_then (connected cfg c) (pinged (query_of cfg))

  -- Connecting, for a `dsn` that is not blank.
  unfoldable pub open_store : MetadataConfig → Outcome Bytes (Option Bytes)
  unfolding drop_while
  open_store cfg = and_then (parsed_dsn cfg) (connect cfg)

  -- `newMetadataStore`: the text of its query, none where it is switched off
  unfoldable pub new_metadata_store : MetadataConfig → Outcome Bytes (Option Bytes)
  unfolding drop_while open_store
  new_metadata_store cfg =
      if not cfg.enabled
      then ok none
      else if is_empty (trim_space cfg.dsn)
      then err (codes "metadata dsn required")
      else open_store cfg

module _ (p : Platform) where
  -- `newOpenObserveClient`
  unfoldable pub new_openobserve_client : OpenObserveConfig → Outcome Bytes (OpenObserve p)
  new_openobserve_client cfg =
      if is_empty cfg.base_url
      then err (codes "openobserve base_url required")
      else and_then (failing_with (codes "parse base_url: ") (p.parse_url cfg.base_url)) λ u.
        ok (record {
          base_url = u;
          default_org = cfg.org;
          api_key = cfg.api_key;
          prom_query = cfg.prom_query_endpoint;
          prom_range = cfg.prom_range_endpoint;
          log_search = cfg.log_search_endpoint;
          trace_search = cfg.trace_search_endpoint;
        })

  -- `newPromFallbackClient`
  unfoldable pub new_prom_fallback_client : FallbackConfig → Outcome Bytes (PromFallback p)
  new_prom_fallback_client cfg =
      if is_empty cfg.base_url
      then err (codes "fallback base_url required")
      else and_then (failing_with (codes "parse fallback base_url: ") (p.parse_url cfg.base_url))
          λ u. ok (record {
            base_url = u;
            query_path = cfg.query_endpoint;
            range_path = cfg.range_endpoint;
            api_key = cfg.api_key;
          })

  abbrev pub some_fallback :
      Outcome Bytes (PromFallback p) → Outcome Bytes (Option (PromFallback p))
  some_fallback (ok f) = ok (some f)
  some_fallback (err e) = err e

  abbrev pub fallback_of : FallbackConfig → Outcome Bytes (Option (PromFallback p))
  fallback_of cfg = if cfg.enabled then some_fallback (new_prom_fallback_client cfg) else ok none

  abbrev pub client_of :
      OpenObserveConfig → OpenObserve p → Option (PromFallback p) → Option Bytes → Client p
  client_of cfg oo fallback metadata = record {
    oo = oo;
    fallback = fallback;
    metadata = metadata;
    default_log_table = or_default cfg.log_table (codes "logs");
    default_trace_table = or_default cfg.trace_table (codes "traces");
  }

  abbrev pub with_fallback :
      Pool → BackendConfig → OpenObserve p → Option (PromFallback p) → Outcome Bytes (Client p)
  with_fallback pool cfg oo fallback =
      and_then (new_metadata_store pool cfg.metadata)
        λ metadata. ok (client_of cfg.openobserve oo fallback metadata)

  abbrev pub with_openobserve : Pool → BackendConfig → OpenObserve p → Outcome Bytes (Client p)
  with_openobserve pool cfg oo = and_then (fallback_of cfg.fallback) (with_fallback pool cfg oo)

  -- `backend.New`
  unfoldable pub new_client : Pool → BackendConfig → Outcome Bytes (Client p)
  unfolding new_openobserve_client new_prom_fallback_client new_metadata_store
  new_client pool cfg =
      and_then (new_openobserve_client cfg.openobserve) (with_openobserve pool cfg)

module _ {F : Type 0} (redis : RedisServer) where
  abbrev pub ca_of : RateLimiterConfig F → Outcome Bytes (Option Bytes)
  ca_of cfg =
      if is_empty cfg.redis_tls_ca
      then ok none
      else and_then (redis.read_file cfg.redis_tls_ca) λ ca.
        if redis.has_certs ca then ok (some ca) else err (codes "failed to append redis tls ca")

  abbrev pub some_tls : RateLimiterConfig F → Option Bytes → Option Tls
  some_tls cfg ca =
      some (record { insecure_skip_verify = cfg.redis_tls_skip_verify; root_cas = ca })

  abbrev pub tls_of : RateLimiterConfig F → Outcome Bytes (Option Tls)
  tls_of cfg =
      if cfg.redis_tls_insecure || cfg.redis_tls_skip_verify || not (is_empty cfg.redis_tls_ca)
      then (and_then (ca_of cfg) λ ca. ok (some_tls cfg ca))
      else ok none

  -- `buildRedisClient`: whether there is a client
  unfoldable pub build_redis_client : RateLimiterConfig F → Outcome Bytes Bool
  build_redis_client cfg =
      if not cfg.enabled || is_empty cfg.redis_addr
      then ok false
      else and_then (tls_of cfg) λ tls.
        and_then
          (redis.ping (record {
            addr = cfg.redis_addr;
            username = cfg.redis_username;
            password = cfg.redis_password;
            db = cfg.redis_db;
            tls = tls;
          }))
          λ _. ok true

module _ (rate : Rate) (R : Ristretto) (jwx : Jwx) (p : Platform) where
  pub record Gateway : Type 0 where
    pub address : Bytes
    pub auth : Authenticator jwx
    pub cache : Cache R
    pub limiter : Limiter rate
    pub backend : Client p
    pub audit : Logger

  abbrev pub limiter_config : RateLimiterConfig rate.F → Bool → Limiter.Config rate
  limiter_config cfg has_redis = record {
    enabled = cfg.enabled;
    requests_per_second = cfg.requests_per_second;
    burst = cfg.burst;
    window = cfg.window;
    redis = has_redis;
  }

  module _ (redis : RedisServer) (pool : Pool) (now : Time) (cfg : Config rate.F) where
    abbrev pub init_auth : Outcome Bytes (Authenticator jwx)
    init_auth = failing_with (codes "init auth: ") (Auth.new jwx now cfg.auth)

    abbrev pub init_redis : Outcome Bytes Bool
    init_redis = failing_with (codes "init redis: ") (build_redis_client redis cfg.rate_limiter)

    abbrev pub init_cache : Outcome Bytes (Cache R)
    init_cache = failing_with (codes "init cache: ") (new_cache R cfg.cache)

    abbrev pub init_backend : Outcome Bytes (Client p)
    init_backend = failing_with (codes "init backend: ") (new_client p pool cfg.backends)

    abbrev pub gateway_of : Authenticator jwx → Bool → Cache R → Client p → Gateway
    gateway_of auth has_redis cache backend = record {
      address = cfg.server.address;
      auth = auth;
      cache = cache;
      limiter = Limiter.new rate (limiter_config cfg.rate_limiter has_redis);
      backend = backend;
      audit = record { enabled = cfg.audit_enabled; out = [] };
    }

    abbrev pub after_cache : Authenticator jwx → Bool → Cache R → Outcome Bytes Gateway
    after_cache auth has_redis cache =
        and_then init_backend λ backend. ok (gateway_of auth has_redis cache backend)

    abbrev pub after_redis : Authenticator jwx → Bool → Outcome Bytes Gateway
    after_redis auth has_redis = and_then init_cache (after_cache auth has_redis)

    abbrev pub after_auth : Authenticator jwx → Outcome Bytes Gateway
    after_auth auth = and_then init_redis (after_redis auth)

    -- `main` behind the reading of the configuration, up to the listener
    unfoldable pub start : Outcome Bytes Gateway
    unfolding build_redis_client new_client new_cache Limiter.new Auth.new
    start = and_then init_auth after_auth
