-- ===== src/Gateway/Start/Sound.antt =====
-- What is known of a gateway that has started.
use xscope_hub.Prelude.{
  Bytes, codes, Bool, true, false, Option, none, some, Outcome, ok, err, ◌≡◌, refl, sym, ap, subst,
  ◌∙◌, ◌⊎◌, inl, inr, if◌then◌else◌, is_nonpos, is_empty, Time, Duration, arith, Bool-cases, pos, ℤ,
}
use xscope_hub.Prelude.Clock.{minute}
use xscope_hub.Gateway.Text.{trim_space}
use xscope_hub.Gateway.Translate.{or_default}
use xscope_hub.Gateway.Backend.{Platform, PromFallback, Client}
use xscope_hub.Gateway.Auth.{Jwx, Authenticator, AuthConfig, refresh, fetched, loaded}
use xscope_hub.Gateway.Auth
use xscope_hub.Gateway.Limiter.{Rate, Limiter, disabled, enabled, at_least_one}
use xscope_hub.Gateway.Limiter
use xscope_hub.Gateway.Cache.{Ristretto, Cache, CacheConfig, off, on, new_cache, with_ttl}
use xscope_hub.Gateway.Config.{Config, MetadataConfig, BackendConfig, FallbackConfig}
use xscope_hub.Gateway.Start.{
  and_then, failing_with, Pool, RedisServer, tenant_query, pinged, open_store, new_metadata_store,
  some_fallback, fallback_of, client_of, new_client, Gateway, limiter_config, start, parsed_dsn,
  connect, connected, query_of, new_openobserve_client, with_openobserve, with_fallback, init_auth,
  init_redis, init_cache, init_backend, gateway_of, after_auth, after_redis, after_cache,
}

abbrev given {ℓ} : {A : Type ℓ} → A → Outcome Bytes A
given a = ok a

and_then-eq-ok {ℓ κ} :
    {A : Type ℓ} {B : Type κ} (o : Outcome Bytes A) (f : A → Outcome Bytes B) (b : B)
    → and_then o f ≡ ok b
    → (a : A) × (o ≡ ok a) × (f a ≡ ok b)
and_then-eq-ok (ok a) f b h = (a, refl, h)
and_then-eq-ok (err e) f b h = cc h

ok-eq-ok {ℓ} : {A : Type ℓ} {a b : A} → given a ≡ ok b → a ≡ b
ok-eq-ok h = cc h

failing_with-eq-ok {ℓ} :
    {A : Type ℓ} (what : Bytes) (o : Outcome Bytes A) (a : A)
    → failing_with what o ≡ ok a
    → o ≡ ok a
failing_with-eq-ok what (ok x) a h = h
failing_with-eq-ok what (err e) a h = cc h

abbrev off_cache : (R : Ristretto) → Cache R
off_cache R = off

abbrev no_query : Option Bytes
no_query = none

abbrev no_fallback : (p : Platform) → Option (PromFallback p)
no_fallback p = none

abbrev pub is_some {ℓ} : {A : Type ℓ} → Option A → Bool
is_some none = false
is_some (some _) = true

or_default-given : (s def : Bytes) → is_empty def ≡ false → is_empty (or_default s def) ≡ false
or_default-given s def h = ground (arith, h)

-- Authentication is off, or there are keys.
abbrev pub HasKeys : {jwx : Jwx} → Authenticator jwx → Type 0
HasKeys {jwx} a = (a.cfg.enabled ≡ false) ⊎ ((s : jwx.Set) × (a.set ≡ some s))

-- A cache keeps entries for some time.
abbrev pub Keeps : {R : Ristretto} → Cache R → Type 0
Keeps off = Unit
Keeps (on ttl s) = is_nonpos ttl ≡ false

-- A limiter lets at least one request through, and has a window.
abbrev pub LetsThrough : {rate : Rate} → Limiter rate → Type 0
LetsThrough disabled = Unit
LetsThrough (enabled l s) = (is_nonpos l.burst ≡ false) × (is_nonpos l.window ≡ false)

-- A query is not empty.
abbrev pub AsksSomething : Option Bytes → Type 0
AsksSomething none = Unit
AsksSomething (some query) = is_empty query ≡ false

positive_or :
    (d def : ℤ) → is_nonpos def ≡ false → is_nonpos (if is_nonpos d then def else d) ≡ false
positive_or d def h = elim (Bool-cases (is_nonpos d)) [
  | inl e ↦ rw (e) h
  | inr e ↦ ap (λ b. is_nonpos (if b then def else d)) e ∙ e
]

module _ (jwx : Jwx) where
  loaded-HasKeys :
      (now : Time) (a : Authenticator jwx) (o : Outcome Bytes jwx.Set) (b : Authenticator jwx)
      → loaded jwx (fetched jwx now a o) ≡ ok b
      → HasKeys b
  loaded-HasKeys now a (ok s) b h =
      let is : record a { set = some s; fetched_at = now } ≡ b = cc h in
      inr (s, ap (λ (c : Authenticator jwx). c.set) (sym is))
  loaded-HasKeys now a (err e) b h = cc h

  abbrev without_keys : Time → AuthConfig → Authenticator jwx
  without_keys now cfg = record { cfg = cfg; set = none; fetched_at = now }

  new-HasKeys :
      (now : Time) (cfg : AuthConfig) (a : Authenticator jwx)
      → Auth.new jwx now cfg ≡ ok a
      → HasKeys a
  unfolding Auth.new refresh
  new-HasKeys now cfg a h = elim (Bool-cases cfg.enabled) [
    | inr e ↦
        let unlocked = without_keys now (record cfg { enabled = false }) in
        let same : given unlocked ≡ ok a = rw (e) at h in
        inl (ap (λ (c : Authenticator jwx). c.cfg.enabled) (sym (ok-eq-ok same)))
    | inl e ↦ elim (Bool-cases (is_empty cfg.jwks_url)) [
      | inl f ↦ cc (rw (e, f) at h)
      | inr f ↦
          loaded-HasKeys now (without_keys now (record cfg { enabled = true }))
            (jwx.fetch cfg.jwks_url) a (rw (e, f) at h)
    ]
  ]

with_ttl-Keeps :
    (R : Ristretto) (ttl : Duration) (o : Outcome Bytes R.S) (c : Cache R)
    → is_nonpos ttl ≡ false
    → with_ttl R ttl o ≡ ok c
    → Keeps c
with_ttl-Keeps R ttl (ok s) c h e = let is : on ttl s ≡ c = cc e in subst Keeps is h
with_ttl-Keeps R ttl (err x) c h e = cc e

new_cache-Keeps :
    (R : Ristretto) (cfg : CacheConfig) (c : Cache R) → new_cache R cfg ≡ ok c → Keeps c
unfolding new_cache
new_cache-Keeps R cfg c h = elim (Bool-cases cfg.enabled) [
  | inl e ↦ with_ttl-Keeps R _ _ c (positive_or cfg.ttl (pos minute) refl) (rw (e) at h)
  | inr e ↦
      let same : given (off_cache R) ≡ ok c = rw (e) at h in
      let is : off_cache R ≡ c = cc same in subst Keeps is tt
]

new-LetsThrough : (rate : Rate) (cfg : Limiter.Config rate) → LetsThrough (Limiter.new rate cfg)
unfolding Limiter.new
new-LetsThrough rate cfg = elim (Bool-cases cfg.enabled) [
  | inl e ↦ rw (e) (
    positive_or cfg.burst _ (positive_or (rate.twice cfg.requests_per_second) (pos 1) refl),
    positive_or cfg.window (pos minute) refl,
  )
  | inr e ↦ rw (e) tt
]

pinged-Asks :
    (pool : Pool) (query : Bytes) (o : Outcome Bytes (Unit {0})) (m : Option Bytes)
    → is_empty query ≡ false
    → pinged pool query o ≡ ok m
    → AsksSomething m × (is_some m ≡ true)
pinged-Asks pool query (ok _) m h e =
    let is : some query ≡ m = cc e in (subst AsksSomething is h, ap is_some (sym is))
pinged-Asks pool query (err x) m h e = cc e

open_store-Asks :
    (pool : Pool) (cfg : MetadataConfig) (m : Option Bytes)
    → open_store pool cfg ≡ ok m
    → AsksSomething m × (is_some m ≡ true)
unfolding open_store
open_store-Asks pool cfg m h =
    let (c, parsed, k) = and_then-eq-ok (parsed_dsn pool cfg) (connect pool cfg) m h in
    let (reply, reached, l) =
      and_then-eq-ok (connected pool cfg c) (pinged pool (query_of pool cfg)) m k in
    pinged-Asks pool (query_of pool cfg) reply m
      (or_default-given (trim_space cfg.tenant_lookup_query) tenant_query refl) l

new_metadata_store-Asks :
    (pool : Pool) (cfg : MetadataConfig) (m : Option Bytes)
    → new_metadata_store pool cfg ≡ ok m
    → AsksSomething m × (is_some m ≡ cfg.enabled)
unfolding new_metadata_store
new_metadata_store-Asks pool cfg m h = elim (Bool-cases cfg.enabled) [
  | inr e ↦
      let same : given no_query ≡ ok m = rw (e) at h in
      let is : no_query ≡ m = cc same in (subst AsksSomething is tt, ap is_some (sym is) ∙ sym e)
  | inl e ↦ elim (Bool-cases (is_empty (trim_space cfg.dsn))) [
    | inl f ↦ cc (rw (e, f) at h)
    | inr f ↦
        let opened : open_store pool cfg ≡ ok m = rw (e, f) at h in
        let asks = open_store-Asks pool cfg m opened in (asks.0, asks.1 ∙ sym e)
  ]
]

some_fallback-given :
    (p : Platform) (o : Outcome Bytes (PromFallback p)) (f : Option (PromFallback p))
    → some_fallback p o ≡ ok f
    → is_some f ≡ true
some_fallback-given p (ok x) f h = let is : some x ≡ f = cc h in ap is_some (sym is)
some_fallback-given p (err e) f h = cc h

fallback_of-given :
    (p : Platform) (cfg : FallbackConfig) (f : Option (PromFallback p))
    → fallback_of p cfg ≡ ok f
    → is_some f ≡ cfg.enabled
fallback_of-given p cfg f h = elim (Bool-cases cfg.enabled) [
  | inl e ↦ some_fallback-given p _ f (rw (e) at h) ∙ sym e
  | inr e ↦
      let same : given (no_fallback p) ≡ ok f = rw (e) at h in
      let is : no_fallback p ≡ f = cc same in ap is_some (sym is) ∙ sym e
]

-- A client has tables to fall back on, and the parts that the configuration switches on.
pub record ClientSound (p : Platform) (cfg : BackendConfig) (c : Client p) : Type 0 where
  pub log_table : is_empty c.default_log_table ≡ false
  pub trace_table : is_empty c.default_trace_table ≡ false
  pub fallback : is_some c.fallback ≡ cfg.fallback.enabled
  pub metadata : is_some c.metadata ≡ cfg.metadata.enabled
  pub query : AsksSomething c.metadata

new_client-Sound :
    (p : Platform) (pool : Pool) (cfg : BackendConfig) (c : Client p)
    → new_client p pool cfg ≡ ok c
    → ClientSound p cfg c
unfolding new_client
new_client-Sound p pool cfg c h =
    let (oo, made, h1) =
      and_then-eq-ok (new_openobserve_client p cfg.openobserve) (with_openobserve p pool cfg) c h in
    let (f, fallen, h2) =
      and_then-eq-ok (fallback_of p cfg.fallback) (with_fallback p pool cfg oo) c h1 in
    let (m, stored, h3) =
      and_then-eq-ok (new_metadata_store pool cfg.metadata)
        (λ m. given (client_of p cfg.openobserve oo f m)) c h2 in
    let is = ok-eq-ok h3 in
    let store = new_metadata_store-Asks pool cfg.metadata m stored in
    subst (ClientSound p cfg) is (record {
      log_table = or_default-given cfg.openobserve.log_table (codes "logs") refl;
      trace_table = or_default-given cfg.openobserve.trace_table (codes "traces") refl;
      fallback = fallback_of-given p cfg.fallback f fallen;
      metadata = store.1;
      query = store.0;
    })

module _ (rate : Rate) (R : Ristretto) (jwx : Jwx) (p : Platform) where
  -- A gateway whose authenticator has keys unless it is off, whose limiter lets requests through,
  -- whose cache keeps entries for a time, and whose client has its tables and parts.
  pub record Sound (cfg : Config rate.F) (g : Gateway rate R jwx p) : Type 0 where
    pub keys : HasKeys g.auth
    pub limits : LetsThrough g.limiter
    pub cache : Keeps g.cache
    pub backend : ClientSound p cfg.backends g.backend

  -- Whatever the configuration, a gateway that starts has keys unless authentication is off, a burst of
  -- at least one and a window longer than none where it limits, a positive time to live where it caches, tables with names, and a
  -- fallback and a metadata store, the latter with a query, exactly where they are switched on.
  pub start-Sound :
      (redis : RedisServer) (pool : Pool) (now : Time) (cfg : Config rate.F)
      (g : Gateway rate R jwx p)
      → start rate R jwx p redis pool now cfg ≡ ok g
      → Sound cfg g
  unfolding start
  start-Sound redis pool now cfg g h =
      let (auth, made, h1) =
        and_then-eq-ok (init_auth rate R jwx p redis pool now cfg)
          (after_auth rate R jwx p redis pool now cfg) g h in
      let (has_redis, reached, h2) =
        and_then-eq-ok (init_redis rate R jwx p redis pool now cfg)
          (after_redis rate R jwx p redis pool now cfg auth) g h1 in
      let (cache, kept, h3) =
        and_then-eq-ok (init_cache rate R jwx p redis pool now cfg)
          (after_cache rate R jwx p redis pool now cfg auth has_redis) g h2 in
      let (client, connected, h4) =
        and_then-eq-ok (init_backend rate R jwx p redis pool now cfg)
          (λ c. given (gateway_of rate R jwx p redis pool now cfg auth has_redis cache c)) g h3 in
      let is = ok-eq-ok h4 in
      subst (Sound cfg) is (record {
        keys =
            new-HasKeys jwx now cfg.auth auth
              (failing_with-eq-ok (codes "init auth: ") _ auth made);
        limits = new-LetsThrough rate (limiter_config rate R jwx p cfg.rate_limiter has_redis);
        cache =
            new_cache-Keeps R cfg.cache cache
              (failing_with-eq-ok (codes "init cache: ") _ cache kept);
        backend =
            new_client-Sound p pool cfg.backends client
              (failing_with-eq-ok (codes "init backend: ") _ client connected);
      })
