-- ===== src/Gateway/Examples.antt =====
-- Requests to a small gateway, and its parts at work.
use xscope_hub.Prelude.{
  ℕ, Option, ◌==◌, ◌-◌, ◌*◌, ap, same, ◌≤◌, Bytes, codes, Bool, true, false, none, some, List, [],
  ◌∷◌, ◌++◌, ok, err, ◌≡◌, refl, pos, ℤ, Time, Duration, if◌then◌else◌, Dict, lookup, insert, arith,
}
use xscope_hub.Prelude.Clock.{zero_time}
use xscope_hub.Gateway.Query.{Request, Response}
use xscope_hub.Gateway.Cache
use xscope_hub.Gateway.Cache.{Ristretto, StoreConfig}
use xscope_hub.Gateway.Auth.{Jwx, Authenticator, AuthConfig, Headers, Claim, ParseOption, verify}
use xscope_hub.Gateway.Auth.Keys.{Trusted, verify-Trusted}
use xscope_hub.Gateway.Limiter.Tenants.{allow_tenant-isolated}
use xscope_hub.Gateway.Limiter.{Rate, Limits, Buckets, allow_tenant, LimitError}
use xscope_hub.Gateway.Limiter.Window.{run_script, same_time, run_script-same_time}
use xscope_hub.Gateway.Limiter.Spread.{run_script-bound}
use xscope_hub.Gateway.Translate.{escape_sql_value}
use xscope_hub.Gateway.Translate.Literals.{read_literal, meant, escape_sql_value-literal}
use xscope_hub.Gateway.Backend
use xscope_hub.Gateway.Backend.{
  BackendError, unsupported, failure, Result, Platform, Client, OpenObserve, PromFallback,
  HttpReply, SearchBody,
}
use xscope_hub.Gateway.Server
use xscope_hub.Gateway.Server.{Outside, Server, build_cache_key}

abbrev pub up : Request
up = record {
  lang = codes "PromQL";
  query = codes "up";
  start = zero_time;
  end = zero_time;
  step = [];
  normalize = false;
}

abbrev pub date_text : Time → Bytes
date_text t = codes "0001-01-01T00:00:00Z"

escape_sql_value-literal_example :
    read_literal (escape_sql_value (codes " o'hara ") ++ 39 ∷ codes " AND")
    ≡ some (meant (codes " o'hara "), codes " AND")
escape_sql_value-literal_example = escape_sql_value-literal (codes " o'hara ") (codes " AND") refl

run_script-same_time_example : (run_script 60 2 (same_time 5 1000) []).0 ≡ 5
run_script-same_time_example =
    run_script-same_time 5 1000 60 2 (omega arith) (omega arith) (omega arith)

run_script-bound_example :
    (run_script 60 2 (1000 ∷ 1001 ∷ 1010 ∷ []) (run_script 60 2 (900 ∷ 980 ∷ []) []).1).0 ≤ 2
run_script-bound_example =
    run_script-bound 1000 60 2 (900 ∷ 980 ∷ []) (1000 ∷ 1001 ∷ 1010 ∷ [])
      (omega arith, omega arith, (omega arith, omega arith, tt))
      (omega arith, omega arith, (omega arith, omega arith, (omega arith, omega arith, tt)))

-- A store that keeps everything.
abbrev pub keep_all : Ristretto
keep_all = record {
  S = Dict Bytes;
  new_cache = λ (c : StoreConfig). ok [];
  get = λ (s : Dict Bytes) k. lookup k s;
  set_with_ttl = λ k v (cost : ℤ) (ttl : Duration) s. insert k v s;
}

abbrev pub one : Result
one = record { payload = codes "1"; backend = codes "openobserve-promql"; cost = pos 3 }

abbrev pub outside : Outside
outside = record {
  store = keep_all;
  L = Unit;
  decode = λ (b : Bytes). ok up;
  encode_response = λ (r : Response). ok r.result;
  decode_response = λ (b : Bytes). err (codes "no response");
  error_json = λ (b : Bytes). b;
  format_time = date_text;
  parse_duration = λ (b : Bytes). ok (pos 1);
  verify = none;
  allow = none;
  limit_text = λ (e : LimitError). codes "rate limit exceeded";
  prom_ql = λ (t : Bytes) (r : Request). ok one;
  log_ql = λ (t : Bytes) (r : Request). err (failure (codes "down"));
  trace_ql = λ (t : Bytes) (r : Request). err (failure (codes "down"));
  elapsed = 5000000;
}

abbrev pub idle : Server outside
idle = record {
  active_requests = 0;
  cache = Cache.on (pos 60) [];
  deps = tt;
  audit_log = record { enabled = true; out = [] };
  dispatched = [];
}

abbrev pub ask : Server.HttpRequest
ask = record { body = []; x_tenant = codes "acme"; x_user = codes "alice"; authorization = [] }

-- Keys that verify every token, of one claim.
abbrev pub jwx : Jwx
jwx = record {
  Set = Unit;
  fetch = λ (url : Bytes). ok tt;
  parse_string = λ (s : Unit) (o : List ParseOption) (t : Bytes).
      ok (λ (name : Bytes). some (Claim.string name));
}

abbrev pub auth_config : AuthConfig
auth_config = record {
  enabled = true;
  jwks_url = codes "http://keys";
  audience = [];
  issuer = [];
  tenant_claim = codes "tenant";
  user_claim = codes "sub";
  cache_ttl = pos 0;
  insecure_tls = false;
}

abbrev authenticator : Authenticator jwx
authenticator = record { cfg = auth_config; set = none; fetched_at = zero_time }

abbrev bearer : Headers
bearer = record { authorization = codes "Bearer t"; x_tenant = codes "acme"; x_user = [] }

verify-Trusted_example :
    Trusted jwx zero_time bearer auth_config (verify jwx zero_time bearer authenticator)
verify-Trusted_example = verify-Trusted jwx zero_time bearer authenticator refl

-- An OpenObserve that knows no PromQL, and a fallback that answers.
abbrev pub is_oo : Bytes → Bool
is_oo (c ∷ _) = true
is_oo [] = false

abbrev pub reply_to : Bytes → HttpReply
reply_to url = record {
  status = if is_oo url then 404 else 200;
  header = λ (h : Bytes). [];
  body = codes "1";
}

abbrev pub platform : Platform
platform = record {
  Url = Bytes;
  parse_url = λ (u : Bytes). ok u;
  with_params = λ (u : Bytes) (ps : List (Bytes × Bytes)). u;
  with_path = λ (u : Bytes) (path : Bytes). u;
  seconds_of_time = date_text;
  seconds_of_duration = λ (d : Duration). codes "1";
  parse_duration = λ (b : Bytes). ok (pos 1);
  encode_search = λ (b : SearchBody). ok b.sql;
  exchange = λ (r : Backend.HttpRequest). ok (reply_to r.url);
  now = zero_time;
  to_lower = λ (b : Bytes). b;
  query_row = λ (q : Bytes) (t : Bytes). ok none;
}

abbrev pub client : Client platform
client = record {
  oo = record {
    base_url = codes "http://oo";
    default_org = codes "default";
    api_key = [];
    prom_query = codes "/api/%s/promql/query";
    prom_range = [];
    log_search = [];
    trace_search = [];
  };
  fallback = some (record { base_url = []; query_path = []; range_path = []; api_key = [] });
  metadata = some (codes "SELECT");
  default_log_table = codes "logs";
  default_trace_table = codes "traces";
}

abbrev from_fallback : Result
from_fallback = record { payload = codes "1"; backend = codes "fallback-promql"; cost = pos 0 }

-- A bucket is how many requests it still allows.
abbrev pub take_one : ℕ → Bool × ℕ
take_one n = if n == 0 then (false, 0) else (true, n - 1)

abbrev pub counting : Rate
counting = record {
  F = ℕ;
  B = ℕ;
  is_positive = λ (n : ℕ). true;
  twice = λ (n : ℕ). pos (2 * n);
  new_limiter = λ (limit : Option ℕ) (burst : ℤ). 2;
  allow = λ (now : Time) (n : ℕ). take_one n;
}

abbrev limits : Limits counting
limits = record { rps = 1; burst = pos 2; window = pos 60000000; has_redis = true }

abbrev no_requests : Buckets counting
no_requests = record { buckets = []; windows = [] }

allow_tenant-isolated_example :
    (allow_tenant counting limits none zero_time 1001
      (codes "b")
      (allow_tenant counting limits none zero_time 1000 (codes "a") no_requests).1).0
    ≡ (allow_tenant counting limits none zero_time 1001 (codes "b") no_requests).0
unfolding same
allow_tenant-isolated_example =
    allow_tenant-isolated counting limits none none zero_time zero_time 1000 1001 (codes "a")
      (codes "b") no_requests (λ e. cc (ap (λ k. same k (codes "b")) e))
