-- ===== src/Gateway/Wired.antt =====
-- `New` and `Handler` of observe-gateway/internal/server/server.go: the server over the parts that
-- observe-gateway/cmd/gateway/main.go makes, with its one route. The router and its middleware are
-- chi's: `unrouted` is its answer to what has no route. `Json` is encoding/json with the layout of times.
pub mod Entitled
mod Examples
use xscope_hub.Prelude.{
  ℕ, Bytes, codes, ◌&&◌, Option, none, some, [], Outcome, if◌then◌else◌, same, Time, Duration,
}
use xscope_hub.Gateway.Query.{Request, Response}
use xscope_hub.Gateway.Backend.{Platform, Client, query_prom_ql, query_log_ql, query_trace_ql}
use xscope_hub.Gateway.Auth.{Jwx, Authenticator, Headers}
use xscope_hub.Gateway.Auth
use xscope_hub.Gateway.Limiter.{Rate, Limiter, LimitError}
use xscope_hub.Gateway.Limiter
use xscope_hub.Gateway.Cache.{Ristretto}
use xscope_hub.Gateway.Server.{Outside, Server, Reply, HttpRequest, handle_query}
use xscope_hub.Gateway.Start.{Gateway}

pub record Json : Type 0 where
  pub decode : Bytes → Outcome (Request × Bytes) Request
  pub encode_response : Response → Outcome Bytes Bytes
  pub decode_response : Bytes → Outcome Bytes Response
  pub error_json : Bytes → Bytes
  pub format_time : Time → Bytes

-- When a request comes, how long it takes, and the error of Redis if the call of it fails.
pub record Instant : Type 0 where
  pub now : Time
  pub millis : ℕ
  pub elapsed : ℕ
  pub redis_failure : Option Bytes

abbrev pub headers_of : HttpRequest → Headers
headers_of r = record { authorization = r.authorization; x_tenant = r.x_tenant; x_user = r.x_user }

abbrev pub limit_text : LimitError → Bytes
limit_text LimitError.rate_limited = codes "rate limit exceeded"
limit_text (LimitError.redis_error e) = e

module _ (rate : Rate) (R : Ristretto) (jwx : Jwx) (p : Platform) (json : Json) where
  -- The authenticator and the limiter, which requests change.
  abbrev pub Deps : Type 0
  Deps = Authenticator jwx × Limiter rate

  abbrev pub verified : Time → HttpRequest → Deps → Outcome Bytes (Bytes × Bytes) × Deps
  verified now r (a, l) = let (who, a') = Auth.verify jwx now (headers_of r) a in (who, (a', l))

  abbrev pub allowed : Instant → Bytes → Deps → Outcome LimitError (Unit {0}) × Deps
  allowed t tenant (a, l) =
      let (answer, l') = Limiter.allow rate t.redis_failure t.now t.millis tenant l in
      (answer, (a, l'))

  -- What the handler calls, where its parts are the gateway's own.
  abbrev pub wired : Client p → Instant → Outside
  wired backend t = record {
    store = R;
    L = Deps;
    decode = json.decode;
    encode_response = json.encode_response;
    decode_response = json.decode_response;
    error_json = json.error_json;
    format_time = json.format_time;
    parse_duration = p.parse_duration;
    verify = some (verified t.now);
    allow = some (allowed t);
    limit_text = limit_text;
    prom_ql = query_prom_ql p backend;
    log_ql = query_log_ql p backend;
    trace_ql = query_trace_ql p backend;
    elapsed = t.elapsed;
  }

  -- `New`
  abbrev pub new_server : (g : Gateway rate R jwx p) (t : Instant) → Server (wired g.backend t)
  new_server g t = record {
    active_requests = 0;
    cache = g.cache;
    deps = (g.auth, g.limiter);
    audit_log = g.audit;
    dispatched = [];
  }

  -- `Handler`: `r.Post("/api/query", s.handleQuery)`
  unfoldable pub serve :
      (unrouted : Bytes → Bytes → Reply) (backend : Client p) (t : Instant)
      → Bytes
      → Bytes
      → HttpRequest
      → Server (wired backend t)
      → Reply × Server (wired backend t)
  unfolding handle_query same
  serve unrouted backend t method path r s =
      if same method (codes "POST") && same path (codes "/api/query")
      then handle_query (wired backend t) r s
      else (unrouted method path, s)
