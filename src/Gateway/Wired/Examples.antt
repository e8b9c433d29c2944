-- ===== src/Gateway/Wired/Examples.antt =====
-- A request to a gateway, with a token, which OpenObserve does not answer and its
-- fallback does.
use xscope_hub.Prelude.{Bytes, true, pos, codes, none, [], ok, err, ◌≡◌, refl, arith, ap}
use xscope_hub.Prelude.Clock.{minute, zero_time}
use xscope_hub.Gateway.Limiter
use xscope_hub.Gateway.Cache
use xscope_hub.Gateway.Query.{Response}
use xscope_hub.Gateway.Server.{Server, Reply, HttpRequest}
use xscope_hub.Gateway.Start.{Gateway}
use xscope_hub.Gateway.Examples.{
  keep_all, jwx, platform, counting, client, auth_config, up, date_text,
}
use xscope_hub.Gateway.Wired.{Json, Instant, wired, new_server, serve}
use xscope_hub.Gateway.Wired.Entitled.{Entitled, serve-Entitled}

abbrev json : Json
json = record {
  decode = λ (b : Bytes). ok up;
  encode_response = λ (r : Response). ok r.result;
  decode_response = λ (b : Bytes). err (codes "no response");
  error_json = λ (b : Bytes). b;
  format_time = date_text;
}

abbrev instant : Instant
instant = record { now = zero_time; millis = 1000; elapsed = 5000000; redis_failure = none }

abbrev gateway : Gateway counting keep_all jwx platform
gateway = record {
  address = codes ":8080";
  auth = record { cfg = auth_config; set = none; fetched_at = zero_time };
  cache = Cache.on (pos minute) [];
  limiter =
      Limiter.enabled (record { rps = 10; burst = pos 20; window = pos minute; has_redis = true })
        (record { buckets = []; windows = [] });
  backend = client;
  audit = record { enabled = true; out = [] };
}

abbrev server : Server (wired counting keep_all jwx platform json client instant)
server = new_server counting keep_all jwx platform json gateway instant

abbrev asked : HttpRequest
asked = record { body = []; x_tenant = codes "acme"; x_user = []; authorization = codes "Bearer t" }

abbrev not_found : Bytes → Bytes → Reply
not_found method path = record { status = 404; body = [] }

post_answered :
    (serve counting keep_all jwx platform json not_found client instant
      (codes "POST")
      (codes "/api/query")
      asked
      server).0
    ≡ record { status = 200; body = codes "1" }
unfolding serve xscope_hub.Gateway.Auth.verify Limiter.allow
    xscope_hub.Gateway.Backend.query_prom_ql
post_answered = refl

get_unrouted :
    (serve counting keep_all jwx platform json not_found client instant
      (codes "GET")
      (codes "/api/query")
      asked
      server).0.status
    ≡ 404
unfolding serve
get_unrouted = refl

serve-Entitled_example :
    Entitled counting keep_all jwx platform json client instant asked server
      (serve counting keep_all jwx platform json not_found client instant
        (codes "POST")
        (codes "/api/query")
        asked
        server).0
serve-Entitled_example =
    serve-Entitled counting keep_all jwx platform json client instant asked server not_found
      (codes "POST") (codes "/api/query") (λ m q h. omega (arith, h)) refl
      (ap (λ (r : Reply). r.status) post_answered)
