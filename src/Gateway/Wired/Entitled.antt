-- ===== src/Gateway/Wired/Entitled.antt =====
-- What an answer of the whole gateway rests on: its authenticator, its limiter and its back end.
use xscope_hub.Prelude.{
  Bytes, codes, true, ◌&&◌, some, Outcome, ok, err, ◌≡◌, ◌≢◌, ◌⊎◌, inl, inr, subst, same,
  Bool-cases,
}
use xscope_hub.Gateway.Query.{Request}
use xscope_hub.Gateway.Backend.{Platform, Client, Result}
use xscope_hub.Gateway.Auth.{Jwx, Authenticator, AuthConfig, Headers, verify}
use xscope_hub.Gateway.Auth.Keys.{Trusted, verify-Trusted}
use xscope_hub.Gateway.Limiter.{Rate, allow}
use xscope_hub.Gateway.Cache
use xscope_hub.Gateway.Cache.{Ristretto}
use xscope_hub.Gateway.Server.{
  Server, Reply, HttpRequest, dispatch, response, identify, limit, handle_query,
}
use xscope_hub.Gateway.Server.Answers.{Admitted, IsDecoded, Served, key_of, handle_query-Served}
use xscope_hub.Gateway.Wired.{Json, Instant, headers_of, wired, serve}

module _ (rate : Rate) (R : Ristretto) (jwx : Jwx) (p : Platform) (json : Json) (backend : Client p)
    (t : Instant) where
  Trusted-who :
      (h : Headers) (cfg : AuthConfig) (x : Outcome Bytes (Bytes × Bytes) × Authenticator jwx)
      (who : Bytes × Bytes)
      → x.0 ≡ ok who
      → Trusted jwx t.now h cfg x
      → Trusted jwx t.now h cfg (ok who, x.1)
  Trusted-who h cfg (ok w, a) who e trusted =
      let is : w ≡ who = cc e in subst (λ v. Trusted jwx t.now h cfg (ok v, a)) is trusted
  Trusted-who h cfg (err m, a) who e trusted = cc e

  module _ (r : HttpRequest) (s : Server (wired rate R jwx p json backend t)) where
    -- The answer is the one that is stored under the request's key, or encodes what the back end
    -- gives to the tenant's query.
    abbrev pub IsAnswer : Bytes → Request → Bytes → Type 0
    IsAnswer tenant req body =
        (Cache.get R s.cache (key_of (wired rate R jwx p json backend t) r tenant req) ≡ some body)
        ⊎ ((result : Result) × (dispatch (wired rate R jwx p json backend t) tenant req ≡ ok result)
            × (json.encode_response (response (wired rate R jwx p json backend t) tenant req result)
                ≡ ok body))

    -- The tenant whom the request's token names may ask it, and this is the answer.
    abbrev pub Entitled : Reply → Type 0
    Entitled reply =
        (tenant : Bytes) × (user : Bytes) × (req : Request) × Trusted jwx t.now (headers_of r)
          s.deps.0.cfg (ok (tenant, user), (verify jwx t.now (headers_of r) s.deps.0).1)
        × ((allow rate t.redis_failure t.now t.millis tenant s.deps.1).0 ≡ ok tt)
        × IsDecoded (wired rate R jwx p json backend t) r req
        × IsAnswer tenant req reply.body

    Admitted-Entitled :
        (tenant : Bytes) (req : Request) (reply : Reply)
        → s.deps.0.cfg.enabled ≡ true
        → Admitted (wired rate R jwx p json backend t) r s.deps tenant req
        → IsAnswer tenant req reply.body
        → Entitled reply
    unfolding identify limit
    Admitted-Entitled tenant req reply enabled (_, _, _, decoded, (user, who), allowed) answer = (
      tenant,
      user,
      req,
      Trusted-who (headers_of r) s.deps.0.cfg (verify jwx t.now (headers_of r) s.deps.0)
          (tenant, user) who (verify-Trusted jwx t.now (headers_of r) s.deps.0 enabled),
      allowed,
      decoded,
      answer,
    )

    Served-Entitled :
        (x : Reply × Server (wired rate R jwx p json backend t))
        → s.deps.0.cfg.enabled ≡ true
        → Served (wired rate R jwx p json backend t) r s.deps s x
        → x.0.status ≡ 200
        → Entitled x.0
    Served-Entitled (reply, s') enabled (_, inl (fails, _, _)) success = absurd (fails success)
    Served-Entitled (reply, s') enabled (_, inr (tenant, req, inl (admitted, found, _, _, _)))
          success =
        Admitted-Entitled tenant req reply enabled admitted (inl found)
    Served-Entitled (reply, s') enabled (_, inr (tenant, req, inr (_, _, _, inr (fails, _))))
          success =
        absurd (fails success)
    Served-Entitled (reply, s') enabled
          (_, inr (tenant, req, inr (admitted, _, _, inl (result, done, encoded, _, _)))) success =
        Admitted-Entitled tenant req reply enabled admitted (inr (result, done, encoded))

    -- Where authentication is enabled and the router gives no success of its own: a request to the
    -- gateway that is answered with a success has a bearer token that a key set younger than its
    -- time to live verifies under the configured options; the tenant that the token names, or the
    -- header where it names none, was allowed by the limiter as it stood; and the body is what the
    -- cache held under the key of that tenant's query, or encodes the back end's result for it.
    pub serve-Entitled :
        (unrouted : Bytes → Bytes → Reply) (method path : Bytes)
        → ((m q : Bytes) → (unrouted m q).status ≢ 200)
        → s.deps.0.cfg.enabled ≡ true
        → (serve rate R jwx p json unrouted backend t method path r s).0.status ≡ 200
        → Entitled (serve rate R jwx p json unrouted backend t method path r s).0
    unfolding serve
    serve-Entitled unrouted method path no_success enabled success =
        elim (Bool-cases (same method (codes "POST") && same path (codes "/api/query"))) [
          | inl routed ↦ rw (routed) (
              Served-Entitled (handle_query (wired rate R jwx p json backend t) r s) enabled
                (handle_query-Served (wired rate R jwx p json backend t) r s)
                (rw (routed) at success))
          | inr other ↦ absurd (no_success method path (rw (other) at success))
        ]
