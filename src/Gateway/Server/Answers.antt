-- ===== src/Gateway/Server/Answers.antt =====
-- What one request does to the server: its audit entry, the cache and the back end.
use xscope_hub.Prelude.{
  ℕ, ◌+◌, ◌-◌, Bytes, false, Option, none, some, [], ◌∷◌, ◌++◌, Outcome, ok, err, ◌≡◌, ◌≢◌, ◌⊎◌,
  inl, inr, refl, sym, ap, arith, is_empty, pos, length,
}
use xscope_hub.Prelude.Clock.{zero_time}
use xscope_hub.Gateway.Text.{to_lower}
use xscope_hub.Gateway.Query.{Request, Response}
use xscope_hub.Gateway.Backend.{BackendError, unsupported, failure, Result}
use xscope_hub.Gateway.Limiter.{LimitError, rate_limited, redis_error}
use xscope_hub.Gateway.Cache
use xscope_hub.Gateway.Audit.{Entry, log}
use xscope_hub.Gateway.Server.{
  Outside, Server, Reply, HttpRequest, validate, build_cache_key, entry_for, response, reject,
  request_error, identify, limit, dispatch, cached_entry, answer_cached, answer_fresh,
  answer_dispatched, answer_or_dispatch, answer, if_allowed, if_valid, for_tenant, if_identified,
  if_complete, if_decoded, handle_query, backend_status, limit_status,
}

module _ (out : Outside) (r : HttpRequest) where
  -- The decoded body with its language in lower case.
  abbrev pub IsDecoded : Request → Type 0
  IsDecoded req =
      (d : Request) × (out.decode r.body ≡ ok d) × (req ≡ record d { lang = to_lower d.lang })

  abbrev pub key_of : Bytes → Request → Bytes
  key_of tenant req = build_cache_key out.format_time req tenant

  -- No answer: nothing is stored and the back end is not asked.
  abbrev pub Refused : Server out → Reply → Server out → Type 0
  Refused s reply s' = (reply.status ≢ 200) × (s'.cache ≡ s.cache) × (s'.dispatched ≡ s.dispatched)

  -- One audit entry, without a time, and as many active requests as before.
  abbrev pub Audited : Server out → Server out → Type 0
  Audited s s' =
      ((e : Entry) × (e.time ≡ zero_time) × (s'.audit_log ≡ log e s.audit_log))
      × (s'.active_requests ≡ s.active_requests)

-- `l` is the state of the authenticator and of the limiter when the request comes.
module _ (out : Outside) (r : HttpRequest) (l : out.L) where
  -- The request's identity has the tenant.
  abbrev pub IsIdentified : Bytes → Type 0
  IsIdentified tenant = (user : Bytes) × ((identify out r l).0 ≡ ok (tenant, user))

  -- The limiter, as it stands behind the authenticator's part, allows the tenant.
  abbrev pub IsAllowed : Bytes → Type 0
  IsAllowed tenant = (limit out tenant (identify out r l).1).0 ≡ ok tt

  -- What the handler has checked before it looks for an answer.
  abbrev pub Admitted : Bytes → Request → Type 0
  Admitted tenant req =
      (is_empty tenant ≡ false)
      × (is_empty req.query ≡ false)
      × (validate req ≡ none)
      × IsDecoded out r req
      × IsIdentified tenant
      × IsAllowed tenant

  -- The stored answer under the request's key, and nothing else happens.
  abbrev pub Hit : Bytes → Request → Server out → Reply → Server out → Type 0
  Hit tenant req s reply s' =
      Admitted tenant req
      × (Cache.get out.store s.cache (key_of out r tenant req) ≡ some reply.body)
      × (reply.status ≡ 200)
      × (s'.cache ≡ s.cache)
      × (s'.dispatched ≡ s.dispatched)

  -- The back end is asked once. Its result is sent and stored under the request's key, or nothing is
  -- stored and the status is no success.
  abbrev pub Asked : Bytes → Request → Server out → Reply → Server out → Type 0
  Asked tenant req s reply s' =
      Admitted tenant req
      × (Cache.get out.store s.cache (key_of out r tenant req) ≡ none)
      × (s'.dispatched ≡ s.dispatched ++ (tenant, req) ∷ [])
      × (((result : Result) × (dispatch out tenant req ≡ ok result)
            × (out.encode_response (response out tenant req result) ≡ ok reply.body)
            × (reply.status ≡ 200)
            × (s'.cache
                ≡ Cache.set out.store (key_of out r tenant req) reply.body (pos (length reply.body))
                    s.cache))
          ⊎ ((reply.status ≢ 200) × (s'.cache ≡ s.cache)))

  abbrev pub Served : Server out → Reply × Server out → Type 0
  Served s (reply, s') =
      Audited out r s s'
      × (Refused out r s reply s'
          ⊎ ((tenant : Bytes) × (req : Request) × (Hit tenant req s reply s'
                ⊎ Asked tenant req s reply s')))

  reject-Served :
      (status : ℕ) (msg : Bytes) (e : Entry) (s : Server out)
      → status ≢ 200
      → e.time ≡ zero_time
      → Served s (reject out status msg e s)
  unfolding reject
  reject-Served status msg e s other untimed = (((e, untimed, refl), refl), inl (other, refl, refl))

  cached_untimed :
      (e : Entry) (r : Outcome Bytes Response)
      → e.time ≡ zero_time
      → (cached_entry out e r).time ≡ zero_time
  cached_untimed e (ok resp) h = h
  cached_untimed e (err _) h = h

  backend_status-fails : (e : BackendError) → backend_status e ≢ 200
  backend_status-fails (unsupported s m) h = omega (arith, h)
  backend_status-fails (failure m) h = omega (arith, h)

  limit_status-fails : (e : LimitError) → limit_status e ≢ 200
  limit_status-fails rate_limited h = omega (arith, h)
  limit_status-fails (redis_error m) h = omega (arith, h)

  module _ (tenant user : Bytes) (req : Request) (admitted : Admitted tenant req) where
    cached-Served :
        (payload : Bytes) (s : Server out)
        → Cache.get out.store s.cache (key_of out r tenant req) ≡ some payload
        → Served s (answer_cached out tenant user req payload s)
    unfolding answer_cached
    cached-Served payload s found = (
      (
        (
          cached_entry out (entry_for out tenant user req) (out.decode_response payload),
          cached_untimed (entry_for out tenant user req) (out.decode_response payload) refl,
          refl,
        ),
        refl,
      ),
      inr (tenant, req, inl (admitted, found, refl, refl, refl)),
    )

    module _ (s : Server out)
        (missed : Cache.get out.store s.cache (key_of out r tenant req) ≡ none) where
      abbrev asked : Server out
      asked = record s { dispatched = s.dispatched ++ (tenant, req) ∷ [] }

      -- The back end was asked in vain.
      vain-Served :
          (status : ℕ) (msg : Bytes) (e : Entry)
          → status ≢ 200
          → e.time ≡ zero_time
          → Served s (reject out status msg e asked)
      unfolding reject
      vain-Served status msg e fails untimed = (
        ((e, untimed, refl), refl),
        inr (tenant, req, inr (admitted, missed, refl, inr (fails, refl))),
      )

      fresh-Served :
          (result : Result) (o : Outcome Bytes Bytes)
          → dispatch out tenant req ≡ ok result
          → out.encode_response (response out tenant req result) ≡ o
          → Served s (answer_fresh out tenant user req (key_of out r tenant req) result o asked)
      unfolding answer_fresh
      fresh-Served result (err e) done encoded = vain-Served 500 _ _ (λ h. omega (arith, h)) refl
      fresh-Served result (ok payload) done encoded = (
        ((_, refl, refl), refl),
        inr (tenant, req, inr (admitted, missed, refl, inl (result, done, encoded, refl, refl))),
      )

      dispatched-Served :
          (o : Outcome BackendError Result)
          → dispatch out tenant req ≡ o
          → Served s (answer_dispatched out tenant user req (key_of out r tenant req) o asked)
      unfolding answer_dispatched
      dispatched-Served (ok result) done = fresh-Served result _ done refl
      dispatched-Served (err e) done =
          vain-Served (backend_status e) _ _ (backend_status-fails e) refl

    looked_up-Served :
        (s : Server out) (o : Option Bytes)
        → Cache.get out.store s.cache (key_of out r tenant req) ≡ o
        → Served s (answer_or_dispatch out tenant user req (key_of out r tenant req) o s)
    unfolding answer_or_dispatch
    looked_up-Served s (some payload) found = cached-Served payload s found
    looked_up-Served s none missed = dispatched-Served s missed _ refl

    answer-Served : (s : Server out) → Served s (answer out tenant user req s)
    unfolding answer
    answer-Served s = looked_up-Served s _ refl

  allowed-Served :
      (tenant user : Bytes) (req : Request) (a : Outcome LimitError (Unit {0})) (s : Server out)
      → is_empty tenant ≡ false
      → is_empty req.query ≡ false
      → validate req ≡ none
      → IsDecoded out r req
      → IsIdentified tenant
      → (limit out tenant (identify out r l).1).0 ≡ a
      → Served s (if_allowed out tenant user req a s)
  unfolding if_allowed
  allowed-Served tenant user req (ok _) s h k v d i a =
      answer-Served tenant user req (h, k, v, d, i, a) s
  allowed-Served tenant user req (err e) s h k v d i a =
      reject-Served (limit_status e) _ _ s (limit_status-fails e) refl

  is_400 : ◌≢◌ {A = ℕ} 400 200
  is_400 h = omega (arith, h)

  valid-Served :
      (tenant user : Bytes) (req : Request) (o : Option Bytes) (s : Server out)
      → is_empty tenant ≡ false
      → is_empty req.query ≡ false
      → validate req ≡ o
      → IsDecoded out r req
      → IsIdentified tenant
      → s.deps ≡ (identify out r l).1
      → Served s (if_valid out tenant user req o s)
  unfolding if_valid
  valid-Served tenant user req (some e) s h k v d i deps = reject-Served 400 _ _ s is_400 refl
  valid-Served tenant user req none s h k v d i deps =
      let (a, l') = limit out tenant s.deps in
      allowed-Served tenant user req a (record s { deps = l' }) h k v d i
        (ap (λ d'. (limit out tenant d').0) (sym deps))

  tenant-Served :
      (tenant user : Bytes) (req : Request) (s : Server out)
      → is_empty req.query ≡ false
      → IsDecoded out r req
      → IsIdentified tenant
      → s.deps ≡ (identify out r l).1
      → Served s (for_tenant out tenant user req s)
  unfolding for_tenant
  tenant-Served [] user req s k d i deps = reject-Served 400 _ _ s is_400 refl
  tenant-Served (c ∷ tenant) user req s k d i deps =
      valid-Served (c ∷ tenant) user req _ s refl k refl d i deps

  identified-Served :
      (req : Request) (who : Outcome Bytes (Bytes × Bytes)) (s : Server out)
      → is_empty req.query ≡ false
      → IsDecoded out r req
      → (identify out r l).0 ≡ who
      → s.deps ≡ (identify out r l).1
      → Served s (if_identified out req who s)
  unfolding if_identified
  identified-Served req (ok (tenant, user)) s k d i deps =
      tenant-Served tenant user req s k d (user, i) deps
  identified-Served req (err e) s k d i deps = reject-Served 401 _ _ s (λ h. omega (arith, h)) refl

  has_query : (req : Request) → request_error out req ≡ none → is_empty req.query ≡ false
  unfolding request_error
  has_query req h = ground arith

  complete-Served :
      (req : Request) (o : Option (Bytes × Bytes)) (s : Server out)
      → request_error out req ≡ o
      → IsDecoded out r req
      → s.deps ≡ l
      → Served s (if_complete out r req o s)
  unfolding if_complete
  complete-Served req (some (msg, audited)) s h d deps = reject-Served 400 _ _ s is_400 refl
  complete-Served req none s h d deps =
      let (who, l') = identify out r s.deps in
      identified-Served req who (record s { deps = l' }) (has_query req h) d
        (ap (λ d'. (identify out r d').0) (sym deps)) (ap (λ d'. (identify out r d').1) deps)

  decoded-Served :
      (d : Outcome (Request × Bytes) Request) (s : Server out)
      → out.decode r.body ≡ d
      → s.deps ≡ l
      → Served s (if_decoded out r d s)
  unfolding if_decoded
  decoded-Served (ok req) s is deps =
      complete-Served (record req { lang = to_lower req.lang }) _ s refl (req, is, refl) deps
  decoded-Served (err (req, e)) s is deps = reject-Served 400 _ _ s is_400 refl

  started : (n k : ℕ) → k ≡ n + 1 → k - 1 ≡ n
  started n k h = omega (arith, h)

pub handle_query-Served :
    (out : Outside) (r : HttpRequest) (s : Server out)
    → Served out r s.deps s (handle_query out r s)
unfolding handle_query
handle_query-Served out r s =
    let v : Server out = record s { active_requests = s.active_requests + 1 } in
    let ((logged, active), way) = decoded-Served out r s.deps (out.decode r.body) v refl refl in
    ((logged, started out r s.deps s.active_requests _ active), way)
