-- ===== src/Gateway/Server.antt =====
-- observe-gateway/internal/server/server.go: one request from its arrival to its answer.
-- `Outside` is what the handler calls: the JSON of a request, a response and an error, the text of
-- a time, the authenticator and the limiter with their states in one `L`, the back end, and the
-- store of the cache. `elapsed` is the duration of the request in nanoseconds.
pub mod Answers
pub mod Keys
pub mod Parts
pub mod Origins
mod Examples
use xscope_hub.Prelude.{
  ℕ, ◌+◌, ◌-◌, ◌/◌, Bytes, codes, Bool, true, false, not, Option, none, some, List, [], ◌∷◌, ◌++◌,
  Outcome, ok, err, if◌then◌else◌, same, ℤ, pos, is_empty, Time, Duration, length,
}
use xscope_hub.Prelude.Clock.{is_zero, after, utc, zero_time}
use xscope_hub.Gateway.Text.{to_lower, join}
use xscope_hub.Gateway.Query.{Request, Response, Stats, has_time_range, step_duration}
use xscope_hub.Gateway.Backend.{BackendError, unsupported, failure, Result}
use xscope_hub.Gateway.Limiter.{LimitError, rate_limited, redis_error}
use xscope_hub.Gateway.Cache
use xscope_hub.Gateway.Cache.{Ristretto, Cache}
use xscope_hub.Gateway.Audit.{Entry, Logger, log}

-- `status` is the status code.
pub record Reply : Type 0 where
  pub status : ℕ
  pub body : Bytes

pub record HttpRequest : Type 0 where
  pub body : Bytes
  pub x_tenant : Bytes
  pub x_user : Bytes
  pub authorization : Bytes

pub record Outside : Type 1 where
  pub store : Ristretto
  pub L : Type 0
  -- A body that cannot be decoded leaves what was read of it in the request.
  pub decode : Bytes → Outcome (Request × Bytes) Request
  pub encode_response : Response → Outcome Bytes Bytes
  pub decode_response : Bytes → Outcome Bytes Response
  pub error_json : Bytes → Bytes
  pub format_time : Time → Bytes
  pub parse_duration : Bytes → Outcome Bytes Duration
  -- `auth`, where it is not nil
  pub verify : Option (HttpRequest → L → Outcome Bytes (Bytes × Bytes) × L)
  -- `limiter`, where it is not nil
  pub allow : Option (Bytes → L → Outcome LimitError (Unit {0}) × L)
  pub limit_text : LimitError → Bytes
  pub prom_ql : Bytes → Request → Outcome BackendError Result
  pub log_ql : Bytes → Request → Outcome BackendError Result
  pub trace_ql : Bytes → Request → Outcome BackendError Result
  pub elapsed : ℕ

-- `buildCacheKey`
unfoldable pub build_cache_key : (Time → Bytes) → Request → Bytes → Bytes
unfolding join to_lower
build_cache_key format_time req tenant =
    join
      (to_lower req.lang
        ∷ req.query
        ∷ tenant
        ∷ ((if is_zero req.start then [] else format_time (utc req.start) ∷ [])
            ++ (if is_zero req.end then [] else format_time (utc req.end) ∷ [])
            ++ (if is_empty req.step then [] else req.step ∷ [])
            ++ (if req.normalize then codes "normalize=true" ∷ [] else [])))
      (codes "|")

-- `validate`: an error's text, if there is one.
unfoldable pub validate : Request → Option Bytes
unfolding same
validate req =
    if same req.lang (codes "promql")
    then none
    else if same req.lang (codes "logql")
    then range_error req
    else if same req.lang (codes "traceql")
    then range_error req
    else some (codes "unsupported language: " ++ req.lang)
  where
    range_error : Request → Option Bytes
    range_error r =
        if not (has_time_range r)
        then some (r.lang ++ codes " requires start and end")
        else if after r.start r.end
        then some (codes "start must be before end")
        else none

-- An entry of which no field is set: its time is Go's zero time.
abbrev pub blank : Entry
blank = record {
  tenant = [];
  user = [];
  lang = [];
  query = [];
  cost = pos 0;
  duration = pos 0;
  cached = false;
  backend = [];
  error = [];
  time = zero_time;
}

-- `Error()`
abbrev pub error_text : BackendError → Bytes
error_text (unsupported s m) = m
error_text (failure m) = m

abbrev pub limit_status : LimitError → ℕ
limit_status rate_limited = 429
limit_status (redis_error e) = 500

abbrev pub backend_status : BackendError → ℕ
backend_status (unsupported s m) = 400
backend_status (failure m) = 502

module _ (out : Outside) where
  -- The fields of a server that change, and the queries that it has sent to the back end.
  pub record Server : Type 0 where
    pub active_requests : ℕ
    pub cache : Cache out.store
    pub deps : out.L
    pub audit_log : Logger
    pub dispatched : List (Bytes × Request)

  abbrev pub entry_for : Bytes → Bytes → Request → Entry
  entry_for tenant user req = record blank {
    tenant = tenant;
    user = user;
    lang = req.lang;
    query = req.query;
    duration = pos out.elapsed;
  }

  -- `writeError`, and the audit entry after it.
  unfoldable pub reject : ℕ → Bytes → Entry → Server → Reply × Server
  unfolding log
  reject status msg entry s = (
    record { status = status; body = out.error_json msg },
    record s { audit_log = log entry s.audit_log },
  )

  -- A query that is missing and a step that cannot be read: the message, and what is audited.
  unfoldable pub request_error : Request → Option (Bytes × Bytes)
  request_error req =
      if is_empty req.query
      then some (codes "query is required", codes "query is required")
      else if is_empty req.step
      then none
      else elim (out.parse_duration req.step) [
        | ok _ ↦ none
        | err _ ↦ some (codes "invalid step duration", codes "invalid step")
      ]

  -- The tenant and the user: the headers', or the authenticator's.
  unfoldable pub identify : HttpRequest → out.L → Outcome Bytes (Bytes × Bytes) × out.L
  identify r l = elim out.verify [ none ↦ (ok (r.x_tenant, r.x_user), l) | some v ↦ v r l ]

  unfoldable pub limit : Bytes → out.L → Outcome LimitError (Unit {0}) × out.L
  limit tenant l = elim out.allow [ none ↦ (ok tt, l) | some allow ↦ allow tenant l ]

  unfoldable pub dispatch : Bytes → Request → Outcome BackendError Result
  unfolding same
  dispatch tenant req =
      if same req.lang (codes "promql")
      then out.prom_ql tenant req
      else if same req.lang (codes "logql")
      then out.log_ql tenant req
      else if same req.lang (codes "traceql")
      then out.trace_ql tenant req
      else err (failure (codes "unsupported language: " ++ req.lang))

  -- What a stored answer adds to its audit entry.
  abbrev pub cached_entry : Entry → Outcome Bytes Response → Entry
  cached_entry entry (ok resp) = record entry {
    cached = true;
    backend = resp.stats.backend;
    cost = resp.stats.cost;
  }
  cached_entry entry (err _) = record entry { cached = true; backend = codes "cache" }

  -- A stored answer, sent as it is.
  unfoldable pub answer_cached : Bytes → Bytes → Request → Bytes → Server → Reply × Server
  unfolding log
  answer_cached tenant user req payload s = (
    record { status = 200; body = payload },
    record s {
      audit_log =
          log (cached_entry (entry_for tenant user req) (out.decode_response payload)) s.audit_log;
    },
  )

  abbrev pub response : Bytes → Request → Result → Response
  response tenant req result = record {
    lang = req.lang;
    tenant = tenant;
    result = result.payload;
    stats = record {
      backend = result.backend;
      cached = false;
      duration_ms = out.elapsed / 1000000;
      cost = result.cost;
    };
  }

  -- The back end's answer as JSON, stored under the key and sent.
  unfoldable pub answer_fresh :
      Bytes → Bytes → Request → Bytes → Result → Outcome Bytes Bytes → Server → Reply × Server
  unfolding log Cache.set reject
  answer_fresh tenant user req key result (err e) s =
      reject 500 (codes "marshal response failed")
        (record (entry_for tenant user req) { error = e; backend = result.backend }) s
  answer_fresh tenant user req key result (ok payload) s = (
    record { status = 200; body = payload },
    record s {
      cache = Cache.set out.store key payload (pos (length payload)) s.cache;
      audit_log =
          log (record (entry_for tenant user req) { cost = result.cost; backend = result.backend })
            s.audit_log;
    },
  )

  unfoldable pub answer_dispatched :
      Bytes → Bytes → Request → Bytes → Outcome BackendError Result → Server → Reply × Server
  unfolding answer_fresh reject
  answer_dispatched tenant user req key (ok result) s =
      answer_fresh tenant user req key result (out.encode_response (response tenant req result)) s
  answer_dispatched tenant user req key (err e) s =
      reject (backend_status e) (error_text e)
        (record (entry_for tenant user req) { error = error_text e }) s

  -- The stored answer, or the back end's.
  unfoldable pub answer_or_dispatch :
      Bytes → Bytes → Request → Bytes → Option Bytes → Server → Reply × Server
  unfolding answer_cached answer_dispatched dispatch
  answer_or_dispatch tenant user req key (some payload) s = answer_cached tenant user req payload s
  answer_or_dispatch tenant user req key none s =
      answer_dispatched tenant user req key (dispatch tenant req)
        (record s { dispatched = s.dispatched ++ (tenant, req) ∷ [] })

  -- Behind the limiter: the cache, then the back end.
  unfoldable pub answer : Bytes → Bytes → Request → Server → Reply × Server
  unfolding build_cache_key Cache.get answer_or_dispatch
  answer tenant user req s =
      let key = build_cache_key out.format_time req tenant in
      answer_or_dispatch tenant user req key (Cache.get out.store s.cache key) s

  unfoldable pub if_allowed :
      Bytes → Bytes → Request → Outcome LimitError (Unit {0}) → Server → Reply × Server
  unfolding answer reject
  if_allowed tenant user req (ok _) s = answer tenant user req s
  if_allowed tenant user req (err e) s =
      reject (limit_status e) (out.limit_text e)
        (record (entry_for tenant user req) { error = out.limit_text e }) s

  unfoldable pub if_valid : Bytes → Bytes → Request → Option Bytes → Server → Reply × Server
  unfolding limit if_allowed reject
  if_valid tenant user req (some e) s =
      reject 400 e (record (entry_for tenant user req) { error = e }) s
  if_valid tenant user req none s =
      let (r, l) = limit tenant s.deps in if_allowed tenant user req r (record s { deps = l })

  -- For a tenant who is known, or not.
  unfoldable pub for_tenant : Bytes → Bytes → Request → Server → Reply × Server
  unfolding validate if_valid reject
  for_tenant [] user req s =
      reject 400 (codes "tenant is required")
        (record (entry_for [] [] req) { error = codes "tenant missing" }) s
  for_tenant (c ∷ tenant) user req s = if_valid (c ∷ tenant) user req (validate req) s

  unfoldable pub if_identified : Request → Outcome Bytes (Bytes × Bytes) → Server → Reply × Server
  unfolding for_tenant reject
  if_identified req (ok (tenant, user)) s = for_tenant tenant user req s
  if_identified req (err e) s = reject 401 e (record (entry_for [] [] req) { error = e }) s

  unfoldable pub if_complete :
      HttpRequest → Request → Option (Bytes × Bytes) → Server → Reply × Server
  unfolding identify if_identified reject
  if_complete r req (some (msg, audited)) s =
      reject 400 msg (record (entry_for [] [] req) { error = audited }) s
  if_complete r req none s =
      let (who, l) = identify r s.deps in if_identified req who (record s { deps = l })

  unfoldable pub if_decoded :
      HttpRequest → Outcome (Request × Bytes) Request → Server → Reply × Server
  unfolding request_error if_complete to_lower reject
  if_decoded r (ok req) s =
      let lowered : Request = record req { lang = to_lower req.lang } in
      if_complete r lowered (request_error lowered) s
  if_decoded r (err (req, e)) s =
      reject 400 (codes "invalid request: " ++ e) (record (entry_for [] [] req) { error = e }) s

  -- `handleQuery`
  unfoldable pub handle_query : HttpRequest → Server → Reply × Server
  unfolding if_decoded
  handle_query r s =
      let (reply, s') =
        if_decoded r (out.decode r.body) (record s { active_requests = s.active_requests + 1 }) in
      (reply, record s' { active_requests = s'.active_requests - 1 })
