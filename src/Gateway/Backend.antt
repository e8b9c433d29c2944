-- ===== src/Gateway/Backend.antt =====
-- observe-gateway/internal/backend: client.go but its translators, metadata.go and types.go.
-- `Platform` is what the client calls: parsing and building of URLs, the text of numbers, JSON, one
-- HTTP exchange (making a request, sending it and reading the answer, which fail alike), and the
-- metadata query.
-- An endpoint with `%s` is meant to have it once and no other verb. The panic of `translateTraceQL`,
-- which chi's Recoverer answers with 500, is an error here.
pub mod Routes
use xscope_hub.Prelude.{
  ℕ, Bytes, codes, Bool, true, false, ◌||◌, Option, none, some, List, [], ◌∷◌, ◌++◌, Outcome, ok,
  err, if◌then◌else◌, ◌==◌, leb, ℤ, pos, is_nonpos, is_empty, Time, Duration, not,
}
use xscope_hub.Prelude.Strconv.{parse_int}
use xscope_hub.Gateway.Text.{has_prefix, cut}
use xscope_hub.Gateway.Query.{Request, has_time_range, step_duration}
use xscope_hub.Gateway.Translate.{translate_log_ql, translate_trace_ql, or_default}

-- `*UnsupportedError`, or any other error with its text.
pub data BackendError : Type 0 where
  unsupported : ℕ → Bytes → BackendError
  failure : Bytes → BackendError

pub record Result : Type 0 where
  pub payload : Bytes
  pub backend : Bytes
  pub cost : ℤ

pub record HttpRequest : Type 0 where
  pub method : Bytes
  pub url : Bytes
  pub headers : List (Bytes × Bytes)
  pub body : Bytes

-- `header` is `Header.Get`, which gives "" for a header that is missing.
pub record HttpReply : Type 0 where
  pub status : ℕ
  pub header : Bytes → Bytes
  pub body : Bytes

-- The body of a search: `sql`, `start`, `end` and `tenant`.
pub record SearchBody : Type 0 where
  pub sql : Bytes
  pub start : Time
  pub end : Time
  pub tenant : Bytes

pub record TenantMetadata : Type 0 where
  pub org : Bytes
  pub log_table : Bytes
  pub trace_table : Bytes

-- `errTenantNotFound`, or another error with its text.
pub data MetadataError : Type 0 where
  tenant_not_found : MetadataError
  other : Bytes → MetadataError

pub record Platform : Type 1 where
  pub Url : Type 0
  pub parse_url : Bytes → Outcome Bytes Url
  pub with_params : Url → List (Bytes × Bytes) → Bytes
  pub with_path : Url → Bytes → Bytes
  pub seconds_of_time : Time → Bytes
  pub seconds_of_duration : Duration → Bytes
  pub parse_duration : Bytes → Outcome Bytes Duration
  pub encode_search : SearchBody → Outcome Bytes Bytes
  pub exchange : HttpRequest → Outcome Bytes HttpReply
  pub now : Time
  -- `strings.ToLower`, which beyond ASCII follows the tables of Unicode and may change the length.
  pub to_lower : Bytes → Bytes
  -- The row for a tenant: none is `pgx.ErrNoRows`.
  pub query_row : Bytes → Bytes → Outcome Bytes (Option TenantMetadata)

-- `parseCost`: a header that is missing or no number costs nothing.
unfoldable pub parse_cost : (Bytes → Bytes) → ℤ
unfolding parse_int
parse_cost header =
    let first = header (codes "X-Query-Cost") in
    let val = if is_empty first then header (codes "X-O2-Query-Cost") else first in
    if is_empty val then pos 0 else elim (parse_int val) [ ok cost ↦ cost | err _ ↦ pos 0 ]

-- `Authorization` and `X-Tenant`, each only where there is something to say.
abbrev pub auth_headers : Bytes → Bytes → List (Bytes × Bytes)
auth_headers api_key tenant =
    (if is_empty api_key then [] else (codes "Authorization", codes "Bearer " ++ api_key) ∷ [])
    ++ (if is_empty tenant then [] else (codes "X-Tenant", tenant) ∷ [])

-- `fmt.Sprintf(endpoint, org)` where the endpoint holds `%s`
unfoldable pub with_org : Bytes → Bytes → Bytes
unfolding cut
with_org endpoint org = elim (cut (codes "%s") endpoint) [
  | none ↦ endpoint
  | some (before, behind) ↦ before ++ org ++ behind
]

abbrev pub unsupported_status : ℕ → Bool
unsupported_status status = status == 404 || status == 400 || status == 501

-- What an exchange gives the caller, `on_error` making the error of a status from 400 on.
abbrev pub received :
    (HttpReply → BackendError) → Bytes → Outcome Bytes HttpReply → Outcome BackendError Result
received on_error name (err e) = err (failure e)
received on_error name (ok reply) =
    if leb 400 reply.status
    then err (on_error reply)
    else ok (record { payload = reply.body; backend = name; cost = parse_cost reply.header })

abbrev pub prom_error : HttpReply → BackendError
prom_error reply =
    if unsupported_status reply.status
    then unsupported reply.status reply.body
    else failure (codes "openobserve promql error: " ++ reply.body)

abbrev pub search_error : HttpReply → BackendError
search_error reply = failure (codes "openobserve error: " ++ reply.body)

abbrev pub fallback_error : HttpReply → BackendError
fallback_error reply = failure (codes "fallback promql error: " ++ reply.body)

module _ (p : Platform) where
  pub record OpenObserve : Type 0 where
    pub base_url : p.Url
    pub default_org : Bytes
    pub api_key : Bytes
    pub prom_query : Bytes
    pub prom_range : Bytes
    pub log_search : Bytes
    pub trace_search : Bytes

  pub record PromFallback : Type 0 where
    pub base_url : p.Url
    pub query_path : Bytes
    pub range_path : Bytes
    pub api_key : Bytes

  -- The text of the metadata query, where there is a store.
  pub record Client : Type 0 where
    pub oo : OpenObserve
    pub fallback : Option PromFallback
    pub metadata : Option Bytes
    pub default_log_table : Bytes
    pub default_trace_table : Bytes

  -- `metadataStore.Lookup` on a store that may be nil
  abbrev pub found_row :
      Outcome Bytes (Option TenantMetadata) → Outcome MetadataError TenantMetadata
  found_row (ok (some m)) = ok m
  found_row (ok none) = err tenant_not_found
  found_row (err e) = err (other e)

  unfoldable pub lookup_tenant : Option Bytes → Bytes → Outcome MetadataError TenantMetadata
  lookup_tenant none tenant = err tenant_not_found
  lookup_tenant (some query) tenant = found_row (p.query_row query tenant)

  abbrev pub defaults : Client → TenantMetadata
  defaults c = record {
    org = c.oo.default_org;
    log_table = c.default_log_table;
    trace_table = c.default_trace_table;
  }

  abbrev pub overridden : TenantMetadata → TenantMetadata → TenantMetadata
  overridden def m = record {
    org = or_default m.org def.org;
    log_table = or_default m.log_table def.log_table;
    trace_table = or_default m.trace_table def.trace_table;
  }

  -- `resolveTenantMetadata`
  unfoldable pub resolve_tenant_metadata : Client → Bytes → Outcome BackendError TenantMetadata
  unfolding lookup_tenant
  resolve_tenant_metadata c tenant = elim (lookup_tenant c.metadata tenant) [
    | ok m ↦ ok (overridden (defaults c) m)
    | err tenant_not_found ↦ ok (defaults c)
    | err (other e) ↦ err (failure e)
  ]

  -- `resolve`
  unfoldable pub resolve : p.Url → Bytes → Bytes
  unfolding has_prefix
  resolve base rel = if has_prefix (codes "http") rel then rel else p.with_path base rel

  abbrev pub search_url : OpenObserve → Bytes → Bytes → Bytes
  search_url c endpoint org = resolve c.base_url (with_org endpoint (or_default org c.default_org))

  unfoldable pub prom_url : OpenObserve → Bytes → Bool → Outcome BackendError Bytes
  unfolding resolve with_org
  prom_url c org is_range =
      let endpoint = if is_range then c.prom_range else c.prom_query in
      if is_empty endpoint
      then err (failure (codes "promql endpoint not configured"))
      else ok (search_url c endpoint org)

  -- `params.Set("step", …)` where the step can be read and is positive.
  abbrev pub step_param : Outcome Bytes Duration → List (Bytes × Bytes)
  step_param (err e) = []
  step_param (ok d) = if is_nonpos d then [] else (codes "step", p.seconds_of_duration d) ∷ []

  abbrev pub range_params : Request → List (Bytes × Bytes)
  range_params req =
      (codes "start", p.seconds_of_time req.start)
      ∷ (codes "end", p.seconds_of_time req.end)
      ∷ step_param (step_duration p.parse_duration req)

  abbrev pub prom_request : Bytes → Bytes → Bytes → HttpRequest
  prom_request url api_key tenant = record {
    method = codes "GET";
    url = url;
    headers = auth_headers api_key tenant;
    body = [];
  }

  -- The parameters of a request to OpenObserve, where the endpoint is a URL at all.
  abbrev pub prom_target : Bytes → Request → Bytes
  prom_target endpoint req = elim (p.parse_url endpoint) [
    | err e ↦ endpoint
    | ok u ↦ p.with_params u (
        (codes "query", req.query)
        ∷ (if has_time_range req
            then range_params req
            else (codes "time", p.seconds_of_time p.now) ∷ []))
  ]

  -- `openObserveClient.queryPromQL`, for the endpoint or the error that there is none
  unfoldable pub query_endpoint :
      OpenObserve → Bytes → Request → Outcome BackendError Bytes → Outcome BackendError Result
  unfolding parse_cost
  query_endpoint c tenant req (err e) = err e
  query_endpoint c tenant req (ok endpoint) =
      received prom_error (codes "openobserve-promql")
        (p.exchange (prom_request (prom_target endpoint req) c.api_key tenant))

  unfoldable pub query_oo : OpenObserve → Bytes → Bytes → Request → Outcome BackendError Result
  unfolding prom_url query_endpoint
  query_oo c org tenant req = query_endpoint c tenant req (prom_url c org (has_time_range req))

  -- `promFallbackClient.promURL`
  unfoldable pub fallback_url : PromFallback → Bool → Bytes
  unfolding resolve
  fallback_url c is_range =
      let endpoint = if is_range then c.range_path else c.query_path in
      let def = if is_range then codes "/api/v1/query_range" else codes "/api/v1/query" in
      resolve c.base_url (or_default endpoint def)

  abbrev pub fallback_params : Request → List (Bytes × Bytes)
  fallback_params req =
      (codes "query", req.query) ∷ (if has_time_range req then range_params req else [])

  -- `promFallbackClient.queryPromQL`
  unfoldable pub query_fallback : PromFallback → Bytes → Request → Outcome BackendError Result
  unfolding fallback_url parse_cost
  query_fallback c tenant req = elim (p.parse_url (fallback_url c (has_time_range req))) [
    | err e ↦ err (failure e)
    | ok u ↦
        received fallback_error (codes "fallback-promql")
          (p.exchange (prom_request (p.with_params u (fallback_params req)) c.api_key tenant))
  ]

  -- What follows an answer of OpenObserve: the fallback, where there is one and the query is one that
  -- OpenObserve does not support.
  unfoldable pub or_fallback :
      Option PromFallback
      → Bytes
      → Request
      → Outcome BackendError Result
      → Outcome BackendError Result
  unfolding query_fallback
  or_fallback fb tenant req (ok res) = ok res
  or_fallback (some fb) tenant req (err (unsupported s m)) = query_fallback fb tenant req
  or_fallback none tenant req (err (unsupported s m)) = err (unsupported s m)
  or_fallback fb tenant req (err (failure e)) = err (failure e)

  -- `QueryPromQL`, for the tenant's metadata or the error of its look-up
  unfoldable pub query_prom_for :
      Client → Bytes → Request → Outcome BackendError TenantMetadata → Outcome BackendError Result
  unfolding query_oo or_fallback
  query_prom_for c tenant req (err e) = err e
  query_prom_for c tenant req (ok meta) =
      or_fallback c.fallback tenant req (query_oo c.oo meta.org tenant req)

  unfoldable pub query_prom_ql : Client → Bytes → Request → Outcome BackendError Result
  unfolding resolve_tenant_metadata query_prom_for
  query_prom_ql c tenant req = query_prom_for c tenant req (resolve_tenant_metadata c tenant)

  abbrev pub post_request : Bytes → Bytes → Bytes → Bytes → HttpRequest
  post_request url api_key tenant payload = record {
    method = codes "POST";
    url = url;
    headers = auth_headers api_key tenant ++ (codes "Content-Type", codes "application/json") ∷ [];
    body = payload;
  }

  -- `postJSON`, its result named by the caller.
  unfoldable pub post_json :
      OpenObserve → Bytes → Bytes → Bytes → Bytes → Outcome BackendError Result
  unfolding parse_cost
  post_json c name tenant url payload =
      received search_error name (p.exchange (post_request url c.api_key tenant payload))

  -- A search in SQL, shared by the two languages.
  unfoldable pub search :
      Client → Bytes → Bytes → Bytes → Request → Outcome Bytes Bytes → Outcome BackendError Result
  unfolding post_json
  search c name url tenant req (err e) = err (failure e)
  search c name url tenant req (ok sql) =
      elim (p.encode_search
        (record { sql = sql; start = req.start; end = req.end; tenant = tenant })) [
          | err e ↦ err (failure e)
          | ok payload ↦ post_json c.oo name tenant url payload
        ]

  -- `QueryLogQL`
  unfoldable pub query_log_ql : Client → Bytes → Request → Outcome BackendError Result
  unfolding resolve_tenant_metadata search resolve with_org translate_log_ql
  query_log_ql c tenant req = elim (resolve_tenant_metadata c tenant) [
    | err e ↦ err e
    | ok meta ↦
        search c (codes "openobserve-logsql") (search_url c.oo c.oo.log_search meta.org) tenant req
          (translate_log_ql req.query meta.log_table)
  ]

  -- `QueryTraceQL`
  unfoldable pub query_trace_ql : Client → Bytes → Request → Outcome BackendError Result
  unfolding resolve_tenant_metadata search resolve with_org translate_trace_ql
  query_trace_ql c tenant req = elim (resolve_tenant_metadata c tenant) [
    | err e ↦ err e
    | ok meta ↦
        search c (codes "openobserve-tracesql") (search_url c.oo c.oo.trace_search meta.org) tenant
          req (translate_trace_ql p.to_lower req.query meta.trace_table)
  ]
