-- ===== src/Bridge/Server.antt =====
-- observe-bridge/internal/etl/server.go: the routes and their handlers. `TimeParser` and `Source`
-- are what the handlers call outside; of gin only the table of routes is kept.
pub mod Statuses
use xscope_hub.Prelude.{
  ℕ, Bytes, codes, Bool, true, false, ◌&&◌, Option, none, some, List, [], ◌∷◌, ◌++◌, Outcome, ok,
  err, if◌then◌else◌, same, is_empty, Dict,
}
use xscope_hub.Bridge.Config.{Config}
use xscope_hub.Bridge.Window.{TimeParser, Window, empty_window, parse_window_params}
use xscope_hub.Bridge.Stream.{Source, End, finished, failed, panicked, Streamed, stream}
use xscope_hub.Bridge.Jobs.{
  Edge, Result, run_oo_agg, run_age_refresh, run_topo_iac, run_topo_ansible, flush,
  upsert_topo_edges, enqueue, tick, discover, extract_deps,
}

-- What a handler reads of a request; a query is "" where there is none, and a body what could be
-- read of it. `flushes` is whether the writer is an `http.Flusher`.
pub record Request : Type 0 where
  pub tenant : Bytes
  pub from : Bytes
  pub to : Bytes
  pub body : Bytes
  pub flushes : Bool

-- A body: an error's text or a state in JSON, nothing, lines of JSON with how their source ended,
-- a list of edges, or what the handler of another package writes. Where the source ended by a panic
-- the connection is cut.
pub data Body : Type 0 where
  error_json : Bytes → Body
  status_json : Bytes → Body
  nothing : Body
  ndjson : Bytes → End → Body
  edges_json : List Edge → Body
  foreign : Body

-- The status 0 is that of a connection that is cut before one is sent.
pub record Answer : Type 0 where
  pub status : ℕ
  pub body : Body

abbrev pub failure : ℕ → Bytes → Answer
failure status e = record { status = status; body = error_json e }

abbrev pub triggered : Result → Answer
triggered (err e) = failure 500 e
triggered (ok _) = record { status = 200; body = nothing }

abbrev pub found_edges : Outcome Bytes (List Edge) → Answer
found_edges (err e) = failure 500 e
found_edges (ok edges) = record { status = 200; body = edges_json edges }

module _ {J : Type 0} (source : Source J) where
  abbrev pub line_of : Outcome Bytes Bytes → Bytes
  line_of (err _) = []
  line_of (ok «data») = «data» ++ codes "\n"

  -- What the callback writes, record by record.
  unfoldable pub written : List (Dict J) → Bytes
  written [] = []
  written (rec ∷ recs) = line_of (source.encode rec) ++ written recs

  -- The status goes out with the first line, or at the end of the handler, which a panic does not reach.
  abbrev pub sent_status : Bytes → End → ℕ
  sent_status [] panicked = 0
  sent_status _ _ = 200

  abbrev pub streamed : Streamed J → Answer
  streamed s =
      let lines = written s.records in
      record { status = sent_status lines s.end; body = ndjson lines s.end }

  -- A server may have been made without a configuration.
  unfoldable pub stream_from : Option Config → Bytes → Window → Streamed J
  unfolding stream
  stream_from none tenant w = record { records = []; end = panicked }
  stream_from (some cfg) tenant w =
      stream source cfg.openobserve.endpoint cfg.openobserve.headers tenant w

  abbrev pub stream_window : Option Config → Request → Outcome Bytes Window → Answer
  stream_window cfg req (err e) = failure 400 e
  stream_window cfg req (ok w) =
      if req.flushes
      then streamed (stream_from cfg req.tenant w)
      else failure 500 (codes "streaming not supported")

  unfoldable pub handle_oo_stream : TimeParser → Option Config → Request → Answer
  unfolding parse_window_params stream_from written
  handle_oo_stream rfc3339 cfg req =
      stream_window cfg req (parse_window_params rfc3339 req.from req.to)

unfoldable pub handle_pgw_flush : Request → Answer
unfolding flush
handle_pgw_flush req = triggered (flush req.tenant empty_window req.body)

unfoldable pub handle_pgw_topo_edges : Request → Answer
unfolding upsert_topo_edges
handle_pgw_topo_edges req = triggered (upsert_topo_edges req.tenant [])

unfoldable pub handle_job_oo_agg : Request → Answer
unfolding run_oo_agg
handle_job_oo_agg req = triggered (run_oo_agg req.tenant empty_window)

unfoldable pub handle_job_age_refresh : Request → Answer
unfolding run_age_refresh
handle_job_age_refresh req = triggered (run_age_refresh req.tenant empty_window)

unfoldable pub handle_job_topo_iac : Request → Answer
unfolding run_topo_iac
handle_job_topo_iac req = triggered (run_topo_iac req.tenant empty_window)

unfoldable pub handle_job_topo_ansible : Request → Answer
unfolding run_topo_ansible
handle_job_topo_ansible req = triggered (run_topo_ansible req.tenant empty_window)

unfoldable pub handle_events_enqueue : Request → Answer
unfolding enqueue
handle_events_enqueue req = triggered (enqueue req.body)

unfoldable pub handle_scheduler_tick : Request → Answer
unfolding tick
handle_scheduler_tick req = triggered tick

unfoldable pub handle_iac_discover : Request → Answer
unfolding discover
handle_iac_discover req = found_edges (discover req.tenant)

unfoldable pub handle_ansible_extract : Request → Answer
unfolding extract_deps
handle_ansible_extract req = found_edges (extract_deps req.tenant)

abbrev pub handle_healthz : Request → Answer
handle_healthz req = record { status = 200; body = status_json (codes "ok") }

-- What other packages answer: promhttp with the metrics, and gin with the file of the API, if it is there.
pub record Elsewhere : Type 0 where
  pub metrics : Request → Answer
  pub static_file : Request → Answer

pub record Route : Type 0 where
  pub method : Bytes
  pub path : Bytes
  pub handler : Request → Answer

abbrev pub get : Bytes → (Request → Answer) → Route
get path handler = record { method = codes "GET"; path = path; handler = handler }

abbrev pub post : Bytes → (Request → Answer) → Route
post path handler = record { method = codes "POST"; path = path; handler = handler }

unfoldable pub find_route : Bytes → Bytes → List Route → Option (Request → Answer)
unfolding same
find_route method path [] = none
find_route method path (r ∷ rs) =
    if same r.method method && same r.path path then some r.handler else find_route method path rs

pub record Server : Type 0 where
  pub routes : List Route
  pub cfg : Option Config

unfoldable pub new_server :
    {J : Type 0} → Source J → TimeParser → Elsewhere → Option Config → Server
unfolding handle_oo_stream
new_server source rfc3339 outer cfg = record {
  routes =
      get (codes "/healthz") handle_healthz
      ∷ get (codes "/metrics") outer.metrics
      ∷ get (codes "/openapi.yaml") outer.static_file
      ∷ record { method = codes "HEAD"; path = codes "/openapi.yaml"; handler = outer.static_file }
      ∷ get (codes "/oo/stream") (handle_oo_stream source rfc3339 cfg)
      ∷ post (codes "/pgw/flush") handle_pgw_flush
      ∷ post (codes "/pgw/topo/edges") handle_pgw_topo_edges
      ∷ post (codes "/jobs/ooagg/run") handle_job_oo_agg
      ∷ post (codes "/jobs/age_refresh/run") handle_job_age_refresh
      ∷ post (codes "/jobs/topo/iac/run") handle_job_topo_iac
      ∷ post (codes "/jobs/topo/ansible/run") handle_job_topo_ansible
      ∷ post (codes "/events/enqueue") handle_events_enqueue
      ∷ post (codes "/scheduler/tick") handle_scheduler_tick
      ∷ get (codes "/topo/iac/discover") handle_iac_discover
      ∷ get (codes "/topo/ansible/extract") handle_ansible_extract
      ∷ [];
  cfg = cfg;
}

abbrev pub answered_by : Request → Option (Request → Answer) → Option Answer
answered_by req none = none
answered_by req (some handler) = some (handler req)

-- The answer to a request for a path of the server, none for any other.
unfoldable pub serve : Server → Bytes → Bytes → Request → Option Answer
unfolding find_route
serve server method path req = answered_by req (find_route method path server.routes)

-- The address that `Run` listens on.
unfoldable pub run : Server → Outcome Bytes Bytes
run server = elim server.cfg [
  | none ↦ err (codes "server listen address not configured")
  | some cfg ↦
      if is_empty cfg.api.listen
      then err (codes "server listen address not configured")
      else ok cfg.api.listen
]
