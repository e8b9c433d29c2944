-- ===== src/Case/Routes.antt =====
-- `RegisterRoutes` of llm-ops-agent/api/handlers.go, and what requests on its routes leave in the
-- tables. A path is the pattern that gin has matched; its `:id` stands in the request.
pub mod Gated
pub mod Answers
mod Examples
use xscope_hub.Prelude.{
  ℕ, Bytes, codes, Bool, true, false, ◌&&◌, List, [], ◌∷◌, ◌≡◌, if◌then◌else◌, same, none, some,
}
use xscope_hub.Workflow.State
use xscope_hub.Workflow.Paths.{is_past_gate}
use xscope_hub.Case.Tables.{Db, OpsCase, find_case}
use xscope_hub.Case.Session.{World}
use xscope_hub.Case.Queries.{Postgres}
use xscope_hub.Case.Repository.{Codec, Call}
use xscope_hub.Case.Handlers.{Wire, HttpCall, Reply, create_case_handler, transition_case}
use xscope_hub.Case.Publisher.{flush}
use xscope_hub.Case.History.Reached.{empty_db}

-- What a route answers; the metrics are Prometheus's.
pub data Answer : Type 0 where
  metrics : Answer
  text : Bytes → Answer
  replied : Reply → Answer
  not_found : Answer

pub record Route : Type 0 where
  pub method : Bytes
  pub path : Bytes
  pub handler : HttpCall → World → Answer × World

abbrev pub replying : Reply × World → Answer × World
replying (reply, w) = (replied reply, w)

unfoldable pub serve_routes : Bytes → Bytes → List Route → HttpCall → World → Answer × World
unfolding same
serve_routes method path [] r w = (not_found, w)
serve_routes method path (h ∷ hs) r w =
    if same h.method method && same h.path path
    then h.handler r w
    else serve_routes method path hs r w

module _ (wire : Wire) (codec : Codec) where
  -- `RegisterRoutes`
  unfoldable pub register_routes : Call → List Route
  unfolding create_case_handler transition_case
  register_routes call =
      record { method = codes "GET"; path = codes "/metrics"; handler = λ r w. (metrics, w) }
      ∷ record {
        method = codes "GET";
        path = codes "/healthz";
        handler = λ r w. (text (codes "ok"), w);
      }
      ∷ record {
        method = codes "POST";
        path = codes "/case/create";
        handler = λ r w. replying (create_case_handler wire codec call r w);
      }
      ∷ record {
        method = codes "PATCH";
        path = codes "/case/:id/transition";
        handler = λ r w. replying (transition_case wire codec call r w);
      }
      ∷ []

  unfoldable pub serve : Call → Bytes → Bytes → HttpCall → World → Answer × World
  unfolding serve_routes register_routes
  serve call method path r w = serve_routes method path (register_routes call) r w

  -- The committed contents that any number of requests and of flushes leave in a new database, each
  -- of which may fail in any way, and others of which may come before its transaction.
  pub data Requested : Db → Type 0 where
    at_start : Requested empty_db
    by_request :
        (call : Call) (method path : Bytes) (r : HttpCall) (w : World)
        → w.tx ≡ none
        → Requested w.committed
        → Requested (call.others w.committed)
        → Requested (serve call method path r w).1.committed
    by_flush :
        (pg : Postgres) (others : Db → Db) (w : World)
        → w.tx ≡ none
        → Requested (others w.committed)
        → Requested (flush pg others w).1.committed

-- No case is past the gate.
abbrev pub Gated : Db → Type 0
Gated db =
    (k : ℕ) (c : OpsCase)
    → find_case k db.cases ≡ some c
    → is_past_gate (State.of_text c.status) ≡ false
