-- ===== src/Case/Routes/Examples.antt =====
-- A case that is created and moved over HTTP.
use xscope_hub.Prelude.{codes, none, some, [], ok, ◌≡◌, refl, pos, false}
use xscope_hub.Prelude.Clock.{zero_time}
use xscope_hub.Workflow.State
use xscope_hub.Workflow.Paths.{is_past_gate}
use xscope_hub.Case.Tables.{OpsCase, find_case}
use xscope_hub.Case.Session.{World}
use xscope_hub.Case.Handlers.{Wire, HttpCall}
use xscope_hub.Case.Examples.{short, alone, disk_full}
use xscope_hub.Case.History.Reached.{empty_db}
use xscope_hub.Case.Routes.{text, not_found, serve, Requested, at_start, by_request}
use xscope_hub.Case.Routes.Gated.{Requested-Gated}
use xscope_hub.Case.Routes.Answers.{Says, serve-Says}

abbrev wire : Wire
wire = record {
  bind_create = λ body. ok (pos 1, body);
  bind_transition = λ body. ok body;
  parse_uuid = λ id. ok 8;
  error_text = λ e. codes "failed";
}

abbrev posted : HttpCall
posted = record {
  body = codes "slow query";
  id = [];
  if_match = [];
  idempotency_key = [];
  actor = codes "alice";
  now = zero_time;
}

abbrev fresh : World
fresh = record { committed = empty_db; tx = none; faults = []; sent = [] }

abbrev opened : World
opened = (serve wire short alone (codes "POST") (codes "/case/create") posted fresh).1

opened-Requested : Requested wire short opened.committed
opened-Requested =
    by_request alone (codes "POST") (codes "/case/create") posted fresh refl at_start at_start

abbrev patched : HttpCall
patched = record posted { body = codes "start_analysis"; id = codes "8" }

abbrev moved : World
moved = (serve wire short alone (codes "PATCH") (codes "/case/:id/transition") patched opened).1

opened_closed : opened.tx ≡ none
unfolding serve find_case
opened_closed = refl

moved-Requested : Requested wire short moved.committed
moved-Requested =
    by_request alone (codes "PATCH") (codes "/case/:id/transition") patched opened opened_closed
      opened-Requested opened-Requested

abbrev slow_query : OpsCase
slow_query = record disk_full {
  case_id = 8;
  title = codes "slow query";
  status = codes "ANALYZING";
  version = 2;
}

moved_found : find_case 8 moved.committed.cases ≡ some slow_query
unfolding serve find_case xscope_hub.Workflow.Decide.intent_of
moved_found = refl

healthy :
    (serve wire short alone (codes "GET") (codes "/healthz") posted fresh).0 ≡ text (codes "ok")
unfolding serve
healthy = refl

unknown_path :
    (serve wire short alone (codes "GET") (codes "/case/create") posted fresh).0 ≡ not_found
unfolding serve
unknown_path = refl

Requested-Gated_example : is_past_gate (State.of_text slow_query.status) ≡ false
Requested-Gated_example =
    Requested-Gated wire short moved.committed moved-Requested 8 slow_query moved_found

serve-Says_example :
    Says wire short alone patched opened
      (serve wire short alone (codes "PATCH") (codes "/case/:id/transition") patched opened)
serve-Says_example =
    serve-Says wire short alone patched opened (codes "PATCH") (codes "/case/:id/transition")
      opened_closed
