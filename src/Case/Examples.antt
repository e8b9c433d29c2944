-- ===== src/Case/Examples.antt =====
-- Calls of `Transition` on a database with one case.
use xscope_hub.Prelude.{
  Bytes, codes, Bool, true, false, none, [], ◌∷◌, Outcome, ok, err, ◌≡◌, refl, pos, Dict, arith,
}
use xscope_hub.Prelude.Clock.{zero_time}
use xscope_hub.Workflow.Event
use xscope_hub.Workflow.Decide.{Context, Value, TimelineEntry, decide, illegal}
use xscope_hub.Case.Tables.{OpsCase, Db}
use xscope_hub.Case.Session.{RepoError, no_rows, refused, World}
use xscope_hub.Case.Queries.{Postgres}
use xscope_hub.Case.Publisher.{flush, run}
use xscope_hub.Case.Publisher.Drain.{waiting, at_rest, ticks, run_drains}
use xscope_hub.Case.Publisher.Delivery.{FlushEnded, flush-Ended}
use xscope_hub.Case.Repository.Creations.{
  CreationEnds, KeyedEnds, create_case_call-Ends, create_case_call-keyed,
}
use xscope_hub.Case.Repository.{
  CreateCaseArgs, create_case_call, Codec, Call, TransitionArgs, transition_call,
}
use xscope_hub.Case.Repository.Calls.{Ends, transition_call-Ends}
use xscope_hub.Case.Repository.Success.{WritesJson}
use xscope_hub.Case.Repository.Outcomes.{Decided, transition_call-Decided}

abbrev pub disk_full : OpsCase
disk_full = record {
  case_id = 7;
  tenant_id = pos 1;
  title = codes "disk full";
  severity = codes "INFO";
  status = codes "NEW";
  resource_id = none;
  created_at = zero_time;
  updated_at = zero_time;
  labels = codes "{}";
  version = 1;
}

-- The stored text holds a row's version and status.
abbrev pub decode : Bytes → OpsCase
decode [] = disk_full
decode (v ∷ status) = record disk_full { version = v; status = status }

abbrev pub short : Codec
short = record {
  encode_row = λ (c : OpsCase). c.version ∷ c.status;
  decode_row = decode;
  encode_timeline = λ (e : TimelineEntry). codes "{}";
  encode_payload = λ (p : Dict Value). codes "{}";
  uuid_text = λ k. k ∷ [];
}

-- A server that takes every text but the empty one as JSON.
abbrev pub not_empty : Bytes → Bool
not_empty [] = false
not_empty (_ ∷ _) = true

abbrev pub server : Postgres
server = record {
  is_json = not_empty;
  to_jsonb = λ t. t;
  uuid = 8;
  now = zero_time;
  is_locked = λ k. false;
}

abbrev pub alone : Call
alone = record { pg = server; clock = zero_time; others = λ db. db }

abbrev pub by_alice : Context
by_alice = record {
  now = zero_time;
  plan_complete = false;
  gate_approved = false;
  change_window = false;
  verify_passed = false;
  reason = [];
  actor = codes "alice";
  idem_key = [];
  extras = [];
}

abbrev pub start : TransitionArgs
start = record {
  case_id = 7;
  event = Event.start_analysis;
  ctx = by_alice;
  if_match = pos 1;
  idem_key = codes "k";
  request = codes "{}";
}

abbrev pub one_case : Db
one_case = record {
  cases = disk_full ∷ [];
  timeline = [];
  outbox = [];
  idempotency = [];
  next_timeline = 1;
  next_outbox = 1;
}

abbrev pub quiet : World
quiet = record { committed = one_case; tx = none; faults = []; sent = [] }

abbrev after_start : Outcome RepoError OpsCase × World
after_start = transition_call short alone start quiet

abbrev pub analyzed : OpsCase
analyzed = record disk_full { status = codes "ANALYZING"; version = 2 }

start_ends : (transition_call short alone start quiet).0 ≡ ok analyzed
unfolding transition_call xscope_hub.Case.Tables.find_idempotency xscope_hub.Case.Tables.find_case
    xscope_hub.Workflow.Decide.intent_of
start_ends = refl

-- The commit fails: nothing is stored.
abbrev failing : World
failing = record quiet {
  faults = false ∷ false ∷ false ∷ false ∷ false ∷ false ∷ false ∷ true ∷ [];
}

transition_call-Ends_example :
    Ends short alone start failing (transition_call short alone start failing)
transition_call-Ends_example = transition_call-Ends short alone start failing refl

abbrev short-WritesJson : WritesJson short server
short-WritesJson = record {
  row_json = λ row. refl;
  timeline_json = λ e. refl;
  payload_json = λ p. refl;
}

transition_call-Decided_example :
    Decided short alone short-WritesJson start quiet disk_full
      (transition_call short alone start quiet).0
unfolding xscope_hub.Case.Tables.find_idempotency xscope_hub.Case.Tables.find_case
transition_call-Decided_example =
    transition_call-Decided short alone short-WritesJson start quiet disk_full refl refl refl refl
      (λ h. refl) refl

-- Another version than the row's is asked for, and an event that leads nowhere.
stale_refused :
    (transition_call short alone (record start { if_match = pos 5 }) quiet).0 ≡ err no_rows
unfolding transition_call xscope_hub.Case.Tables.find_idempotency xscope_hub.Case.Tables.find_case
stale_refused = refl

verify_refused :
    (transition_call short alone (record start { event = Event.verify_pass }) quiet).0
    ≡ err (refused illegal)
unfolding transition_call xscope_hub.Case.Tables.find_idempotency xscope_hub.Case.Tables.find_case
verify_refused = refl

-- No version is asked for: the version of the row does not matter.
unasked_moves :
    (transition_call short alone (record start { if_match = pos 0 }) quiet).0 ≡ ok analyzed
unfolding transition_call xscope_hub.Case.Tables.find_idempotency xscope_hub.Case.Tables.find_case
    xscope_hub.Workflow.Decide.intent_of
unasked_moves = refl

abbrev pub open_case : CreateCaseArgs
open_case = record {
  tenant_id = pos 1;
  title = codes "slow query";
  actor = codes "alice";
  idem_key = codes "k";
}

create_case_call-Ends_example :
    CreationEnds short alone
      (record open_case { idem_key = [] })
      quiet
      (create_case_call short alone (record open_case { idem_key = [] }) quiet)
create_case_call-Ends_example =
    create_case_call-Ends short alone (record open_case { idem_key = [] }) quiet refl

create_case_call-keyed_example :
    KeyedEnds short alone open_case quiet (create_case_call short alone open_case quiet)
create_case_call-keyed_example = create_case_call-keyed short alone open_case quiet refl refl refl

abbrev with_outbox : World
with_outbox = record quiet { committed = (transition_call short alone start quiet).1.committed }

flush-Ended_example :
    FlushEnded server
      (λ db. db)
      with_outbox
      with_outbox.committed
      (flush server (λ db. db) with_outbox)
flush-Ended_example = flush-Ended server (λ db. db) with_outbox refl

abbrev one_waiting : Db
one_waiting = (transition_call short alone start quiet).1.committed

one_waits : waiting one_waiting.outbox ≡ 1
unfolding transition_call waiting xscope_hub.Case.Tables.find_idempotency
    xscope_hub.Case.Tables.find_case xscope_hub.Workflow.Decide.intent_of
one_waits = refl

run_drains_example :
    waiting (run (ticks (server ∷ server ∷ [])) (at_rest one_waiting [])).committed.outbox ≡ 0
run_drains_example =
    run_drains (server ∷ server ∷ []) one_waiting [] ((λ k. refl), ((λ k. refl), tt))
      (omega (arith, one_waits))
