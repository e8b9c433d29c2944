-- ===== src/Case/History/Examples.antt =====
-- A case that is created in an empty database, moves by one step, and is published.
use xscope_hub.Prelude.{ok, pos, ◌∷◌, map, In, inl, true, codes, none, some, [], ◌≡◌, refl}
use xscope_hub.Case.Tables.{OpsCase, Db, find_case}
use xscope_hub.Case.Session.{World}
use xscope_hub.Case.Repository.{CreateCaseArgs, TransitionArgs, create_case_call, transition_call}
use xscope_hub.Case.Examples.{server, short, alone, start, open_case, disk_full, quiet, analyzed}
use xscope_hub.Case.Tables.{Outbox}
use xscope_hub.Case.Publisher.{message_of, flush}
use xscope_hub.Workflow.Event.{Event}
use xscope_hub.Workflow.Decide.{transition_topic}
use xscope_hub.Prelude.Clock.{zero_time}
use xscope_hub.Case.History.Delivered.{Sending, by_flush, Sending-Delivered}
use xscope_hub.Case.History.Once.{Onward, Again, transition_once, transition_retry}
use xscope_hub.Case.History.{Traced, rows_about, entries_about}
use xscope_hub.Case.History.Reached.{
  Reachable, at_start, by_creation, by_transition, empty_db, Reachable-Traced, Reachable-Announced,
}
use xscope_hub.Case.History.Spec.{Operation, Simulates, view, calls-Simulates}

abbrev fresh : World
fresh = record { committed = empty_db; tx = none; faults = []; sent = [] }

abbrev opening_args : CreateCaseArgs
opening_args = record open_case { idem_key = [] }

abbrev moving_args : TransitionArgs
moving_args = record start { case_id = 8 }

abbrev opened : World
opened = (create_case_call short alone opening_args fresh).1

abbrev moved : World
moved = (transition_call short alone moving_args opened).1

opened-Reachable : Reachable short opened.committed
opened-Reachable = by_creation alone opening_args fresh refl at_start at_start

opened_closed : opened.tx ≡ none
unfolding create_case_call find_case
opened_closed = refl

moved-Reachable : Reachable short moved.committed
moved-Reachable =
    by_transition alone moving_args opened opened_closed opened-Reachable opened-Reachable

abbrev slow_query : OpsCase
slow_query = record disk_full {
  case_id = 8;
  title = codes "slow query";
  status = codes "ANALYZING";
  version = 2;
}

moved_found : find_case 8 moved.committed.cases ≡ some slow_query
unfolding create_case_call transition_call find_case xscope_hub.Case.Tables.find_idempotency
    xscope_hub.Workflow.Decide.intent_of
moved_found = refl

Reachable-Traced_example : Traced moved.committed slow_query
Reachable-Traced_example =
    Reachable-Traced short moved.committed moved-Reachable 8 slow_query moved_found

Reachable-Announced_example :
    rows_about (short.uuid_text 8) moved.committed.outbox
    ≡ entries_about short.uuid_text (short.uuid_text 8) moved.committed.timeline
Reachable-Announced_example =
    Reachable-Announced short moved.committed moved-Reachable (short.uuid_text 8)

calls-Simulates_example :
    Simulates
      (Operation.moving 8 moving_args.event moving_args.ctx)
      opened
      opened.committed
      (transition_call short alone moving_args opened)
    × Simulates
        (Operation.opening 8)
        opened
        opened.committed
        (create_case_call short alone opening_args opened)
    × (view (flush server (λ db. db) opened).1.committed ≡ view opened.committed)
calls-Simulates_example = calls-Simulates short alone moving_args opening_args opened opened_closed

-- The flush of the outbox behind the creation.
abbrev flushed : World
flushed = (flush server (λ db. db) opened).1

flushed-Sending : Sending short flushed.committed flushed.sent
unfolding create_case_call find_case
flushed-Sending =
    by_flush server (λ db. db) opened opened_closed
      (Sending.by_creation alone opening_args fresh [] refl Sending.at_start Sending.at_start)

abbrev announced : Outbox
announced = record {
  id = 1;
  aggregate = some (codes "ops_case");
  aggregate_id = some (short.uuid_text 8);
  topic = some transition_topic;
  payload = codes "{}";
  created_at = zero_time;
  published = some true;
  published_at = some zero_time;
}

announced_there : In announced flushed.committed.outbox
unfolding flush create_case_call find_case
announced_there = inl refl

Sending-Delivered_example : In (message_of announced) flushed.sent
Sending-Delivered_example =
    Sending-Delivered short flushed.committed flushed.sent flushed-Sending announced announced_there
      refl

-- The case of the example is analyzed under the key `k`; then another call parks it.
abbrev started : World
started = (transition_call short alone start quiet).1

abbrev parking : TransitionArgs
parking = record start { event = Event.force_park; if_match = pos 2; idem_key = codes "other" }

abbrev parked : World
parked = (transition_call short alone parking started).1

started_ok : transition_call short alone start quiet ≡ (ok analyzed, started)
unfolding transition_call xscope_hub.Case.Tables.find_idempotency find_case
    xscope_hub.Workflow.Decide.intent_of
started_ok = refl

started_closed : started.tx ≡ none
unfolding transition_call xscope_hub.Case.Tables.find_idempotency find_case
    xscope_hub.Workflow.Decide.intent_of
started_closed = refl

parked_closed : parked.tx ≡ none
unfolding transition_call xscope_hub.Case.Tables.find_idempotency find_case
    xscope_hub.Workflow.Decide.intent_of
parked_closed = refl

parked_status : map (λ (c : OpsCase). c.status) parked.committed.cases ≡ codes "PARKED" ∷ []
unfolding transition_call xscope_hub.Case.Tables.find_idempotency find_case
    xscope_hub.Workflow.Decide.intent_of
parked_status = refl

parked-Onward : Onward short started.committed parked.committed
parked-Onward =
    Onward.by_transition alone parking started started_closed Onward.at_once Onward.at_once

transition_retry_example : transition_call short alone start parked ≡ (ok analyzed, parked)
unfolding transition_call xscope_hub.Case.Tables.find_idempotency find_case
    xscope_hub.Workflow.Decide.intent_of
transition_retry_example =
    transition_retry short alone start quiet started analyzed refl refl refl started_ok alone start
      parked refl parked-Onward refl

-- The look-up of the key fails.
abbrev flaky : World
flaky = record parked { faults = true ∷ [] }

transition_once_example :
    Again short analyzed flaky flaky.committed (transition_call short alone start flaky)
    × Again short analyzed flaky flaky.committed (create_case_call short alone open_case flaky)
transition_once_example =
    transition_once short alone start quiet started analyzed refl refl refl started_ok alone flaky
      parked_closed parked-Onward parked-Onward start open_case refl refl
