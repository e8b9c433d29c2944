-- ===== src/Workflow/Decide.antt =====
-- The transition table, the guards and `Decide` of llm-ops-agent/workflow/workflow.go.
-- A value of a `map[string]any` is one of the kinds that `Decide` puts there, or opaque.
use xscope_hub.Prelude.{
  Bytes, codes, Bool, not, ◌||◌, Option, none, some, List, [], ◌∷◌, Outcome, ok, err, if◌then◌else◌,
  Dict, Time, ℕ,
}
use xscope_hub.Prelude.Clock.{utc}
use xscope_hub.Workflow.Event
use xscope_hub.Workflow.State.{
  State, new, analyzing, planning, wait_gate, executing, verifying, closed, parked,
}
use xscope_hub.Workflow.Event.{
  Event, start_analysis, analysis_done, analysis_failed, plan_ready, plan_failed, gate_approved,
  gate_rejected, exec_done, exec_failed, verify_pass, verify_failed, force_park,
}

-- `ErrIllegal` and `ErrGuard`
pub data DecideError : Type 0 where
  illegal guard_failed : DecideError

-- What a payload or `Extras` holds.
pub data Value : Type 0 where
  text : Bytes → Value
  state : State → Value
  event : Event → Value
  at_time : Time → Value
  uuid : ℕ → Value
  opaque : ℕ → Value

pub record Context : Type 0 where
  pub now : Time
  pub plan_complete : Bool
  pub gate_approved : Bool
  pub change_window : Bool
  pub verify_passed : Bool
  pub reason : Bytes
  pub actor : Bytes
  pub idem_key : Bytes
  pub extras : Dict Value

pub record TimelineEntry : Type 0 where
  pub at : Time
  pub actor : Bytes
  pub event : Bytes
  pub reason : Bytes
  pub extras : Dict Value

pub record OutboxMsg : Type 0 where
  pub topic : Bytes
  pub payload : Dict Value

pub record TransitionIntent : Type 0 where
  pub from : State
  pub to : State
  pub event : Event
  pub timeline : TimelineEntry
  pub messages : List OutboxMsg

-- `table[from][ev]`; a missing row or column is `none`.
unfoldable pub table : State → Event → Option State
table new start_analysis = some analyzing
table new force_park = some parked
table analyzing analysis_done = some planning
table analyzing analysis_failed = some parked
table analyzing force_park = some parked
table planning plan_ready = some wait_gate
table planning plan_failed = some parked
table planning force_park = some parked
table wait_gate Event.gate_approved = some executing
table wait_gate gate_rejected = some parked
table wait_gate force_park = some parked
table executing exec_done = some verifying
table executing exec_failed = some parked
table executing force_park = some parked
table verifying verify_pass = some closed
table verifying verify_failed = some parked
table verifying force_park = some parked
table parked start_analysis = some analyzing
table parked plan_ready = some wait_gate
table _ _ = none

-- A guard's error, if it returns one.
abbrev pub GuardFn : Type 0
GuardFn = Context → Option DecideError

unfoldable pub plan_guard : GuardFn
plan_guard c = if not c.plan_complete then some guard_failed else none

unfoldable pub gate_guard : GuardFn
gate_guard c = if not c.gate_approved || not c.change_window then some guard_failed else none

unfoldable pub verify_guard : GuardFn
verify_guard c = if not c.verify_passed then some guard_failed else none

-- `guards[from][ev]`
unfoldable pub guards : State → Event → Option GuardFn
unfolding plan_guard gate_guard verify_guard
guards planning plan_ready = some plan_guard
guards wait_gate Event.gate_approved = some gate_guard
guards verifying verify_pass = some verify_guard
guards _ _ = none

abbrev pub transition_topic : Bytes
transition_topic = codes "evt.case.transition.v1"

abbrev pub entry_of : Event → Context → TimelineEntry
entry_of ev ctx = record {
  at = ctx.now;
  actor = ctx.actor;
  event = Event.to_text ev;
  reason = ctx.reason;
  extras = ctx.extras;
}

abbrev pub message_of : State → State → Event → Context → Bytes → OutboxMsg
message_of from to ev ctx case_id = record {
  topic = transition_topic;
  payload =
      (codes "case_id", text case_id)
      ∷ (codes "from", state from)
      ∷ (codes "to", state to)
      ∷ (codes "event", event ev)
      ∷ (codes "actor", text ctx.actor)
      ∷ (codes "at", at_time (utc ctx.now))
      ∷ [];
}

-- The intent of a transition that the table and the guard allow.
unfoldable pub intent_of : State → State → Event → Context → Bytes → TransitionIntent
intent_of from to ev ctx case_id = record {
  from = from;
  to = to;
  event = ev;
  timeline = entry_of ev ctx;
  messages = message_of from to ev ctx case_id ∷ [];
}

unfoldable pub run_guard : Option GuardFn → Context → Option DecideError
run_guard none ctx = none
run_guard (some g) ctx = g ctx

unfoldable pub decide : State → Event → Context → Bytes → Outcome DecideError TransitionIntent
unfolding table guards run_guard
decide from ev ctx case_id = elim (table from ev) [
  | none ↦ err illegal
  | some next ↦ elim (run_guard (guards from ev) ctx) [
    | some e ↦ err e
    | none ↦ ok (intent_of from next ev ctx case_id)
  ]
]
