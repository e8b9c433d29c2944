-- ===== src/Case/Handlers.antt =====
-- llm-ops-agent/api/handlers.go and internal/services/orchestrator/orchestrator.go.
-- `Wire` is what the handlers call: the binding of a JSON body, the parsing of a UUID, and the texts
-- of errors. A reply holds the values of its JSON object.
pub mod Gate
use xscope_hub.Prelude.{
  ℕ, Bytes, codes, Bool, true, false, Option, none, some, List, [], ◌∷◌, Outcome, ok, err, ℤ, pos,
  Time, is_empty, if◌then◌else◌,
}
use xscope_hub.Prelude.Strconv.{parse_int}
use xscope_hub.Workflow.Event
use xscope_hub.Workflow.Decide.{Context, DecideError}
use xscope_hub.Case.Tables.{OpsCase}
use xscope_hub.Case.Session.{RepoError, no_rows, failed, refused, World}
use xscope_hub.Case.Repository.{
  Codec, Call, CreateCaseArgs, TransitionArgs, create_case_call, transition_call,
}

pub record Wire : Type 0 where
  -- `createCaseReq`: its tenant and title
  pub bind_create : Bytes → Outcome Bytes (ℤ × Bytes)
  -- `transitionReq`: its event
  pub bind_transition : Bytes → Outcome Bytes Bytes
  pub parse_uuid : Bytes → Outcome Bytes ℕ
  pub error_text : RepoError → Bytes

pub record HttpCall : Type 0 where
  pub body : Bytes
  pub id : Bytes
  pub if_match : Bytes
  pub idempotency_key : Bytes
  pub actor : Bytes
  pub now : Time

-- The answers of the two handlers, each with its status code below.
pub data Reply : Type 0 where
  error : ℕ → Bytes → Reply
  created : OpsCase → Reply
  moved : OpsCase → Reply

abbrev pub status_of : Reply → ℕ
status_of (error n m) = n
status_of (created row) = 200
status_of (moved row) = 200

-- The version of an If-Match header: the error of `ParseInt` is dropped.
unfoldable pub if_match_version : Bytes → ℤ
unfolding parse_int
if_match_version header =
    if is_empty header then pos 0 else elim (parse_int header) [ ok v ↦ v | err v ↦ v ]

-- `workflow.Context{Now: time.Now(), Actor: actor}`
abbrev pub handler_context : HttpCall → Context
handler_context r = record {
  now = r.now;
  plan_complete = false;
  gate_approved = false;
  change_window = false;
  verify_passed = false;
  reason = [];
  actor = r.actor;
  idem_key = [];
  extras = [];
}

unfoldable pub transition_args : HttpCall → ℕ → Bytes → TransitionArgs
unfolding if_match_version Event.of_text
transition_args r uid event = record {
  case_id = uid;
  event = Event.of_text event;
  ctx = handler_context r;
  if_match = if_match_version r.if_match;
  idem_key = r.idempotency_key;
  request = [];
}

module _ (wire : Wire) (codec : Codec) (call : Call) where
  abbrev pub create_reply : Outcome RepoError OpsCase → Reply
  create_reply (ok row) = created row
  create_reply (err e) = error 500 (wire.error_text e)

  abbrev pub create_args : HttpCall → ℤ × Bytes → CreateCaseArgs
  create_args r (tenant_id, title) = record {
    tenant_id = tenant_id;
    title = title;
    actor = r.actor;
    idem_key = r.idempotency_key;
  }

  abbrev pub answered : {A : Type 0} → (A → Reply) → A × World → Reply × World
  answered f (a, w) = (f a, w)

  unfoldable pub create_bound : HttpCall → Outcome Bytes (ℤ × Bytes) → World → Reply × World
  unfolding create_case_call
  create_bound r (err e) w = (error 400 e, w)
  create_bound r (ok req) w =
      answered create_reply (create_case_call codec call (create_args r req) w)

  -- `createCase`
  unfoldable pub create_case_handler : HttpCall → World → Reply × World
  unfolding create_bound
  create_case_handler r w = create_bound r (wire.bind_create r.body) w

  abbrev pub transition_reply : Outcome RepoError OpsCase → Reply
  transition_reply (ok row) = moved row
  transition_reply (err (refused e)) = error 409 (wire.error_text (refused e))
  transition_reply (err no_rows) = error 412 (codes "version mismatch")
  transition_reply (err failed) = error 500 (wire.error_text failed)

  unfoldable pub transition_with_id : HttpCall → Bytes → Outcome Bytes ℕ → World → Reply × World
  unfolding transition_call transition_args
  transition_with_id r event (err e) w = (error 400 (codes "invalid id"), w)
  transition_with_id r event (ok uid) w =
      answered transition_reply (transition_call codec call (transition_args r uid event) w)

  unfoldable pub transition_bound : HttpCall → Outcome Bytes Bytes → World → Reply × World
  unfolding transition_with_id
  transition_bound r (err e) w = (error 400 e, w)
  transition_bound r (ok event) w = transition_with_id r event (wire.parse_uuid r.id) w

  -- `transitionCase`
  unfoldable pub transition_case : HttpCall → World → Reply × World
  unfolding transition_bound
  transition_case r w = transition_bound r (wire.bind_transition r.body) w
