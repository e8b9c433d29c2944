-- ===== src/Case/Repository.antt =====
-- llm-ops-agent/internal/ports/postgres/case_repo.go, and the arguments of
-- llm-ops-agent/internal/ports/ports.go.
-- `Codec` is the encoding of rows and payloads as JSON, and of a UUID as text. `Call` is what
-- surrounds one call: the server, the clock of the caller, and what other callers commit between the
-- look-up of the key and the transaction. The transaction then runs alone: what two open transactions
-- do in turns is not modelled.
pub mod Effects
pub mod Moves
pub mod Calls
pub mod Retries
pub mod Calm
pub mod Success
pub mod Outcomes
pub mod Creations
use xscope_hub.Prelude.{
  ℕ, ◌+◌, ◌*◌, Bytes, codes, is_empty, Bool, true, false, ◌||◌, ◌&&◌, not, Option, none, some, List,
  [], ◌∷◌, Outcome, ok, err, if◌then◌else◌, ℤ, pos, eq_ℤ, Time, Dict,
}
use xscope_hub.Prelude.Clock.{hour}
use xscope_hub.Workflow.State
use xscope_hub.Workflow.State.{State}
use xscope_hub.Workflow.Event.{Event}
use xscope_hub.Workflow.Decide.{
  Value, Context, TimelineEntry, TransitionIntent, OutboxMsg, transition_topic, decide,
}
use xscope_hub.Case.Tables.{OpsCase, Idempotency, Db}
use xscope_hub.Case.Session.{
  RepoError, no_rows, refused, World, M, ◌>>=◌, ◌>>◌, pure, throw, lift, guard, begin, rollback,
  commit, exec, read, or_rollback,
}
use xscope_hub.Case.Session.Dropped.{ignore}
use xscope_hub.Case.Queries.{
  Postgres, InsertTimelineParams, InsertOutboxParams, InsertIdempotencyParams,
  UpdateCaseStatusParams, CreateCaseParams, create_case, get_case_for_update, get_idempotency,
  insert_idempotency, insert_outbox, insert_timeline, update_case_status,
}

pub record Codec : Type 0 where
  pub encode_row : OpsCase → Bytes
  pub decode_row : Bytes → OpsCase
  pub encode_timeline : TimelineEntry → Bytes
  pub encode_payload : Dict Value → Bytes
  pub uuid_text : ℕ → Bytes

pub record Call : Type 0 where
  pub pg : Postgres
  pub clock : Time
  pub others : Db → Db

pub record CreateCaseArgs : Type 0 where
  pub tenant_id : ℤ
  pub title : Bytes
  pub actor : Bytes
  pub idem_key : Bytes

pub record TransitionArgs : Type 0 where
  pub case_id : ℕ
  pub event : Event
  pub ctx : Context
  pub if_match : ℤ
  pub idem_key : Bytes
  pub request : Bytes

abbrev pub one_day_later : Time → Time
one_day_later t = record t { nanos = t.nanos + 24 * hour }

-- `pgtype.Text{String: s, Valid: s != ""}`
abbrev pub text_or_null : Bytes → Option Bytes
text_or_null s = if is_empty s then none else some s

-- `if args.IfMatch != 0 && current.Version != args.IfMatch`
abbrev pub version_conflicts : ℤ → OpsCase → Bool
version_conflicts want current = not (eq_ℤ want (pos 0)) && not (eq_ℤ (pos current.version) want)

abbrev pub decided : {A E : Type 0} → (E → RepoError) → Outcome E A → Outcome RepoError A
decided f (ok a) = ok a
decided f (err e) = err (f e)

abbrev pub unless : Bool → RepoError → Outcome RepoError (Unit {0})
unless b e = if b then err e else ok tt

module _ (codec : Codec) (call : Call) where
  open codec use {encode_row, decode_row, encode_timeline, encode_payload, uuid_text}
  open call use {pg, clock, others}

  -- `err == nil && idem.IdemKey != ""`
  abbrev pub answer_of : Outcome RepoError Idempotency → Option OpsCase
  answer_of (ok i) = if is_empty i.idem_key then none else some (decode_row i.response)
  answer_of (err _) = none

  -- The stored response of an earlier call with this key. A failed look-up counts as none.
  unfoldable pub replay : Bytes → M (Option OpsCase)
  unfolding read get_idempotency
  replay [] w = (ok none, w)
  replay (c ∷ key) w = let (r, w') = read (get_idempotency pg (c ∷ key)) w in (ok (answer_of r), w')

  abbrev pub remembered : Bytes → Bytes → OpsCase → InsertIdempotencyParams
  remembered key request row = record {
    idem_key = key;
    request = request;
    response = encode_row row;
    ttl = some (one_day_later clock);
  }

  -- The last step of both calls: `if args.IdemKey != ""`.
  unfoldable pub remember : Bytes → Bytes → OpsCase → M (Unit {0})
  unfolding exec insert_idempotency rollback
  remember key request row =
      if is_empty key
      then pure tt
      else or_rollback (exec (insert_idempotency pg (remembered key request row)))

  abbrev pub message : ℕ → Bytes → Dict Value → InsertOutboxParams
  message case_id topic payload = record {
    aggregate = some (codes "ops_case");
    aggregate_id = some (uuid_text case_id);
    topic = some topic;
    payload = encode_payload payload;
  }

  unfoldable pub send : ℕ → Bytes → Dict Value → M (Unit {0})
  unfolding exec insert_outbox rollback
  send case_id topic payload = or_rollback (exec (insert_outbox pg (message case_id topic payload)))

  abbrev pub creation_entry : OpsCase → CreateCaseArgs → InsertTimelineParams
  creation_entry row args = record {
    case_id = row.case_id;
    ts = clock;
    actor = text_or_null args.actor;
    event = some (codes "case_created");
    payload = encode_payload ((codes "title", Value.text args.title) ∷ []);
  }

  abbrev pub creation_payload : OpsCase → Dict Value
  creation_payload row =
      (codes "case_id", Value.uuid row.case_id)
      ∷ (codes "from", Value.text [])
      ∷ (codes "to", Value.state State.new)
      ∷ (codes "event", Value.text (codes "case_created"))
      ∷ []

  -- The timeline, whose error is dropped (`_ = qtx.InsertTimeline(…)`), and the outbox.
  unfoldable pub record_creation : OpsCase → CreateCaseArgs → M (Unit {0})
  unfolding exec insert_timeline ignore send
  record_creation row args = do
    ignore (exec (insert_timeline pg (creation_entry row args)))
    send row.case_id transition_topic (creation_payload row)

  abbrev pub new_case : CreateCaseArgs → CreateCaseParams
  new_case args = record {
    tenant_id = args.tenant_id;
    title = args.title;
    severity = codes "INFO";
    status = State.to_text State.new;
    resource_id = none;
  }

  -- Between `BeginTx` and `Commit`.
  unfoldable pub create_body : CreateCaseArgs → M OpsCase
  unfolding exec create_case record_creation remember rollback State.to_text
  create_body args = do
    row ← or_rollback (exec (create_case pg (new_case args)))
    record_creation row args
    remember args.idem_key [] row
    pure row

  unfoldable pub create_in_tx : CreateCaseArgs → M OpsCase
  unfolding begin create_body commit
  create_in_tx args = do begin others; row ← create_body args; commit; pure row

  -- An answer that is stored, or else the transaction.
  unfoldable pub answer_or_create : CreateCaseArgs → Option OpsCase → M OpsCase
  unfolding create_in_tx
  answer_or_create args (some row) = pure row
  answer_or_create args none = create_in_tx args

  unfoldable pub create_case_call : CreateCaseArgs → M OpsCase
  unfolding replay answer_or_create
  create_case_call args = do earlier ← replay args.idem_key; answer_or_create args earlier

  -- `for _, m := range intent.Messages`
  unfoldable pub send_all : ℕ → List OutboxMsg → M (Unit {0})
  unfolding send
  send_all case_id [] = pure tt
  send_all case_id (m ∷ ms) = send case_id m.topic m.payload >> send_all case_id ms

  abbrev pub step_entry : OpsCase → TransitionIntent → InsertTimelineParams
  step_entry current intent = record {
    case_id = current.case_id;
    ts = intent.timeline.at;
    actor = text_or_null intent.timeline.actor;
    event = some intent.timeline.event;
    payload = encode_timeline intent.timeline;
  }

  unfoldable pub record_step : OpsCase → TransitionIntent → M (Unit {0})
  unfolding exec insert_timeline send_all rollback
  record_step current intent = do
    or_rollback (exec (insert_timeline pg (step_entry current intent)))
    send_all current.case_id intent.messages

  abbrev pub new_status : OpsCase → TransitionIntent → UpdateCaseStatusParams
  new_status current intent = record {
    case_id = current.case_id;
    status = State.to_text intent.to;
    version = current.version;
  }

  -- `workflow.Decide` on the stored status
  abbrev pub decision : TransitionArgs → OpsCase → Outcome RepoError TransitionIntent
  decision args current =
      decided refused
        (decide (State.of_text current.status) args.event args.ctx (uuid_text current.case_id))

  -- Between `BeginTx` and `Commit`.
  unfoldable pub transition_body : TransitionArgs → M OpsCase
  unfolding exec get_case_for_update decide update_case_status record_step remember rollback
      State.of_text State.to_text
  transition_body args = do
    current ← or_rollback (exec (get_case_for_update pg args.case_id))
    or_rollback (lift (unless (version_conflicts args.if_match current) no_rows))
    intent ← or_rollback (lift (decision args current))
    updated ← or_rollback (exec (update_case_status pg (new_status current intent)))
    record_step current intent
    remember args.idem_key args.request updated
    pure updated

  unfoldable pub transition_in_tx : TransitionArgs → M OpsCase
  unfolding begin transition_body commit
  transition_in_tx args = do begin others; updated ← transition_body args; commit; pure updated

  -- An answer that is stored, or else the transaction.
  unfoldable pub answer_or_move : TransitionArgs → Option OpsCase → M OpsCase
  unfolding transition_in_tx
  answer_or_move args (some row) = pure row
  answer_or_move args none = transition_in_tx args

  unfoldable pub transition_call : TransitionArgs → M OpsCase
  unfolding replay answer_or_move
  transition_call args = do earlier ← replay args.idem_key; answer_or_move args earlier
