-- ===== src/Case/Repository/Effects.antt =====
-- What the bodies of the two transactions do, as plain changes of the tables: no transaction, no
-- rollback, no fault.
use xscope_hub.Prelude.{ℕ, Bytes, is_empty, List, [], ◌∷◌, ok, if◌then◌else◌, Dict, arith}
use xscope_hub.Workflow.Decide.{Value, TransitionIntent, OutboxMsg, transition_topic}
use xscope_hub.Case.Tables.{OpsCase}
use xscope_hub.Case.Session.{no_rows, Statement}
use xscope_hub.Case.Session.Refines.{bind, unchanged}
use xscope_hub.Case.Session.Dropped.{OnlyFails, Implements-dropped}
use xscope_hub.Case.Session.Implements.{
  Implements, Implements-exec, Implements-lift, Implements-pure, Implements-bind, Implements-then,
}
use xscope_hub.Case.Queries.{
  InsertTimelineParams, create_case, get_case_for_update, insert_idempotency, insert_outbox,
  insert_timeline, update_case_status,
}
use xscope_hub.Case.Repository.{
  Codec, Call, CreateCaseArgs, TransitionArgs, version_conflicts, unless, message, remembered, send,
  send_all, remember, record_creation, create_body, record_step, transition_body, creation_entry,
  creation_payload, new_case, step_entry, new_status, decision,
}

module _ (codec : Codec) (call : Call) where
  open call use {pg}

  unfoldable pub remember_effect : Bytes → Bytes → OpsCase → Statement (Unit {0})
  remember_effect key request row =
      if is_empty key
      then unchanged (ok tt)
      else insert_idempotency pg (remembered codec call key request row)

  unfoldable pub send_effect : ℕ → Bytes → Dict Value → Statement (Unit {0})
  send_effect case_id topic payload = insert_outbox pg (message codec call case_id topic payload)

  unfoldable pub send_all_effect : ℕ → List OutboxMsg → Statement (Unit {0})
  send_all_effect case_id [] = unchanged (ok tt)
  send_all_effect case_id (m ∷ ms) =
      bind (send_effect case_id m.topic m.payload) (λ _. send_all_effect case_id ms)

  unfoldable pub create_effect : CreateCaseArgs → Statement OpsCase
  unfolding remember_effect send_effect
  create_effect args = bind (create_case pg (new_case codec call args)) λ row.
      bind
        (bind (insert_timeline pg (creation_entry codec call row args))
          λ _. send_effect row.case_id transition_topic (creation_payload codec call row))
        λ _. bind (remember_effect args.idem_key [] row) λ _. unchanged (ok row)

  unfoldable pub record_effect : OpsCase → TransitionIntent → Statement (Unit {0})
  unfolding send_all_effect
  record_effect current intent =
      bind (insert_timeline pg (step_entry codec call current intent))
        (λ _. send_all_effect current.case_id intent.messages)

  unfoldable pub finish_effect : TransitionArgs → OpsCase → Statement OpsCase
  unfolding remember_effect
  finish_effect args updated =
      bind (remember_effect args.idem_key args.request updated) (λ _. unchanged (ok updated))

  unfoldable pub note_effect :
      TransitionArgs → OpsCase → TransitionIntent → OpsCase → Statement OpsCase
  unfolding record_effect finish_effect
  note_effect args current intent updated =
      bind (record_effect current intent) (λ _. finish_effect args updated)

  unfoldable pub update_effect : TransitionArgs → OpsCase → TransitionIntent → Statement OpsCase
  unfolding note_effect
  update_effect args current intent =
      bind (update_case_status pg (new_status codec call current intent))
        (note_effect args current intent)

  unfoldable pub decide_effect : TransitionArgs → OpsCase → Statement OpsCase
  unfolding update_effect
  decide_effect args current =
      bind (unchanged (decision codec call args current)) (update_effect args current)

  unfoldable pub check_effect : TransitionArgs → OpsCase → Statement OpsCase
  unfolding decide_effect
  check_effect args current =
      bind (unchanged (unless (version_conflicts args.if_match current) no_rows))
        (λ _. decide_effect args current)

  unfoldable pub transition_effect : TransitionArgs → Statement OpsCase
  unfolding check_effect
  transition_effect args = bind (get_case_for_update pg args.case_id) (check_effect args)

  insert_timeline-OnlyFails : (p : InsertTimelineParams) → OnlyFails (insert_timeline pg p)
  unfolding insert_timeline
  insert_timeline-OnlyFails p db e h = ground arith

  send-Implements :
      (k : ℕ) (topic : Bytes) (payload : Dict Value)
      → Implements (send codec call k topic payload) (send_effect k topic payload)
  unfolding send send_effect
  send-Implements k topic payload =
      Implements-exec (insert_outbox pg (message codec call k topic payload))

  send_all-Implements :
      (k : ℕ) (ms : List OutboxMsg) → Implements (send_all codec call k ms) (send_all_effect k ms)
  unfolding send_all send_all_effect
  send_all-Implements k [] = Implements-pure tt
  send_all-Implements k (m ∷ ms) =
      Implements-then (send codec call k m.topic m.payload) (send_all codec call k ms)
        (send_effect k m.topic m.payload) (send_all_effect k ms)
        (send-Implements k m.topic m.payload) (send_all-Implements k ms)

  remember-Implements :
      (key request : Bytes) (row : OpsCase)
      → Implements (remember codec call key request row) (remember_effect key request row)
  unfolding remember remember_effect
  remember-Implements [] request row = Implements-pure tt
  remember-Implements (c ∷ key) request row =
      Implements-exec (insert_idempotency pg (remembered codec call (c ∷ key) request row))

  record_creation-Implements :
      (row : OpsCase) (args : CreateCaseArgs)
      → Implements (record_creation codec call row args) (
          bind
            (insert_timeline pg (creation_entry codec call row args))
            λ _. send_effect row.case_id transition_topic (creation_payload codec call row))
  unfolding record_creation send send_effect
  record_creation-Implements row args =
      Implements-dropped (insert_timeline pg (creation_entry codec call row args))
        (insert_outbox pg
          (message codec call row.case_id transition_topic (creation_payload codec call row)))
        (insert_timeline-OnlyFails (creation_entry codec call row args))

  -- The body of the creating transaction does `create_effect` or fails.
  pub create_body-Implements :
      (args : CreateCaseArgs) → Implements (create_body codec call args) (create_effect args)
  unfolding create_body create_effect
  create_body-Implements args =
      Implements-bind _ _ _ _ (Implements-exec (create_case pg (new_case codec call args))) λ row.
        Implements-then _ _ _ _ (record_creation-Implements row args)
          (Implements-then _ _ _ _ (remember-Implements args.idem_key [] row) (Implements-pure row))

  record_step-Implements :
      (current : OpsCase) (intent : TransitionIntent)
      → Implements (record_step codec call current intent) (
          bind
            (insert_timeline pg (step_entry codec call current intent))
            λ _. send_all_effect current.case_id intent.messages)
  unfolding record_step
  record_step-Implements current intent =
      Implements-then _ _ _ _
        (Implements-exec (insert_timeline pg (step_entry codec call current intent)))
        (send_all-Implements current.case_id intent.messages)

  -- The body of the moving transaction does `transition_effect` or fails.
  pub transition_body-Implements :
      (args : TransitionArgs)
      → Implements (transition_body codec call args) (transition_effect args)
  unfolding transition_body transition_effect
  transition_body-Implements args =
      Implements-bind _ _ _ _ (Implements-exec (get_case_for_update pg args.case_id)) λ current.
        Implements-then _ _ _ _
          (Implements-lift (unless (version_conflicts args.if_match current) no_rows))
          (Implements-bind _ _ _ _ (Implements-lift (decision codec call args current)) λ intent.
            Implements-bind _ _ _ _
              (Implements-exec (update_case_status pg (new_status codec call current intent)))
              λ updated. Implements-then _ _ _ _ (record_step-Implements current intent) (
                Implements-then _ _ _ _ (remember-Implements args.idem_key args.request updated)
                  (Implements-pure updated)))
