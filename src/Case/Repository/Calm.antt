-- ===== src/Case/Repository/Calm.antt =====
-- Calls of `Transition` where no call to the server fails: what is refused, and what must succeed.
use xscope_hub.Prelude.{
  Bytes, Bool, true, false, none, some, [], ◌∷◌, ok, err, if◌then◌else◌, ◌≡◌, refl, arith, sym,
  subst, ◌∙◌,
}
use xscope_hub.Workflow.State
use xscope_hub.Workflow.State.{State}
use xscope_hub.Workflow.Decide.{TransitionIntent, DecideError, decide}
use xscope_hub.Case.Tables.{OpsCase, Db, find_case, find_idempotency}
use xscope_hub.Case.Session.{World, ◌>>=◌, next_fault, failed, no_rows, refused}
use xscope_hub.Case.Session.Refines.{unchanged}
use xscope_hub.Case.Session.Total.{Commits, transaction-Commits, calm_fault, calm_world}
use xscope_hub.Case.Queries.{get_case_for_update, get_idempotency}
use xscope_hub.Case.Repository.{
  Codec, Call, TransitionArgs, version_conflicts, unless, replay, answer_of, answer_or_move,
  decision, transition_call, transition_in_tx, transition_body,
}
use xscope_hub.Case.Repository.Effects.{
  transition_effect, check_effect, decide_effect, update_effect, transition_body-Implements,
}
use xscope_hub.Case.Queries.Results.{bind_ok, bind_err}

module _ (codec : Codec) (call : Call) where
  open call use {pg, others}

  missed :
      (key : Bytes) (db : Db) (fault : Bool)
      → fault ≡ false
      → find_idempotency key db.idempotency ≡ none
      → answer_of codec call (if fault then err failed else get_idempotency pg key db) ≡ none
  unfolding get_idempotency
  missed key db fault no_fault unused = rw no_fault (ground arith)

  replay_misses :
      (key : Bytes) (w : World)
      → w.faults ≡ []
      → find_idempotency key w.committed.idempotency ≡ none
      → replay codec call key w ≡ (ok none, w)
  unfolding replay
  replay_misses [] w calm unused = refl
  replay_misses (c ∷ key) w calm unused =
      let nothing = missed (c ∷ key) w.committed (next_fault w.faults).0 (calm_fault calm) unused in
      λ i. (ok (nothing i), calm_world w calm i)

  calm_call :
      (args : TransitionArgs) (w : World)
      → w.faults ≡ []
      → find_idempotency args.idem_key w.committed.idempotency ≡ none
      → transition_call codec call args w ≡ transition_in_tx codec call args w
  unfolding transition_call answer_or_move
  calm_call args w calm unused =
      subst
        (λ z.
          ◌>>=◌ (λ _. z) (answer_or_move codec call args) w ≡ transition_in_tx codec call args w)
        (sym (replay_misses args.idem_key w calm unused)) refl

  pub calm_Commits :
      (args : TransitionArgs) (w : World)
      → w.faults ≡ []
      → find_idempotency args.idem_key w.committed.idempotency ≡ none
      → Commits w
          (transition_call codec call args w)
          (transition_effect codec call args (others w.committed))
  unfolding transition_in_tx
  calm_Commits args w calm unused =
      subst (λ z. Commits w z (transition_effect codec call args (others w.committed)))
        (sym (calm_call args w calm unused))
        (transaction-Commits others (transition_body codec call args)
          (transition_effect codec call args) w (transition_body-Implements codec call args).1 calm)

  module _ (args : TransitionArgs) (db : Db) (current : OpsCase)
      (found : find_case args.case_id db.cases ≡ some current) where
    read_ok : get_case_for_update pg args.case_id db ≡ ok (current, db)
    unfolding get_case_for_update
    read_ok = ground arith

    reach_check : transition_effect codec call args db ≡ check_effect codec call args current db
    unfolding transition_effect
    reach_check =
        bind_ok (get_case_for_update pg args.case_id) (check_effect codec call args) db read_ok

    stale_effect :
        version_conflicts args.if_match current ≡ true
        → transition_effect codec call args db ≡ err no_rows
    unfolding check_effect
    stale_effect stale =
        reach_check
        ∙ bind_err (unchanged (unless (version_conflicts args.if_match current) no_rows))
            (λ _. decide_effect codec call args current) db (rw stale)

    module _ (fresh : version_conflicts args.if_match current ≡ false) where
      reach_decide : transition_effect codec call args db ≡ decide_effect codec call args current db
      unfolding check_effect
      reach_decide =
          reach_check
          ∙ bind_ok (unchanged (unless (version_conflicts args.if_match current) no_rows))
              (λ _. decide_effect codec call args current) db (rw fresh)

      refused_effect :
          (e : DecideError)
          → decide
              (State.of_text current.status)
              args.event
              args.ctx
              (codec.uuid_text current.case_id)
            ≡ err e
          → transition_effect codec call args db ≡ err (refused e)
      unfolding decide_effect
      refused_effect e no_way =
          reach_decide
          ∙ bind_err (unchanged (decision codec call args current))
              (update_effect codec call args current) db (rw no_way)

      pub reach_update :
          (intent : TransitionIntent)
          → decide
              (State.of_text current.status)
              args.event
              args.ctx
              (codec.uuid_text current.case_id)
            ≡ ok intent
          → transition_effect codec call args db ≡ update_effect codec call args current intent db
      unfolding decide_effect
      reach_update intent chosen =
          reach_decide
          ∙ bind_ok (unchanged (decision codec call args current))
              (update_effect codec call args current) db {a = intent} (rw chosen)

  -- Where no call to the server fails and the key is not in use, a transition of a case that exists,
  -- whose If-Match names another version than the row's, is refused as `ErrNoRows`.
  pub transition_stale :
      (args : TransitionArgs) (w : World) (current : OpsCase)
      → w.faults ≡ []
      → find_idempotency args.idem_key w.committed.idempotency ≡ none
      → find_case args.case_id (others w.committed).cases ≡ some current
      → version_conflicts args.if_match current ≡ true
      → (transition_call codec call args w).0 ≡ err no_rows
  transition_stale args w current calm unused found stale =
      subst (Commits w (transition_call codec call args w))
        (stale_effect args (others w.committed) current found stale)
        (calm_Commits args w calm unused)

  -- Where no call to the server fails and the key is not in use, a transition of a case that exists,
  -- whose version fits and which the state machine refuses, is refused with the machine's error.
  pub transition_refused :
      (args : TransitionArgs) (w : World) (current : OpsCase) (e : DecideError)
      → w.faults ≡ []
      → find_idempotency args.idem_key w.committed.idempotency ≡ none
      → find_case args.case_id (others w.committed).cases ≡ some current
      → version_conflicts args.if_match current ≡ false
      → decide (State.of_text current.status) args.event args.ctx (codec.uuid_text current.case_id)
        ≡ err e
      → (transition_call codec call args w).0 ≡ err (refused e)
  transition_refused args w current e calm unused found fresh no_way =
      subst (Commits w (transition_call codec call args w))
        (refused_effect args (others w.committed) current found fresh e no_way)
        (calm_Commits args w calm unused)
