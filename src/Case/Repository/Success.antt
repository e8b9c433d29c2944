-- ===== src/Case/Repository/Success.antt =====
-- A legal transition succeeds where no call to the server fails.
use xscope_hub.Prelude.{
  ℕ, ◌+◌, Bytes, is_empty, true, false, none, some, List, [], ◌∷◌, ◌++◌, Outcome, ok, ◌≡◌, refl,
  arith, sym, subst, ◌∙◌, Dict,
}
use xscope_hub.Workflow.State
use xscope_hub.Workflow.State.{State}
use xscope_hub.Workflow.Decide.{Value, TimelineEntry, intent_of, message_of}
use xscope_hub.Workflow.Steps.{Step, decide-of-Step}
use xscope_hub.Case.Tables.{OpsCase, Db, find_case, find_idempotency}
use xscope_hub.Case.Session.{RepoError, World}
use xscope_hub.Case.Session.Refines.{unchanged}
use xscope_hub.Case.Session.Total.{Commits}
use xscope_hub.Case.Queries.{
  Postgres, UpdateCaseStatusParams, InsertTimelineParams, InsertOutboxParams,
  InsertIdempotencyParams, update_case_status, insert_timeline, insert_outbox, insert_idempotency,
  set_status, has_case, timeline_row, outbox_row, idempotency_row,
}
use xscope_hub.Case.Queries.Results.{bind_ok}
use xscope_hub.Case.Repository.{
  Codec, Call, TransitionArgs, version_conflicts, message, remembered, step_entry, new_status,
  transition_call,
}
use xscope_hub.Case.Repository.Effects.{
  update_effect, note_effect, record_effect, finish_effect, remember_effect, send_all_effect,
  send_effect,
}
use xscope_hub.Case.Repository.Moves.{case_id-of-find}
use xscope_hub.Case.Repository.Calm.{reach_update, calm_Commits}

-- What the encoding promises of the texts that it makes: the server takes them as JSON.
pub record WritesJson (codec : Codec) (pg : Postgres) : Type 0 where
  pub row_json : (row : OpsCase) → pg.is_json (codec.encode_row row) ≡ true
  pub timeline_json : (e : TimelineEntry) → pg.is_json (codec.encode_timeline e) ≡ true
  pub payload_json : (p : Dict Value) → pg.is_json (codec.encode_payload p) ≡ true

has_case-set_status :
    (k : ℕ) (pg : Postgres) (p : UpdateCaseStatusParams) (cs : List OpsCase)
    → has_case k (set_status pg.now p cs) ≡ has_case k cs
unfolding set_status find_case
has_case-set_status k pg p [] = refl
has_case-set_status k pg p (c ∷ cs) = ground (arith, has_case-set_status k pg p cs)

module _ (pg : Postgres) where
  update_ok :
      (p : UpdateCaseStatusParams) (db : Db) {c : OpsCase}
      → find_case p.case_id db.cases ≡ some c
      → c.version ≡ p.version
      → update_case_status pg p db
        ≡ ok (
          record c { status = p.status; updated_at = pg.now; version = c.version + 1 },
          record db { cases = set_status pg.now p db.cases },
        )
  unfolding update_case_status
  update_ok p db {c} found same_version = ground arith

  timeline_ok :
      (p : InsertTimelineParams) (db : Db)
      → has_case p.case_id db.cases ≡ true
      → pg.is_json p.payload ≡ true
      → insert_timeline pg p db
        ≡ ok (
          tt,
          record db {
            timeline = db.timeline ++ timeline_row pg db.next_timeline p ∷ [];
            next_timeline = db.next_timeline + 1;
          },
        )
  unfolding insert_timeline
  timeline_ok p db known json = rw (known, json)

  outbox_ok :
      (p : InsertOutboxParams) (db : Db)
      → pg.is_json p.payload ≡ true
      → insert_outbox pg p db
        ≡ ok (
          tt,
          record db {
            outbox = db.outbox ++ outbox_row pg db.next_outbox p ∷ [];
            next_outbox = db.next_outbox + 1;
          },
        )
  unfolding insert_outbox
  outbox_ok p db json = rw json

  idempotency_ok :
      (p : InsertIdempotencyParams) (db : Db)
      → find_idempotency p.idem_key db.idempotency ≡ none
      → pg.is_json p.request ≡ true
      → pg.is_json p.response ≡ true
      → insert_idempotency pg p db
        ≡ ok (tt, record db { idempotency = db.idempotency ++ idempotency_row pg p ∷ [] })
  unfolding insert_idempotency
  idempotency_ok p db unused json json' = ground arith

module _ (codec : Codec) (call : Call) (laws : WritesJson codec call.pg) where
  open call use {pg, others}

  -- The rest of a transition from the update on has a result.
  abbrev Done : Outcome RepoError (OpsCase × Db) → Type 0
  Done r = (row : OpsCase) × (db : Db) × (r ≡ ok (row, db))

  remember_done :
      (key request : Bytes) (row : OpsCase) (db : Db)
      → find_idempotency key db.idempotency ≡ none
      → (is_empty key ≡ false → pg.is_json request ≡ true)
      → (db' : Db) × (remember_effect codec call key request row db ≡ ok (tt, db'))
  unfolding remember_effect
  remember_done [] request row db unused json = (db, refl)
  remember_done (c ∷ key) request row db unused json =
      let p = remembered codec call (c ∷ key) request row in
      (
        record db { idempotency = db.idempotency ++ idempotency_row pg p ∷ [] },
        idempotency_ok pg p db unused (json refl) (laws.row_json row),
      )

  finish-Done :
      (args : TransitionArgs) (updated : OpsCase) (db : Db)
      → find_idempotency args.idem_key db.idempotency ≡ none
      → (is_empty args.idem_key ≡ false → pg.is_json args.request ≡ true)
      → Done (finish_effect codec call args updated db)
  unfolding finish_effect
  finish-Done args updated db unused json =
      let (mid, stored) = remember_done args.idem_key args.request updated db unused json in
      (
        updated,
        mid,
        bind_ok (remember_effect codec call args.idem_key args.request updated)
            (λ _. unchanged (ok updated)) db stored,
      )

  note-Done :
      (args : TransitionArgs) (current updated : OpsCase) (from to : State) (db : Db)
      → has_case current.case_id db.cases ≡ true
      → find_idempotency args.idem_key db.idempotency ≡ none
      → (is_empty args.idem_key ≡ false → pg.is_json args.request ≡ true)
      → Done (
          note_effect codec call args current
            (intent_of from to args.event args.ctx (codec.uuid_text current.case_id))
            updated
            db)
  unfolding note_effect record_effect send_all_effect send_effect intent_of
  note-Done args current updated from to db known unused json =
      let id = codec.uuid_text current.case_id in
      let intent = intent_of from to args.event args.ctx id in
      let m = message_of from to args.event args.ctx id in
      let entry = step_entry codec call current intent in
      let db1 : Db = record db {
        timeline = db.timeline ++ timeline_row pg db.next_timeline entry ∷ [];
        next_timeline = db.next_timeline + 1;
      } in
      let sent = message codec call current.case_id m.topic m.payload in
      let db2 : Db = record db1 {
        outbox = db.outbox ++ outbox_row pg db.next_outbox sent ∷ [];
        next_outbox = db.next_outbox + 1;
      } in
      let both =
        bind_ok (insert_timeline pg entry)
          (λ _. send_all_effect codec call current.case_id (m ∷ [])) db
          (timeline_ok pg entry db known (laws.timeline_json intent.timeline))
        ∙ bind_ok (insert_outbox pg sent) (λ _. unchanged (ok tt)) db1
            (outbox_ok pg sent db1 (laws.payload_json m.payload)) in
      let (row, db3, finished) = finish-Done args updated db2 unused json in
      (
        row,
        db3,
        bind_ok (record_effect codec call current intent)
              (λ _. finish_effect codec call args updated) db both
            ∙ finished,
      )

  -- Where the server takes what the encoding writes as JSON and no call to it fails: a legal transition
  -- of a case that exists, whose version fits, succeeds if its key is not in use and, unless it is
  -- empty, its request is JSON to the server.
  pub transition_succeeds :
      (args : TransitionArgs) (w : World) (current : OpsCase) (to : State)
      → w.faults ≡ []
      → find_idempotency args.idem_key w.committed.idempotency ≡ none
      → find_idempotency args.idem_key (others w.committed).idempotency ≡ none
      → (is_empty args.idem_key ≡ false → pg.is_json args.request ≡ true)
      → find_case args.case_id (others w.committed).cases ≡ some current
      → version_conflicts args.if_match current ≡ false
      → Step args.ctx (State.of_text current.status) args.event to
      → (row : OpsCase) × (w' : World) × (transition_call codec call args w ≡ (ok row, w'))
  unfolding update_effect
  transition_succeeds args w current to calm unseen unused json found fresh legal =
      let db = others w.committed in
      let from = State.of_text current.status in
      let id = codec.uuid_text current.case_id in
      let intent = intent_of from to args.event args.ctx id in
      let p = new_status codec call current (intent_of from to args.event args.ctx id) in
      let found_self =
        subst (λ k. find_case k db.cases ≡ some current)
          (sym (case_id-of-find args.case_id db.cases found)) found in
      let known : has_case current.case_id db.cases ≡ true = ground arith in
      let db1 : Db = record db { cases = set_status pg.now p db.cases } in
      let updated : OpsCase = record current {
        status = p.status;
        updated_at = pg.now;
        version = current.version + 1;
      } in
      let (row, db2, noted) =
        note-Done args current updated from to db1
          (has_case-set_status current.case_id pg p db.cases ∙ known) unused json in
      let effect =
        reach_update codec call args db current found fresh intent (decide-of-Step id legal)
        ∙ bind_ok (update_case_status pg p) (note_effect codec call args current intent) db
            (update_ok pg p db found_self refl)
        ∙ noted in
      (
        row,
        record w { committed = db2; tx = none },
        subst (Commits w (transition_call codec call args w)) effect
            (calm_Commits codec call args w calm unseen),
      )
