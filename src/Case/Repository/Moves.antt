-- ===== src/Case/Repository/Moves.antt =====
-- What a transition that succeeded has done to the tables.
use xscope_hub.Prelude.{
  ℕ, ◌+◌, Bytes, is_empty, Bool, false, none, some, List, [], ◌∷◌, ◌++◌, Outcome, ok, err,
  if◌then◌else◌, ◌≡◌, arith, append-nil, sym, subst, ap, ◌∙◌,
}
use xscope_hub.Workflow.State
use xscope_hub.Workflow.State.{State}
use xscope_hub.Workflow.Decide.{TransitionIntent, OutboxMsg, intent_of, message_of, decide}
use xscope_hub.Workflow.Steps.{Step, Step-of-decide}
use xscope_hub.Case.Tables.{OpsCase, Idempotency, Db, find_case, find_idempotency}
use xscope_hub.Case.Session.{RepoError, no_rows, refused}
use xscope_hub.Case.Queries.{
  InsertTimelineParams, get_case_for_update, update_case_status, insert_timeline, idempotency_row,
  outbox_row, timeline_row, set_status,
}
use xscope_hub.Case.Queries.Results.{
  bind-eq-ok, get_case-eq-ok, update-eq-ok, insert_timeline-eq-ok, insert_outbox-eq-ok,
  insert_idempotency-eq-ok,
}
use xscope_hub.Case.Repository.{
  Codec, Call, TransitionArgs, version_conflicts, unless, message, remembered, step_entry,
  new_status, decision, decided,
}
use xscope_hub.Case.Repository.Effects.{
  send_all_effect, send_effect, remember_effect, record_effect, finish_effect, note_effect,
  update_effect, decide_effect, check_effect, transition_effect,
}
use xscope_hub.Case.Session.Refines.{bind, unchanged}

unless-eq-ok : (b : Bool) (e : RepoError) {u : Unit {0}} → unless b e ≡ ok u → b ≡ false
unless-eq-ok b e h = ground arith

pub unchanged-eq-ok :
    {A : Type 0} (r : Outcome RepoError A) (db : Db) {a : A} {db' : Db}
    → unchanged r db ≡ ok (a, db')
    → (r ≡ ok a) × (db' ≡ db)
unchanged-eq-ok (ok x) db h = (cc, cc)
unchanged-eq-ok (err e) db h = cc

pub case_id-of-find :
    (k : ℕ) (cs : List OpsCase) {c : OpsCase} → find_case k cs ≡ some c → c.case_id ≡ k
unfolding find_case
case_id-of-find k [] h = cc
case_id-of-find k (x ∷ cs) {c} h = ground (arith, case_id-of-find k cs {c = c})

decided-eq-ok :
    {A E : Type 0} (f : E → RepoError) (r : Outcome E A) {a : A} → decided f r ≡ ok a → r ≡ ok a
decided-eq-ok f (ok a) h = cc
decided-eq-ok f (err e) h = cc

module _ (codec : Codec) (call : Call) where
  open call use {pg}
  open codec use {uuid_text}

  -- The rows that a call with this key leaves in the table of keys.
  abbrev pub kept : Bytes → Bytes → OpsCase → List Idempotency
  kept key request row =
      if is_empty key then [] else idempotency_row pg (remembered codec call key request row) ∷ []

  -- The case has taken a legal step: its row has the new status and the next version, and one
  -- timeline row, one outbox row and, with a key, one row of the key were added, nothing else.
  pub record Moved (args : TransitionArgs) (db : Db) (row : OpsCase) (db' : Db) : Type 0 where
    pub current : OpsCase
    pub to : State
    pub found : find_case args.case_id db.cases ≡ some current
    pub fresh : version_conflicts args.if_match current ≡ false
    pub legal : Step args.ctx (State.of_text current.status) args.event to
    pub row_is : row ≡ record current {
      status = State.to_text to;
      updated_at = pg.now;
      version = current.version + 1;
    }
    pub cases_is :
        db'.cases
        ≡ set_status pg.now
            (record {
              case_id = current.case_id;
              status = State.to_text to;
              version = current.version;
            })
            db.cases
    pub timeline_is :
        db'.timeline
        ≡ db.timeline
          ++ timeline_row pg db.next_timeline (
              step_entry codec call current (
                intent_of
                  (State.of_text current.status)
                  to
                  args.event
                  args.ctx
                  (uuid_text current.case_id)))
            ∷ []
    pub outbox_is :
        db'.outbox
        ≡ db.outbox
          ++ outbox_row pg db.next_outbox (
              message codec call current.case_id
                (message_of
                  (State.of_text current.status)
                  to
                  args.event
                  args.ctx
                  (uuid_text current.case_id)).topic
                (message_of
                  (State.of_text current.status)
                  to
                  args.event
                  args.ctx
                  (uuid_text current.case_id)).payload)
            ∷ []
    pub sequence_is : db'.next_outbox ≡ db.next_outbox + 1
    pub key_unused :
        is_empty args.idem_key ≡ false → find_idempotency args.idem_key db.idempotency ≡ none
    pub keys_is : db'.idempotency ≡ db.idempotency ++ kept args.idem_key args.request row

  pub remember-eq-ok :
      (key request : Bytes) (row : OpsCase) (db : Db) {u : Unit {0}} {db' : Db}
      → remember_effect codec call key request row db ≡ ok (u, db')
      → (is_empty key ≡ false → find_idempotency key db.idempotency ≡ none)
        × (db' ≡ record db { idempotency = db.idempotency ++ kept key request row })
  unfolding remember_effect
  remember-eq-ok [] request row db h = (λ e. cc, rw append-nil (cc))
  remember-eq-ok (c ∷ key) request row db h =
      let (unused, _, is) =
        insert_idempotency-eq-ok pg (remembered codec call (c ∷ key) request row) db h in
      (λ _. unused, is)

  send_one-eq-ok :
      (k : ℕ) (m : OutboxMsg) (db : Db) {u : Unit {0}} {db' : Db}
      → send_all_effect codec call k (m ∷ []) db ≡ ok (u, db')
      → db' ≡ record db {
        outbox =
            db.outbox ++ outbox_row pg db.next_outbox (message codec call k m.topic m.payload) ∷ [];
        next_outbox = db.next_outbox + 1;
      }
  unfolding send_all_effect send_effect
  send_one-eq-ok k m db h =
      let (_, mid, sent, rest) =
        bind-eq-ok (send_effect codec call k m.topic m.payload) (λ _. unchanged (ok tt)) db h in
      cc (insert_outbox-eq-ok pg (message codec call k m.topic m.payload) db sent, rest)

  -- The part after the decision.
  record_step-eq-ok :
      (current : OpsCase) (entry : InsertTimelineParams) (m : OutboxMsg) (db : Db) {u : Unit {0}}
      {db' : Db}
      → bind
          (insert_timeline pg entry)
          (λ _. send_all_effect codec call current.case_id (m ∷ []))
          db
        ≡ ok (u, db')
      → db' ≡ record db {
        timeline = db.timeline ++ timeline_row pg db.next_timeline entry ∷ [];
        next_timeline = db.next_timeline + 1;
        outbox =
            db.outbox
            ++ outbox_row pg db.next_outbox (message codec call current.case_id m.topic m.payload)
              ∷ [];
        next_outbox = db.next_outbox + 1;
      }
  record_step-eq-ok current entry m db h =
      let (_, mid, noted, rest) =
        bind-eq-ok (insert_timeline pg entry)
          (λ _. send_all_effect codec call current.case_id (m ∷ [])) db h in
      let timeline_is = insert_timeline-eq-ok pg entry db noted in
      let outbox_is = send_one-eq-ok current.case_id m mid rest in ground arith

  finish-eq-ok :
      (args : TransitionArgs) (updated : OpsCase) (db : Db) {row : OpsCase} {db' : Db}
      → finish_effect codec call args updated db ≡ ok (row, db')
      → (row ≡ updated)
        × (is_empty args.idem_key ≡ false → find_idempotency args.idem_key db.idempotency ≡ none)
        × (db'
            ≡ record db { idempotency = db.idempotency ++ kept args.idem_key args.request updated })
  unfolding finish_effect
  finish-eq-ok args updated db h =
      let (_, mid, stored, rest) =
        bind-eq-ok (remember_effect codec call args.idem_key args.request updated)
          (λ _. unchanged (ok updated)) db h in
      let (unused, keys_is) = remember-eq-ok args.idem_key args.request updated db stored in
      (ground arith, unused, ground arith)

  -- Timeline, outbox and key together, for the one message that an intent holds.
  note-eq-ok :
      (args : TransitionArgs) (current updated : OpsCase) (from to : State) (db : Db)
      {row : OpsCase} {db' : Db}
      → let intent = intent_of from to args.event args.ctx (uuid_text current.case_id) in
        let m = message_of from to args.event args.ctx (uuid_text current.case_id) in
        note_effect codec call args current intent updated db ≡ ok (row, db')
        → (row ≡ updated)
          × (is_empty args.idem_key ≡ false → find_idempotency args.idem_key db.idempotency ≡ none)
          × (db' ≡ record db {
            timeline =
                db.timeline
                ++ timeline_row pg db.next_timeline (step_entry codec call current intent) ∷ [];
            next_timeline = db.next_timeline + 1;
            outbox =
                db.outbox
                ++ outbox_row pg db.next_outbox
                    (message codec call current.case_id m.topic m.payload)
                  ∷ [];
            next_outbox = db.next_outbox + 1;
            idempotency = db.idempotency ++ kept args.idem_key args.request updated;
          })
  unfolding note_effect record_effect intent_of
  note-eq-ok args current updated from to db h =
      let intent = intent_of from to args.event args.ctx (uuid_text current.case_id) in
      let m = message_of from to args.event args.ctx (uuid_text current.case_id) in
      let (_, mid, noted, rest) =
        bind-eq-ok (record_effect codec call current intent)
          (λ _. finish_effect codec call args updated) db h in
      let rows_are = record_step-eq-ok current (step_entry codec call current intent) m db noted in
      let (same_row, unused, keys_are) = finish-eq-ok args updated mid rest in
      let same_keys : mid.idempotency ≡ db.idempotency = ground arith in
      (same_row, rw (← same_keys) unused, ground arith)

  -- From the update on, with the case found and the decision taken.
  update-Moved :
      (args : TransitionArgs) (current : OpsCase) (intent : TransitionIntent) (db : Db)
      {row : OpsCase} {db' : Db}
      → find_case args.case_id db.cases ≡ some current
      → version_conflicts args.if_match current ≡ false
      → decide (State.of_text current.status) args.event args.ctx (uuid_text current.case_id)
        ≡ ok intent
      → update_effect codec call args current intent db ≡ ok (row, db')
      → Moved args db row db'
  unfolding update_effect
  update-Moved args current intent db {row} {db'} found fresh chosen h =
      let from = State.of_text current.status in
      let (updated, mid, changed, rest) =
        bind-eq-ok (update_case_status pg (new_status codec call current intent))
          (note_effect codec call args current intent) db h in
      let (legal, intent_is) =
        Step-of-decide from args.event args.ctx (uuid_text current.case_id) chosen in
      let found_self =
        subst (λ k. find_case k db.cases ≡ some current)
          (sym (case_id-of-find args.case_id db.cases found)) found in
      let (_, updated_is, mid_is) =
        update-eq-ok pg (new_status codec call current intent) db found_self changed in
      let noted =
        subst
          (λ (j : TransitionIntent).
            note_effect codec call args current j updated mid ≡ ok (row, db'))
          intent_is rest in
      let (row_is, unused, all_is) = note-eq-ok args current updated from intent.to mid noted in
      record {
        current = current;
        to = intent.to;
        found = found;
        fresh = fresh;
        legal = legal;
        row_is = ground arith;
        cases_is = ground arith;
        timeline_is = ground arith;
        outbox_is = ground arith;
        sequence_is = ground arith;
        key_unused = rw (ap (λ (d : Db). d.idempotency) mid_is) at unused;
        keys_is = ground arith;
      }

  -- A transition that succeeds has moved the case.
  pub transition_effect-Moved :
      (args : TransitionArgs) (db : Db) {row : OpsCase} {db' : Db}
      → transition_effect codec call args db ≡ ok (row, db')
      → Moved args db row db'
  unfolding transition_effect check_effect decide_effect
  transition_effect-Moved args db {row} {db'} h =
      let (current, db1, read, h1) =
        bind-eq-ok (get_case_for_update pg args.case_id) (check_effect codec call args) db h in
      let (found, same1) = get_case-eq-ok pg args.case_id db read in
      let (_, db2, checked, h2) =
        bind-eq-ok (unchanged (unless (version_conflicts args.if_match current) no_rows))
          (λ _. decide_effect codec call args current) db1 h1 in
      let (passed, same2) = unchanged-eq-ok _ db1 checked in
      let (intent, db3, chosen, h3) =
        bind-eq-ok (unchanged (decision codec call args current))
          (update_effect codec call args current) db2 h2 in
      let (decided_ok, same3) = unchanged-eq-ok _ db2 chosen in
      update-Moved args current intent db found (unless-eq-ok _ no_rows passed)
        (decided-eq-ok refused _ decided_ok)
        (subst (λ d. update_effect codec call args current intent d ≡ ok (row, db'))
          (same3 ∙ same2 ∙ same1) h3)
