-- ===== src/Case/Repository/Creations.antt =====
-- Whole calls of `CreateCase`.
use xscope_hub.Prelude.{
  ◌+◌, Bytes, codes, is_empty, Bool, true, false, Option, none, some, List, [], ◌∷◌, ◌++◌, Outcome,
  ok, err, ◌≡◌, ◌⊎◌, inl, inr, refl, arith, sym, subst, ◌∙◌,
}
use xscope_hub.Workflow.State
use xscope_hub.Workflow.State.{State}
use xscope_hub.Workflow.Decide.{transition_topic}
use xscope_hub.Case.Tables.{OpsCase, Db, find_idempotency}
use xscope_hub.Case.Session.{RepoError, World, ◌>>=◌}
use xscope_hub.Case.Session.Atomic.{Atomic, transaction-Atomic}
use xscope_hub.Case.Session.Refines.{bind, unchanged}
use xscope_hub.Case.Queries.{
  create_case, insert_timeline, insert_outbox, outbox_row, timeline_row, has_case,
}
use xscope_hub.Case.Queries.Results.{
  bind-eq-ok, create_case-eq-ok, insert_timeline-eq-ok, insert_outbox-eq-ok,
  insert_idempotency-eq-ok,
}
use xscope_hub.Case.Repository.{
  Codec, Call, CreateCaseArgs, message, remembered, creation_entry, creation_payload, new_case,
  create_body, create_in_tx, answer_or_create, create_case_call,
}
use xscope_hub.Case.Repository.Effects.{
  create_effect, create_body-Implements, send_effect, remember_effect,
}
use xscope_hub.Case.Repository.Moves.{kept, remember-eq-ok}
use xscope_hub.Case.Repository.Calls.{Replayed, replay_lem}

module _ (codec : Codec) (call : Call) where
  open call use {pg}

  -- The row of a new case.
  abbrev pub first_row : CreateCaseArgs → OpsCase
  first_row args = record {
    case_id = pg.uuid;
    tenant_id = args.tenant_id;
    title = args.title;
    severity = codes "INFO";
    status = State.to_text State.new;
    resource_id = none;
    created_at = pg.now;
    updated_at = pg.now;
    labels = codes "{}";
    version = 1;
  }

  -- A new case in the state NEW, with an id that was unused, was added, with one timeline row, one
  -- outbox row and, with a key, one row of the key, nothing else. With a key the empty text is JSON to
  -- the server, since it was stored as the request.
  pub record Created (args : CreateCaseArgs) (db : Db) (row : OpsCase) (db' : Db) : Type 0 where
    pub unused : has_case pg.uuid db.cases ≡ false
    pub row_is : row ≡ first_row args
    pub cases_is : db'.cases ≡ db.cases ++ row ∷ []
    pub timeline_is :
        db'.timeline
        ≡ db.timeline ++ timeline_row pg db.next_timeline (creation_entry codec call row args) ∷ []
    pub outbox_is :
        db'.outbox
        ≡ db.outbox
          ++ outbox_row pg db.next_outbox
              (message codec call row.case_id transition_topic (creation_payload codec call row))
            ∷ []
    pub sequence_is : db'.next_outbox ≡ db.next_outbox + 1
    pub key_unused :
        is_empty args.idem_key ≡ false → find_idempotency args.idem_key db.idempotency ≡ none
    pub request_json : is_empty args.idem_key ≡ false → pg.is_json [] ≡ true
    pub keys_is : db'.idempotency ≡ db.idempotency ++ kept codec call args.idem_key [] row

  -- The parts of `create_effect` behind the new row.
  abbrev note_creation : CreateCaseArgs → OpsCase → Db → Outcome RepoError (Unit {0} × Db)
  note_creation args row =
      bind (insert_timeline pg (creation_entry codec call row args))
        λ _. send_effect codec call row.case_id transition_topic (creation_payload codec call row)

  abbrev finish_creation : CreateCaseArgs → OpsCase → Db → Outcome RepoError (OpsCase × Db)
  finish_creation args row =
      bind (remember_effect codec call args.idem_key [] row) λ _. unchanged (ok row)

  abbrev after_row : CreateCaseArgs → OpsCase → Db → Outcome RepoError (OpsCase × Db)
  after_row args row = bind (note_creation args row) λ _. finish_creation args row

  create_row :
      (args : CreateCaseArgs) (db : Db) {row : OpsCase} {db' : Db}
      → create_case pg (new_case codec call args) db ≡ ok (row, db')
      → row ≡ first_row args
  unfolding create_case
  create_row args db h = ground arith

  note-eq-ok :
      (args : CreateCaseArgs) (row : OpsCase) (db : Db) {u : Unit {0}} {db' : Db}
      → note_creation args row db ≡ ok (u, db')
      → db' ≡ record db {
        timeline =
            db.timeline
            ++ timeline_row pg db.next_timeline (creation_entry codec call row args) ∷ [];
        next_timeline = db.next_timeline + 1;
        outbox =
            db.outbox
            ++ outbox_row pg db.next_outbox
                (message codec call row.case_id transition_topic (creation_payload codec call row))
              ∷ [];
        next_outbox = db.next_outbox + 1;
      }
  unfolding send_effect
  note-eq-ok args row db h =
      let entry = creation_entry codec call row args in
      let m = message codec call row.case_id transition_topic (creation_payload codec call row) in
      let (_, mid, noted, rest) =
        bind-eq-ok (insert_timeline pg entry) (λ _. insert_outbox pg m) db h in
      let timeline_is = insert_timeline-eq-ok pg entry db noted in
      let outbox_is = insert_outbox-eq-ok pg m mid rest in ground arith

  remember_json :
      (key request : Bytes) (row : OpsCase) (db : Db) {u : Unit {0}} {db' : Db}
      → remember_effect codec call key request row db ≡ ok (u, db')
      → is_empty key ≡ false
      → pg.is_json request ≡ true
  unfolding remember_effect
  remember_json [] request row db h named = cc
  remember_json (c ∷ key) request row db h named =
      (insert_idempotency-eq-ok pg (remembered codec call (c ∷ key) request row) db h).1

  finish-eq-ok :
      (args : CreateCaseArgs) (row : OpsCase) (db : Db) {row' : OpsCase} {db' : Db}
      → finish_creation args row db ≡ ok (row', db')
      → (row' ≡ row)
        × (is_empty args.idem_key ≡ false → find_idempotency args.idem_key db.idempotency ≡ none)
        × (is_empty args.idem_key ≡ false → pg.is_json [] ≡ true)
        × (db' ≡ record db { idempotency = db.idempotency ++ kept codec call args.idem_key [] row })
  finish-eq-ok args row db h =
      let (_, mid, stored, rest) =
        bind-eq-ok (remember_effect codec call args.idem_key [] row) (λ _. unchanged (ok row)) db
          h in
      let (unused, keys_is) = remember-eq-ok codec call args.idem_key [] row db stored in
      (ground arith, unused, remember_json args.idem_key [] row db stored, ground arith)

  create_effect-Created :
      (args : CreateCaseArgs) (db : Db) {row : OpsCase} {db' : Db}
      → create_effect codec call args db ≡ ok (row, db')
      → Created args db row db'
  unfolding create_effect
  create_effect-Created args db {row} {db'} h =
      let (c, db1, made, h1) =
        bind-eq-ok (create_case pg (new_case codec call args)) (after_row args) db h in
      let (unused, _, _, _, _, _, db1_is) =
        create_case-eq-ok pg (new_case codec call args) db made in
      let (_, db2, noted, h2) =
        bind-eq-ok (note_creation args c) (λ _. finish_creation args c) db1 h1 in
      let db2_is = note-eq-ok args c db1 noted in
      let (same_row, key_new, json, db'_is) = finish-eq-ok args c db2 h2 in
      let same_keys : db2.idempotency ≡ db.idempotency = ground arith in
      record {
        unused = unused;
        row_is = same_row ∙ create_row args db made;
        cases_is = ground arith;
        timeline_is = ground arith;
        outbox_is = ground arith;
        sequence_is = ground arith;
        key_unused = rw same_keys at key_new;
        request_json = json;
        keys_is = ground arith;
      }

  -- How a call ends that began in `w`.
  abbrev pub CreationEnds : CreateCaseArgs → World → Outcome RepoError OpsCase × World → Type 0
  CreationEnds args w (ok row, w') =
      (w'.tx ≡ none)
      × ((Replayed codec args.idem_key w.committed row × (w'.committed ≡ w.committed))
          ⊎ Created args (call.others w.committed) row w'.committed)
  CreationEnds args w (err e, w') = (w'.tx ≡ none) × (w'.committed ≡ call.others w.committed)

  CreationEnds-of-Atomic :
      (args : CreateCaseArgs) (w : World) (r : Outcome RepoError OpsCase × World)
      → Atomic (call.others w.committed) (create_effect codec call args) r
      → CreationEnds args w r
  CreationEnds-of-Atomic args w (ok row, w') (closed, done) =
      (closed, inr (create_effect-Created args (call.others w.committed) done))
  CreationEnds-of-Atomic args w (err e, w') h = h

  create_in_tx-Ends :
      (args : CreateCaseArgs) (w : World) (fs : List Bool)
      → w.tx ≡ none
      → CreationEnds args w (create_in_tx codec call args (record w { faults = fs }))
  unfolding create_in_tx
  create_in_tx-Ends args w fs closed =
      let v : World = record w { faults = fs } in
      CreationEnds-of-Atomic args w (create_in_tx codec call args v) (
        transaction-Atomic call.others (create_body codec call args) (create_effect codec call args)
          v (create_body-Implements codec call args).0 closed)

  answer_or_create-Ends :
      (args : CreateCaseArgs) (w : World) (fs : List Bool) (o : Option OpsCase)
      → w.tx ≡ none
      → (o ≡ none)
        ⊎ ((row : OpsCase) × (o ≡ some row) × Replayed codec args.idem_key w.committed row)
      → CreationEnds args w (answer_or_create codec call args o (record w { faults = fs }))
  unfolding answer_or_create
  answer_or_create-Ends args w fs none closed h = create_in_tx-Ends args w fs closed
  answer_or_create-Ends args w fs (some row) closed (inl e) = cc
  answer_or_create-Ends args w fs (some row) closed (inr (row', e, r)) =
      let same_row : row' ≡ row = cc in
      (closed, inl (subst (Replayed codec args.idem_key w.committed) same_row r, refl))

  -- Whatever calls to the server fail and whatever others commit meanwhile, a call of CreateCase
  -- made outside a transaction leaves none open; with an error nothing of the call is in the
  -- database; with a row, either it is the answer stored under the call's key and nothing has
  -- changed, or a new case in the state NEW was added with its timeline, outbox and key rows.
  pub create_case_call-Ends :
      (args : CreateCaseArgs) (w : World)
      → w.tx ≡ none
      → CreationEnds args w (create_case_call codec call args w)
  unfolding create_case_call
  create_case_call-Ends args w closed =
      let (fs, o, e, h) = replay_lem codec call args.idem_key w in
      subst (λ z. CreationEnds args w (◌>>=◌ (λ _. z) (answer_or_create codec call args) w)) (sym e)
        (answer_or_create-Ends args w fs o closed h)

  -- How a call with a key ends where the empty text is no JSON.
  abbrev pub KeyedEnds : CreateCaseArgs → World → Outcome RepoError OpsCase × World → Type 0
  KeyedEnds args w (ok row, w') =
      Replayed codec args.idem_key w.committed row × (w'.committed ≡ w.committed)
  KeyedEnds args w (err e, w') = w'.committed ≡ call.others w.committed

  KeyedEnds-of-Ends :
      (args : CreateCaseArgs) (w : World) (r : Outcome RepoError OpsCase × World)
      → pg.is_json [] ≡ false
      → is_empty args.idem_key ≡ false
      → CreationEnds args w r
      → KeyedEnds args w r
  KeyedEnds-of-Ends args w (ok row, w') no_json named (_, inl replayed) = replayed
  KeyedEnds-of-Ends args w (ok row, w') no_json named (_, inr made) =
      let json = made.request_json named in cc
  KeyedEnds-of-Ends args w (err e, w') no_json named (_, same_db) = same_db

  -- Where the server takes the empty text for no JSON, a call of CreateCase with a key, made outside
  -- a transaction, never creates a case: it gives an answer that was already stored, or an error,
  -- and the database holds nothing of it.
  pub create_case_call-keyed :
      (args : CreateCaseArgs) (w : World)
      → pg.is_json [] ≡ false
      → is_empty args.idem_key ≡ false
      → w.tx ≡ none
      → KeyedEnds args w (create_case_call codec call args w)
  create_case_call-keyed args w no_json named closed =
      KeyedEnds-of-Ends args w _ no_json named (create_case_call-Ends args w closed)
