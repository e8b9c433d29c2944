-- ===== src/Case/Queries/Results.antt =====
-- What a statement that succeeded has found and written.
use xscope_hub.Prelude.{
  ℕ, ◌+◌, true, false, none, some, [], ◌∷◌, ◌++◌, Outcome, ok, err, ◌≡◌, arith, refl, sym,
}
use xscope_hub.Case.Tables.{OpsCase, Db, find_case, find_idempotency}
use xscope_hub.Case.Session.{RepoError, Statement}
use xscope_hub.Case.Session.Refines.{bind}
use xscope_hub.Case.Queries.{
  Postgres, UpdateCaseStatusParams, InsertTimelineParams, InsertOutboxParams, CreateCaseParams,
  InsertIdempotencyParams, create_case, get_case_for_update, update_case_status, insert_timeline,
  insert_outbox, insert_idempotency, set_status, timeline_row, outbox_row, idempotency_row,
  has_case,
}

bound-eq-ok :
    {A B : Type 0} (r : Outcome RepoError (A × Db)) (g : A → Statement B) {b : B} {db' : Db}
    → Outcome.ok (b, db') ≡ (elim r [ ok (a, mid) ↦ g a mid | err e ↦ err e ])
    → (a : A) × (mid : Db) × (r ≡ ok (a, mid)) × (g a mid ≡ ok (b, db'))
bound-eq-ok (ok (a, mid)) g h = (a, mid, refl, sym h)
bound-eq-ok (err x) g h = cc

pub bind-eq-ok :
    {A B : Type 0} (s : Statement A) (g : A → Statement B) (db : Db) {b : B} {db' : Db}
    → bind s g db ≡ ok (b, db')
    → (a : A) × (mid : Db) × (s db ≡ ok (a, mid)) × (g a mid ≡ ok (b, db'))
bind-eq-ok s g db h = bound-eq-ok (s db) g (sym h)

pub bind_ok :
    {A B : Type 0} (s : Statement A) (g : A → Statement B) (db : Db) {a : A} {mid : Db}
    → s db ≡ ok (a, mid)
    → bind s g db ≡ g a mid
bind_ok s g db e = rw (e, bind)

pub bind_err :
    {A B : Type 0} (s : Statement A) (g : A → Statement B) (db : Db) {e : RepoError}
    → s db ≡ err e
    → bind s g db ≡ err e
bind_err s g db e = rw (e, bind)

module _ (pg : Postgres) where
  pub get_case-eq-ok :
      (k : ℕ) (db : Db) {c : OpsCase} {db' : Db}
      → get_case_for_update pg k db ≡ ok (c, db')
      → (find_case k db.cases ≡ some c) × (db' ≡ db)
  unfolding get_case_for_update
  get_case-eq-ok k db h = ground arith

  pub update-eq-ok :
      (p : UpdateCaseStatusParams) (db : Db) {c c' : OpsCase} {db' : Db}
      → find_case p.case_id db.cases ≡ some c
      → update_case_status pg p db ≡ ok (c', db')
      → (c.version ≡ p.version)
        × (c' ≡ record c { status = p.status; updated_at = pg.now; version = c.version + 1 })
        × (db' ≡ record db { cases = set_status pg.now p db.cases })
  unfolding update_case_status
  update-eq-ok p db found h = ground arith

  pub insert_timeline-eq-ok :
      (p : InsertTimelineParams) (db : Db) {u : Unit {0}} {db' : Db}
      → insert_timeline pg p db ≡ ok (u, db')
      → db' ≡ record db {
        timeline = db.timeline ++ timeline_row pg db.next_timeline p ∷ [];
        next_timeline = db.next_timeline + 1;
      }
  unfolding insert_timeline
  insert_timeline-eq-ok p db h = ground arith

  pub insert_outbox-eq-ok :
      (p : InsertOutboxParams) (db : Db) {u : Unit {0}} {db' : Db}
      → insert_outbox pg p db ≡ ok (u, db')
      → db' ≡ record db {
        outbox = db.outbox ++ outbox_row pg db.next_outbox p ∷ [];
        next_outbox = db.next_outbox + 1;
      }
  unfolding insert_outbox
  insert_outbox-eq-ok p db h = ground arith

  pub insert_idempotency-eq-ok :
      (p : InsertIdempotencyParams) (db : Db) {u : Unit {0}} {db' : Db}
      → insert_idempotency pg p db ≡ ok (u, db')
      → (find_idempotency p.idem_key db.idempotency ≡ none)
        × (pg.is_json p.request ≡ true)
        × (db' ≡ record db { idempotency = db.idempotency ++ idempotency_row pg p ∷ [] })
  unfolding insert_idempotency
  insert_idempotency-eq-ok p db h = ground arith

  pub create_case-eq-ok :
      (p : CreateCaseParams) (db : Db) {c : OpsCase} {db' : Db}
      → create_case pg p db ≡ ok (c, db')
      → (has_case pg.uuid db.cases ≡ false)
        × (c.case_id ≡ pg.uuid)
        × (c.status ≡ p.status)
        × (c.title ≡ p.title)
        × (c.tenant_id ≡ p.tenant_id)
        × (c.version ≡ 1)
        × (db' ≡ record db { cases = db.cases ++ c ∷ [] })
  unfolding create_case
  create_case-eq-ok p db h = ground arith
