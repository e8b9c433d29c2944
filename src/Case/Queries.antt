-- ===== src/Case/Queries.antt =====
-- The statements of llm-ops-agent/db/sqlc/ops_case.sql.go, as changes of the tables.
-- `Postgres` is what the server adds: which texts a JSONB column takes and how it stores them, the
-- next random UUID, the clock, and the rows that other transactions hold locked.
pub mod Results
use xscope_hub.Prelude.{
  ℕ, suc, zero, ◌+◌, Bytes, codes, Bool, true, false, ◌&&◌, not, Option, none, some, List, [], ◌∷◌,
  ◌++◌, map, Outcome, ok, err, if◌then◌else◌, ◌==◌, leb, same, ℤ, Time, take,
}
use xscope_hub.Case.Tables.{
  OpsCase, CaseTimeline, Outbox, Idempotency, Db, find_case, find_idempotency,
}
use xscope_hub.Case.Session.{RepoError, no_rows, failed, Statement}

pub record Postgres : Type 0 where
  pub is_json : Bytes → Bool
  pub to_jsonb : Bytes → Bytes
  pub uuid : ℕ
  pub now : Time
  pub is_locked : ℕ → Bool

pub record CreateCaseParams : Type 0 where
  pub tenant_id : ℤ
  pub title : Bytes
  pub severity : Bytes
  pub status : Bytes
  pub resource_id : Option ℤ

pub record InsertIdempotencyParams : Type 0 where
  pub idem_key : Bytes
  pub request : Bytes
  pub response : Bytes
  pub ttl : Option Time

pub record InsertOutboxParams : Type 0 where
  pub aggregate : Option Bytes
  pub aggregate_id : Option Bytes
  pub topic : Option Bytes
  pub payload : Bytes

pub record InsertTimelineParams : Type 0 where
  pub case_id : ℕ
  pub ts : Time
  pub actor : Option Bytes
  pub event : Option Bytes
  pub payload : Bytes

pub record UpdateCaseStatusParams : Type 0 where
  pub case_id : ℕ
  pub status : Bytes
  pub version : ℕ

abbrev pub has_case : ℕ → List OpsCase → Bool
has_case k cs = elim (find_case k cs) [ none ↦ false | some _ ↦ true ]

-- `WHERE case_id = $1 AND version = $3`, applied to every row
unfoldable pub set_status : Time → UpdateCaseStatusParams → List OpsCase → List OpsCase
set_status now p [] = []
set_status now p (c ∷ cs) =
    (if c.case_id == p.case_id && c.version == p.version
      then record c { status = p.status; updated_at = now; version = c.version + 1 }
      else c)
    ∷ set_status now p cs

-- `published = FALSE`, which a NULL does not meet
abbrev pub is_unpublished : Outbox → Bool
is_unpublished r = elim r.published [ some b ↦ not b | none ↦ false ]

-- The unpublished rows that no other transaction holds.
unfoldable pub unpublished : (ℕ → Bool) → List Outbox → List Outbox
unpublished is_locked [] = []
unpublished is_locked (r ∷ rs) =
    let rest = unpublished is_locked rs in
    if is_unpublished r && not (is_locked r.id) then r ∷ rest else rest

-- `ORDER BY id`
unfoldable pub insert_by_id : Outbox → List Outbox → List Outbox
insert_by_id r [] = r ∷ []
insert_by_id r (x ∷ xs) = if leb r.id x.id then r ∷ x ∷ xs else x ∷ insert_by_id r xs

unfoldable pub order_by_id : List Outbox → List Outbox
unfolding insert_by_id
order_by_id [] = []
order_by_id (r ∷ rs) = insert_by_id r (order_by_id rs)

-- `id = ANY($1)`
unfoldable pub is_any : ℕ → List ℕ → Bool
is_any k [] = false
is_any k (j ∷ js) = if k == j then true else is_any k js

unfoldable pub mark_rows : Time → List ℕ → List Outbox → List Outbox
unfolding is_any
mark_rows now ids [] = []
mark_rows now ids (r ∷ rs) =
    (if is_any r.id ids then record r { published = some true; published_at = some now } else r)
    ∷ mark_rows now ids rs

module _ (pg : Postgres) where
  unfoldable pub create_case : CreateCaseParams → Statement OpsCase
  create_case p db =
      let row : OpsCase = record {
        case_id = pg.uuid;
        tenant_id = p.tenant_id;
        title = p.title;
        severity = p.severity;
        status = p.status;
        resource_id = p.resource_id;
        created_at = pg.now;
        updated_at = pg.now;
        labels = codes "{}";
        version = 1;
      } in
      if has_case pg.uuid db.cases
      then err failed
      else ok (row, record db { cases = db.cases ++ row ∷ [] })

  unfoldable pub get_case_for_update : ℕ → Statement OpsCase
  get_case_for_update k db = elim (find_case k db.cases) [
    | none ↦ err no_rows
    | some c ↦ ok (c, db)
  ]

  unfoldable pub get_idempotency : Bytes → Db → Outcome RepoError Idempotency
  get_idempotency k db = elim (find_idempotency k db.idempotency) [
    | none ↦ err no_rows
    | some r ↦ ok r
  ]

  abbrev pub idempotency_row : InsertIdempotencyParams → Idempotency
  idempotency_row p = record {
    idem_key = p.idem_key;
    request = pg.to_jsonb p.request;
    response = pg.to_jsonb p.response;
    created_at = pg.now;
    ttl = p.ttl;
  }

  -- The key is the primary key, and both texts must be JSON.
  unfoldable pub insert_idempotency : InsertIdempotencyParams → Statement (Unit {0})
  insert_idempotency p db = elim (find_idempotency p.idem_key db.idempotency) [
    | some _ ↦ err failed
    | none ↦
        if pg.is_json p.request && pg.is_json p.response
        then ok (tt, record db { idempotency = db.idempotency ++ idempotency_row p ∷ [] })
        else err failed
  ]

  abbrev pub outbox_row : ℕ → InsertOutboxParams → Outbox
  outbox_row id p = record {
    id = id;
    aggregate = p.aggregate;
    aggregate_id = p.aggregate_id;
    topic = p.topic;
    payload = pg.to_jsonb p.payload;
    created_at = pg.now;
    published = some false;
    published_at = none;
  }

  unfoldable pub insert_outbox : InsertOutboxParams → Statement (Unit {0})
  insert_outbox p db =
      if pg.is_json p.payload
      then ok (
        tt,
        record db {
          outbox = db.outbox ++ outbox_row db.next_outbox p ∷ [];
          next_outbox = db.next_outbox + 1;
        },
      )
      else err failed

  abbrev pub timeline_row : ℕ → InsertTimelineParams → CaseTimeline
  timeline_row id p = record {
    id = id;
    case_id = p.case_id;
    ts = p.ts;
    actor = p.actor;
    event = p.event;
    payload = pg.to_jsonb p.payload;
  }

  -- The case must exist, and the payload must be JSON.
  unfoldable pub insert_timeline : InsertTimelineParams → Statement (Unit {0})
  insert_timeline p db =
      if has_case p.case_id db.cases && pg.is_json p.payload
      then ok (
        tt,
        record db {
          timeline = db.timeline ++ timeline_row db.next_timeline p ∷ [];
          next_timeline = db.next_timeline + 1;
        },
      )
      else err failed

  unfoldable pub list_unpublished_outbox : ℕ → Statement (List Outbox)
  unfolding unpublished order_by_id
  list_unpublished_outbox limit db =
      ok (take limit (order_by_id (unpublished pg.is_locked db.outbox)), db)

  unfoldable pub mark_outbox_published : List ℕ → Statement (Unit {0})
  unfolding mark_rows
  mark_outbox_published ids db = ok (tt, record db { outbox = mark_rows pg.now ids db.outbox })

  -- `RETURNING` the row; no row is `ErrNoRows`
  unfoldable pub update_case_status : UpdateCaseStatusParams → Statement OpsCase
  unfolding set_status
  update_case_status p db = elim (find_case p.case_id db.cases) [
    | none ↦ err no_rows
    | some c ↦
        if c.version == p.version
        then ok (
          record c { status = p.status; updated_at = pg.now; version = c.version + 1 },
          record db { cases = set_status pg.now p db.cases },
        )
        else err no_rows
  ]
