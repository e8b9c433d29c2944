-- ===== src/Case/Tables.antt =====
-- The rows of llm-ops-agent/db/sqlc/models.go, and the tables that hold them.
-- A nullable column is an `Option`. A UUID is its 128-bit number. The row structs that the queries
-- return for a case (`CreateCaseRow`, `GetCaseForUpdateRow`, `UpdateCaseStatusRow`) have the fields
-- of `OpsCase`, and are `OpsCase` here. A row's version starts at 1 and counts up.
use xscope_hub.Prelude.{
  ℕ, Bytes, Bool, Option, none, some, List, [], ◌∷◌, if◌then◌else◌, ◌==◌, same, ℤ, Time,
}

pub record OpsCase : Type 0 where
  pub case_id : ℕ
  pub tenant_id : ℤ
  pub title : Bytes
  pub severity : Bytes
  pub status : Bytes
  pub resource_id : Option ℤ
  pub created_at : Time
  pub updated_at : Time
  pub labels : Bytes
  pub version : ℕ

pub record CaseTimeline : Type 0 where
  pub id : ℕ
  pub case_id : ℕ
  pub ts : Time
  pub actor : Option Bytes
  pub event : Option Bytes
  pub payload : Bytes

pub record Outbox : Type 0 where
  pub id : ℕ
  pub aggregate : Option Bytes
  pub aggregate_id : Option Bytes
  pub topic : Option Bytes
  pub payload : Bytes
  pub created_at : Time
  pub published : Option Bool
  pub published_at : Option Time

pub record Idempotency : Type 0 where
  pub idem_key : Bytes
  pub request : Bytes
  pub response : Bytes
  pub created_at : Time
  pub ttl : Option Time

-- The committed contents of the database. `next_timeline` and `next_outbox` are the values that the
-- BIGSERIAL columns take next.
pub record Db : Type 0 where
  pub cases : List OpsCase
  pub timeline : List CaseTimeline
  pub outbox : List Outbox
  pub idempotency : List Idempotency
  pub next_timeline : ℕ
  pub next_outbox : ℕ

unfoldable pub find_case : ℕ → List OpsCase → Option OpsCase
find_case k [] = none
find_case k (c ∷ cs) = if c.case_id == k then some c else find_case k cs

unfoldable pub find_idempotency : Bytes → List Idempotency → Option Idempotency
find_idempotency k [] = none
find_idempotency k (r ∷ rs) = if same r.idem_key k then some r else find_idempotency k rs
