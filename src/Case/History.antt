-- ===== src/Case/History.antt =====
-- What the repository and the publisher leave in the tables over any number of calls, each of which
-- runs its transaction alone.
pub mod Timeline
pub mod Reached
pub mod Spec
pub mod Orderly
pub mod Delivered
pub mod Once
mod Examples
use xscope_hub.Prelude.{
  ℕ, ◌+◌, Bytes, codes, Option, none, some, List, [], ◌∷◌, ◌≡◌, if◌then◌else◌, ◌==◌, map, length,
  same,
}
use xscope_hub.Workflow.State
use xscope_hub.Workflow.Event
use xscope_hub.Workflow.State.{State}
use xscope_hub.Workflow.Event.{Event}
use xscope_hub.Workflow.Decide.{Context}
use xscope_hub.Workflow.Paths.{Run}
use xscope_hub.Case.Tables.{OpsCase, CaseTimeline, Outbox, Db, find_case}

-- The events in a case's timeline, in order.
unfoldable pub events_of : ℕ → List CaseTimeline → List (Option Bytes)
events_of k [] = []
events_of k (t ∷ ts) = if t.case_id == k then t.event ∷ events_of k ts else events_of k ts

abbrev pub event_text : Event × Context → Option Bytes
event_text step = some (Event.to_text step.0)

-- The row of a case is where legal steps lead from NEW, its timeline is its creation and those steps'
-- events, and its version counts them.
pub record Traced (db : Db) (c : OpsCase) : Type 0 where
  pub steps : List (Event × Context)
  pub run : Run State.new steps (State.of_text c.status)
  pub events_are :
      events_of c.case_id db.timeline ≡ some (codes "case_created") ∷ map event_text steps
  pub version_is : c.version ≡ 1 + length steps

abbrev pub aggregate_of : Outbox → Option Bytes
aggregate_of r = r.aggregate_id

-- The rows of the timeline and of the outbox are about the same cases, one by one.
abbrev pub Announced : (ℕ → Bytes) → Db → Type 0
Announced uuid_text db =
    map aggregate_of db.outbox ≡ map (λ (t : CaseTimeline). some (uuid_text t.case_id)) db.timeline

-- How often an id stands among some, of which one may be NULL.
unfoldable pub count_id : Bytes → List (Option Bytes) → ℕ
unfolding same
count_id id [] = 0
count_id id (none ∷ ids) = count_id id ids
count_id id (some i ∷ ids) = let rest = count_id id ids in if same i id then rest + 1 else rest

-- How many rows of the outbox, and how many entries of the timeline, are about a case.
unfoldable pub rows_about : Bytes → List Outbox → ℕ
unfolding count_id
rows_about id rows = count_id id (map aggregate_of rows)

unfoldable pub entries_about : (ℕ → Bytes) → Bytes → List CaseTimeline → ℕ
unfolding count_id
entries_about uuid_text id entries =
    count_id id (map (λ (t : CaseTimeline). some (uuid_text t.case_id)) entries)

pub record History (uuid_text : ℕ → Bytes) (db : Db) : Type 0 where
  pub traced : (k : ℕ) (c : OpsCase) → find_case k db.cases ≡ some c → Traced db c
  pub unknown : (k : ℕ) → find_case k db.cases ≡ none → events_of k db.timeline ≡ []
  pub announced : Announced uuid_text db
