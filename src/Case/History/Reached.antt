-- ===== src/Case/History/Reached.antt =====
-- Every database that calls of the repository and flushes of the publisher reach has a history.
use xscope_hub.Prelude.{
  Bytes, ap, ℕ, none, some, List, [], ◌∷◌, Outcome, ok, err, ◌≡◌, refl, sym, subst, ◌∙◌, map, inl,
  inr, Time, Bool-cases,
}
use xscope_hub.Case.Tables.{OpsCase, Outbox, Db, find_case}
use xscope_hub.Case.Session.{RepoError, World, Message}
use xscope_hub.Case.Queries.{Postgres, is_any, mark_rows}
use xscope_hub.Case.Repository.{
  Codec, Call, TransitionArgs, CreateCaseArgs, transition_call, create_case_call,
}
use xscope_hub.Case.Repository.Calls.{Ends, transition_call-Ends}
use xscope_hub.Case.Repository.Creations.{CreationEnds, create_case_call-Ends}
use xscope_hub.Case.Publisher.{flush}
use xscope_hub.Case.Publisher.Delivery.{Ended, flush-Ended, marked, batch}
use xscope_hub.Case.History.{
  events_of, Traced, aggregate_of, History, count_id, rows_about, entries_about,
}
use xscope_hub.Case.History.Timeline.Moving.{Moved-History}
use xscope_hub.Case.History.Timeline.Opening.{Created-History}

abbrev pub empty_db : Db
empty_db = record {
  cases = [];
  timeline = [];
  outbox = [];
  idempotency = [];
  next_timeline = 1;
  next_outbox = 1;
}

-- The committed contents that any number of calls leave in a new database. A call may fail in any
-- way, and before its transaction begins others may have brought the database to anything that they
-- can reach.
pub data Reachable (codec : Codec) : Db → Type 0 where
  at_start : Reachable codec empty_db
  by_creation :
      (call : Call) (args : CreateCaseArgs) (w : World)
      → w.tx ≡ none
      → Reachable codec w.committed
      → Reachable codec (call.others w.committed)
      → Reachable codec (create_case_call codec call args w).1.committed
  by_transition :
      (call : Call) (args : TransitionArgs) (w : World)
      → w.tx ≡ none
      → Reachable codec w.committed
      → Reachable codec (call.others w.committed)
      → Reachable codec (transition_call codec call args w).1.committed
  by_flush :
      (pg : Postgres) (others : Db → Db) (w : World)
      → w.tx ≡ none
      → Reachable codec (others w.committed)
      → Reachable codec (flush pg others w).1.committed

module _ (codec : Codec) where
  empty-History : History codec.uuid_text empty_db
  unfolding find_case events_of
  empty-History = record { traced = λ k c found. cc found; unknown = λ k _. refl; announced = refl }

  creation-History :
      (call : Call) (args : CreateCaseArgs) (w : World) (r : Outcome RepoError OpsCase × World)
      → History codec.uuid_text w.committed
      → History codec.uuid_text (call.others w.committed)
      → CreationEnds codec call args w r
      → History codec.uuid_text r.1.committed
  creation-History call args w (ok row, w') h k (_, inl (_, same)) =
      subst (History codec.uuid_text) (sym same) h
  creation-History call args w (ok row, w') h k (_, inr made) =
      Created-History codec call args _ row _ made k
  creation-History call args w (err e, w') h k (_, same) =
      subst (History codec.uuid_text) (sym same) k

  transition-History :
      (call : Call) (args : TransitionArgs) (w : World) (r : Outcome RepoError OpsCase × World)
      → History codec.uuid_text w.committed
      → History codec.uuid_text (call.others w.committed)
      → Ends codec call args w r
      → History codec.uuid_text r.1.committed
  transition-History call args w (ok row, w') h k (_, inl (_, same)) =
      subst (History codec.uuid_text) (sym same) h
  transition-History call args w (ok row, w') h k (_, inr moved) =
      Moved-History codec call args _ row _ moved k
  transition-History call args w (err e, w') h k (_, same) =
      subst (History codec.uuid_text) (sym same) k

  mark_rows-aggregates :
      (now : Time) (ids : List ℕ) (rs : List Outbox)
      → map aggregate_of (mark_rows now ids rs) ≡ map aggregate_of rs
  unfolding mark_rows
  mark_rows-aggregates now ids [] = refl
  mark_rows-aggregates now ids (r ∷ rs) = elim (Bool-cases (is_any r.id ids)) [
    | inl hit ↦ rw (hit, mark_rows-aggregates now ids rs) refl
    | inr miss ↦ rw (miss, mark_rows-aggregates now ids rs) refl
  ]

  marked-History :
      (pg : Postgres) (others : Db → Db) (rs : List Outbox) (db : Db)
      → History codec.uuid_text db
      → History codec.uuid_text (marked pg others rs db)
  marked-History pg others rs db h = record {
    traced = λ k c found.
        let t = h.traced k c found in
        record {
          steps = t.steps;
          run = t.run;
          events_are = t.events_are;
          version_is = t.version_is;
        };
    unknown = h.unknown;
    announced = mark_rows-aggregates pg.now _ db.outbox ∙ h.announced;
  }

  flush-History :
      (pg : Postgres) (others : Db → Db) (db : Db) (sent : List Message)
      (r : Outcome RepoError (Unit {0}) × World)
      → History codec.uuid_text db
      → Ended db (marked pg others (batch pg others db) db) sent r
      → History codec.uuid_text r.1.committed
  flush-History pg others db sent (ok u, w') h (_, same, _) =
      subst (History codec.uuid_text) (sym same)
        (marked-History pg others (batch pg others db) db h)
  flush-History pg others db sent (err e, w') h (_, same) =
      subst (History codec.uuid_text) (sym same) h

  Reachable-History : {db : Db} → Reachable codec db → History codec.uuid_text db
  Reachable-History at_start = empty-History
  Reachable-History (by_creation call args w closed before others) =
      creation-History call args w (create_case_call codec call args w) (Reachable-History before)
        (Reachable-History others) (create_case_call-Ends codec call args w closed)
  Reachable-History (by_transition call args w closed before others) =
      transition-History call args w (transition_call codec call args w) (Reachable-History before)
        (Reachable-History others) (transition_call-Ends codec call args w closed)
  Reachable-History (by_flush pg others w closed before) =
      flush-History pg others (others w.committed) _ (flush pg others w) (Reachable-History before)
        (flush-Ended pg others w closed)

  -- In every database that calls of CreateCase and Transition and flushes of the publisher reach from
  -- an empty one, whatever calls to the servers fail and however they interleave before their
  -- transactions: each case's status is where legal steps lead from NEW, its timeline is its creation
  -- and then the events of those steps in order, and its version is one more than their number.
  pub Reachable-Traced :
      (db : Db)
      → Reachable codec db
      → (k : ℕ) (c : OpsCase) → find_case k db.cases ≡ some c
      → Traced db c
  Reachable-Traced db reached k c found = (Reachable-History reached).traced k c found

  -- In every such database as many rows of the outbox are about a case as entries of the timeline,
  -- for whatever text of an id.
  pub Reachable-Announced :
      (db : Db)
      → Reachable codec db
      → (id : Bytes) → rows_about id db.outbox ≡ entries_about codec.uuid_text id db.timeline
  unfolding rows_about entries_about
  Reachable-Announced db reached id = ap (count_id id) (Reachable-History reached).announced
