-- ===== src/Case/Publisher.antt =====
-- llm-ops-agent/internal/outbox/publisher.go: one flush of the outbox, and the loop of flushes.
-- The log lines are left out. Publishing takes the next fault, like a call to a server; a message that
-- the client of NATS accepts into its buffer is in `sent`, whether or not it reaches NATS later.
pub mod Delivery
pub mod Drain
pub mod Growth
use xscope_hub.Prelude.{
  Bool, true, false, Outcome, ok, err, ◌++◌, ℕ, Bytes, Option, none, some, List, [], ◌∷◌,
  if◌then◌else◌,
}
use xscope_hub.Case.Tables.{Outbox, Db}
use xscope_hub.Case.Session.{
  World, RepoError, failed, M, Message, ◌>>=◌, ◌>>◌, pure, begin, commit, rollback, exec,
  or_rollback, next_fault,
}
use xscope_hub.Case.Queries.{Postgres, list_unpublished_outbox, mark_outbox_published}

-- `r.Topic.String`, which is "" for NULL
abbrev pub topic_text : Option Bytes → Bytes
topic_text none = []
topic_text (some t) = t

abbrev pub message_of : Outbox → Message
message_of r = (topic_text r.topic, r.payload)

-- `nc.Publish`, for a fault or none: without one the message is in the buffer of the client.
abbrev pub buffered : Bool → Message → World → Outcome RepoError (Unit {0}) × World
buffered true m w = (err failed, w)
buffered false m w = (ok tt, record w { sent = w.sent ++ m ∷ [] })

unfoldable pub publish : Message → M (Unit {0})
publish m w =
    let (fault, rest) = next_fault w.faults in buffered fault m (record w { faults = rest })

-- `for _, r := range rows`, with the ids of the rows
unfoldable pub publish_all : List Outbox → M (List ℕ)
unfolding publish rollback
publish_all [] = pure []
publish_all (r ∷ rs) = do
  or_rollback (publish (message_of r))
  ids ← publish_all rs
  pure (r.id ∷ ids)

-- `nc.Flush`, whose error is dropped: it may fail, and then what is in the buffer may never reach NATS.
abbrev pub nc_flush : World → World
nc_flush w = record w { faults = (next_fault w.faults).1 }

-- The commit, and `nc.Flush` whether or not it fails.
unfoldable pub commit_and_flush : M (Unit {0})
unfolding commit
commit_and_flush w = let (o, w') = commit w in (o, nc_flush w')

module _ (pg : Postgres) (others : Db → Db) where
  -- With no row: the rollback and the return.
  unfoldable pub flush_rows : List Outbox → M (Unit {0})
  unfolding publish_all exec mark_outbox_published rollback commit_and_flush
  flush_rows [] w = (ok tt, rollback w)
  flush_rows (r ∷ rs) w =
      (do
        ids ← publish_all (r ∷ rs)
        or_rollback (exec (mark_outbox_published pg ids))
        commit_and_flush)
        w

  -- `flush`
  unfoldable pub flush : M (Unit {0})
  unfolding begin exec list_unpublished_outbox flush_rows rollback
  flush = do
    begin others
    rows ← or_rollback (exec (list_unpublished_outbox pg 10))
    flush_rows rows

-- What `Run` waits for: the end of its context, or the ticker, with the server at that time and what
-- other callers commit before the flush.
pub data Wake : Type 0 where
  done : Wake
  tick : Postgres → (Db → Db) → Wake

-- `Run`, for what it wakes up for; the result of a flush is dropped.
unfoldable pub run : List Wake → World → World
unfolding flush
run [] w = w
run (done ∷ wakes) w = w
run (tick pg others ∷ wakes) w = run wakes (flush pg others w).1
