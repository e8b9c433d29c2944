-- ===== src/Case/Publisher/Delivery.antt =====
-- What one flush does to the outbox and to the messages given to the client of NATS.
use xscope_hub.Prelude.{
  ℕ, Bool, true, false, Option, none, some, List, [], ◌∷◌, ◌++◌, map, take, Outcome, ok, err, ◌≡◌,
  refl, sym, subst, ap, ◌∙◌, append_assoc, append-nil, if◌then◌else◌,
}
use xscope_hub.Case.Tables.{Outbox, Db}
use xscope_hub.Case.Session.{
  RepoError, no_rows, failed, refused, Tx, World, Message, Statement, ◌>>=◌, ◌>>◌, pure, begin,
  begun, commit, commit_tx, rollback, exec, in_tx, after, rolled, or_rollback, next_fault,
}
use xscope_hub.Case.Session.Refines.{live, Follows, Refines-exec}
use xscope_hub.Case.Queries.{
  Postgres, list_unpublished_outbox, mark_outbox_published, mark_rows, unpublished, order_by_id,
}
use xscope_hub.Case.Publisher.{
  message_of, buffered, publish, publish_all, flush_rows, flush, nc_flush, commit_and_flush,
}

abbrev row_id : Outbox → ℕ
row_id r = r.id

-- All of the rows are sent, in order; or an error, after which nothing is open.
abbrev Sent : List Outbox → World → Outcome RepoError (List ℕ) × World → Type 0
Sent rs w (ok ids, w') =
    (ids ≡ map row_id rs)
    × (w'.tx ≡ w.tx)
    × (w'.committed ≡ w.committed)
    × (w'.sent ≡ w.sent ++ map message_of rs)
Sent rs w (err e, w') = (w'.tx ≡ none) × (w'.committed ≡ w.committed)

publish_more :
    (r : Outbox) (rs : List Outbox) (w : World) (fs : List Bool)
    (x : Outcome RepoError (List ℕ) × World)
    → Sent rs (record w { faults = fs; sent = w.sent ++ message_of r ∷ [] }) x
    → Sent
        (r ∷ rs)
        w
        (let (o, v) = x in elim o [ ok ids ↦ (ok (r.id ∷ ids), v) | err e ↦ (err e, v) ])
publish_more r rs w fs (ok ids, v) (ids_are, tx, same_db, sent) = (
  ap (λ l. r.id ∷ l) ids_are,
  tx,
  same_db,
  sent ∙ append_assoc w.sent (message_of r ∷ []) (map message_of rs),
)
publish_more r rs w fs (err e, v) h = h

publish_one :
    (b : Bool) (r : Outbox) (rs : List Outbox) (w : World) (fs : List Bool)
    → ((v : World) → Sent rs v (publish_all rs v))
    → Sent (r ∷ rs) w (
        let (o, v) = rolled (buffered b (message_of r) (record w { faults = fs })) in
        elim o [ ok _ ↦ (publish_all rs >>= λ ids. pure (r.id ∷ ids)) v | err e ↦ (err e, v) ])
unfolding rollback
publish_one true r rs w fs later = (refl, refl)
publish_one false r rs w fs later =
    let v : World = record w { faults = fs; sent = w.sent ++ message_of r ∷ [] } in
    publish_more r rs w fs (publish_all rs v) (later v)

publish_all-Sent : (rs : List Outbox) (w : World) → Sent rs w (publish_all rs w)
unfolding publish_all publish
publish_all-Sent [] w = (refl, refl, refl, sym (append-nil w.sent))
publish_all-Sent (r ∷ rs) w =
    let (fault, rest) = next_fault w.faults in publish_one fault r rs w rest (publish_all-Sent rs)

-- The transaction is over: with `after` committed and `sent` sent, or with an error and nothing
-- committed.
abbrev pub Ended : Db → Db → List Message → Outcome RepoError (Unit {0}) × World → Type 0
Ended start after_it sent (ok _, w') = (w'.tx ≡ none) × (w'.committed ≡ after_it) × (w'.sent ≡ sent)
Ended start after_it sent (err e, w') = (w'.tx ≡ none) × (w'.committed ≡ start)

commit-Ended :
    (fault : Bool) (o : Option Tx) (start db : Db) (v : World)
    → o ≡ live db
    → v.committed ≡ start
    → Ended start db v.sent (commit_tx o fault v)
commit-Ended fault o start db v is same_db =
    subst (λ z. Ended start db v.sent (commit_tx z fault v)) (sym is) (by_fault fault)
  where
    by_fault : (b : Bool) → Ended start db v.sent (commit_tx (live db) b v)
    by_fault true = (refl, same_db)
    by_fault false = (refl, refl, refl)

after-sent :
    {A : Type 0} (t : Tx) (r : Outcome RepoError (A × Db)) (w : World)
    → (rolled (after t r w)).1.sent ≡ w.sent
unfolding rollback
after-sent t (ok (a, db)) w = refl
after-sent t (err no_rows) w = refl
after-sent t (err failed) w = refl
after-sent t (err (refused e)) w = refl

in_tx-sent :
    {A : Type 0} (o : Option Tx) (fault : Bool) (s : Statement A) (w : World)
    → (rolled (in_tx o fault s w)).1.sent ≡ w.sent
unfolding rollback
in_tx-sent none fault s w = refl
in_tx-sent (some t) fault s w = by_tests t.is_aborted fault
  where
    by_tests :
        (b c : Bool)
        → (rolled (
            if b
            then (err failed, w)
            else if c
            then (err failed, record w { tx = some (record t { is_aborted = true }) })
            else after t (s t.db) w)).1.sent
          ≡ w.sent
    by_tests true c = refl
    by_tests false true = refl
    by_tests false false = after-sent t (s t.db) w

-- A statement sends nothing.
pub exec-sent :
    {A : Type 0} (s : Statement A) (w : World) → (or_rollback (exec s) w).1.sent ≡ w.sent
unfolding exec
exec-sent s w =
    let (fault, rest) = next_fault w.faults in in_tx-sent w.tx fault s (record w { faults = rest })

flushed-Ended :
    (start db : Db) (sent : List Message) (x : Outcome RepoError (Unit {0}) × World)
    → Ended start db sent x
    → Ended start db sent (x.0, nc_flush x.1)
flushed-Ended start db sent (ok u, v) h = h
flushed-Ended start db sent (err e, v) h = h

marked-Ended :
    (w : World) (db' : Db) (sent : List Message) (x : Outcome RepoError (Unit {0}) × World)
    → Follows w x (ok (tt, db'))
    → x.1.sent ≡ sent
    → Ended w.committed db' sent
        (let (o, v) = x in elim o [ ok _ ↦ commit_and_flush v | err e ↦ (err e, v) ])
unfolding commit_and_flush commit
marked-Ended w db' sent (ok u, v) (db, is, live_tx, same_db) same_sent =
    let (fault, rest) = next_fault v.faults in
    let same_after : db ≡ db' = cc in
    let done = commit_tx v.tx fault (record v { faults = rest }) in
    subst (λ s. Ended w.committed db' s (done.0, nc_flush done.1)) same_sent
      (flushed-Ended w.committed db' v.sent done (
        commit-Ended fault v.tx w.committed db' (record v { faults = rest })
          (live_tx ∙ ap live same_after) same_db))
marked-Ended w db' sent (err e, v) h same_sent = h

module _ (pg : Postgres) (others : Db → Db) where
  -- The database in which the rows of a batch are marked.
  abbrev pub marked : List Outbox → Db → Db
  marked rs db = record db { outbox = mark_rows pg.now (map row_id rs) db.outbox }

  mark-Ended :
      (w v : World) (rs : List Outbox) (ids : List ℕ)
      → ids ≡ map row_id rs
      → v.tx ≡ live w.committed
      → v.committed ≡ w.committed
      → Ended w.committed
          (marked rs w.committed)
          v.sent
          ((or_rollback (exec (mark_outbox_published pg ids)) >> commit_and_flush) v)
  unfolding mark_outbox_published
  mark-Ended w v rs ids ids_are live_tx same_db =
      let m = or_rollback (exec (mark_outbox_published pg ids)) in
      let follows = Refines-exec (mark_outbox_published pg ids) v w.committed live_tx in
      subst (λ d. Ended d (marked rs w.committed) v.sent ((m >> commit_and_flush) v)) same_db
        (subst
          (λ l.
            Ended v.committed
              (record w.committed { outbox = mark_rows pg.now l w.committed.outbox }) v.sent
              ((m >> commit_and_flush) v))
          ids_are
          (marked-Ended v _ v.sent (m v) follows (exec-sent (mark_outbox_published pg ids) v)))

  sent-Ended :
      (w : World) (rs : List Outbox) (x : Outcome RepoError (List ℕ) × World)
      → w.tx ≡ live w.committed
      → Sent rs w x
      → Ended w.committed (marked rs w.committed) (w.sent ++ map message_of rs) (
          let (o, v) = x in
          elim o [
            | ok ids ↦ (or_rollback (exec (mark_outbox_published pg ids)) >> commit_and_flush) v
            | err e ↦ (err e, v)
          ])
  sent-Ended w rs (ok ids, v) live_tx (ids_are, tx, same_db, sent) =
      subst
        (λ s.
          Ended w.committed (marked rs w.committed) s
            ((or_rollback (exec (mark_outbox_published pg ids)) >> commit_and_flush) v))
        sent (mark-Ended w v rs ids ids_are (tx ∙ live_tx) same_db)
  sent-Ended w rs (err e, v) live_tx h = h

  mark_none : (os : List Outbox) → mark_rows pg.now [] os ≡ os
  unfolding mark_rows
  mark_none [] = refl
  mark_none (o ∷ os) = ap (λ l. o ∷ l) (mark_none os)

  rows-Ended :
      (rs : List Outbox) (w : World)
      → w.tx ≡ live w.committed
      → Ended w.committed
          (marked rs w.committed)
          (w.sent ++ map message_of rs)
          (flush_rows pg others rs w)
  unfolding flush_rows rollback
  rows-Ended [] w live_tx = (
    refl,
    λ i. record w.committed { outbox = sym (mark_none w.committed.outbox) i },
    sym (append-nil w.sent),
  )
  rows-Ended (r ∷ rs) w live_tx =
      sent-Ended w (r ∷ rs) (publish_all (r ∷ rs) w) live_tx (publish_all-Sent (r ∷ rs) w)

  -- The rows that a flush takes: the first ten, by id, that are unpublished and not locked.
  abbrev pub batch : Db → List Outbox
  batch db = take 10 (order_by_id (unpublished pg.is_locked db.outbox))

  abbrev pub FlushEnded : World → Db → Outcome RepoError (Unit {0}) × World → Type 0
  FlushEnded w db x = Ended db (marked (batch db) db) (w.sent ++ map message_of (batch db)) x

  listed-Ended :
      (w : World) (db : Db) (x : Outcome RepoError (List Outbox) × World)
      → w.committed ≡ db
      → Follows w x (list_unpublished_outbox pg 10 db)
      → x.1.sent ≡ w.sent
      → FlushEnded w db
          (let (o, v) = x in elim o [ ok rows ↦ flush_rows pg others rows v | err e ↦ (err e, v) ])
  unfolding list_unpublished_outbox
  listed-Ended w db (ok rows, v) at_start (db', is, live_tx, same_db) same_sent =
      let rows_are : rows ≡ batch db = cc in
      let same_tx : db' ≡ db = cc in
      let committed_is = same_db ∙ at_start in
      let ended = rows-Ended rows v (live_tx ∙ ap live (same_tx ∙ sym committed_is)) in
      subst
        (λ d.
          Ended d (marked (batch db) d) (w.sent ++ map message_of (batch db))
            (flush_rows pg others rows v))
        committed_is
        (subst
          (λ s.
            Ended v.committed (marked (batch db) v.committed) (s ++ map message_of (batch db))
              (flush_rows pg others rows v))
          same_sent
          (subst
            (λ l.
              Ended v.committed (marked l v.committed) (v.sent ++ map message_of l)
                (flush_rows pg others rows v))
            rows_are ended))
  listed-Ended w db (err e, v) at_start (tx, same_db) same_sent = (tx, same_db ∙ at_start)

  begun-Ended :
      (fault : Bool) (w : World)
      → w.tx ≡ none
      → FlushEnded w w.committed (
          let (o, v) = begun fault w in
          elim o [
            | ok _ ↦ (or_rollback (exec (list_unpublished_outbox pg 10)) >>= flush_rows pg others) v
            | err e ↦ (err e, v)
          ])
  begun-Ended true w closed = (closed, refl)
  begun-Ended false w closed =
      let v : World = record w { tx = live w.committed } in
      let s = list_unpublished_outbox pg 10 in
      listed-Ended v w.committed (or_rollback (exec s) v) refl (Refines-exec s v w.committed refl)
        (exec-sent s v)

  -- Whatever calls to the servers fail and whatever others commit before it: a flush that begins
  -- outside a transaction leaves none open. With an error nothing is marked. Without one, the first
  -- ten rows by id that are unpublished and not locked were given to `nc.Publish`, in that order and
  -- nothing else, and the rows with their ids, and no others, are marked as published.
  pub flush-Ended :
      (w : World) → w.tx ≡ none → FlushEnded w (others w.committed) (flush pg others w)
  unfolding flush begin
  flush-Ended w closed =
      let (fault, rest) = next_fault w.faults in
      begun-Ended fault (record w { committed = others w.committed; faults = rest }) closed
