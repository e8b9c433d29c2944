-- ===== src/Case/Session/Dropped.antt =====
-- A statement whose error the source drops: if it failed, the server has given the transaction up,
-- so the next statement fails and the pair is still all or nothing.
use xscope_hub.Prelude.{
  Bool, true, false, Option, some, [], Outcome, ok, err, ◌≡◌, refl, sym, subst, ◌⊎◌, inl, inr,
}
use xscope_hub.Case.Tables.{Db}
use xscope_hub.Case.Session.{
  RepoError, failed, no_rows, refused, Tx, World, M, Statement, ◌>>◌, exec, in_tx, after,
  next_fault, rollback, rolled, or_rollback,
}
use xscope_hub.Case.Session.Refines.{live, bind, Follows, Refines, Refines-exec, Follows-from}
use xscope_hub.Case.Session.Total.{Runs, RunsTo, Runs-exec, calm_fault, calm_world, runs_from}
use xscope_hub.Case.Session.Implements.{Implements}

unfoldable pub ignore : {A : Type 0} → M A → M (Unit {0})
ignore m w = (ok tt, (m w).1)

-- The transaction has been given up.
abbrev IsAborted : World → Type 0
IsAborted w = (t : Tx) × (w.tx ≡ some t) × (t.is_aborted ≡ true)

aborted_tx :
    {B : Type 0} (w v : World) (t : Tx) (o : Option Tx) (fault : Bool) (s : Statement B)
    (spec : Outcome RepoError (B × Db))
    → o ≡ some t
    → t.is_aborted ≡ true
    → v.committed ≡ w.committed
    → Follows w (rolled (in_tx o fault s v)) spec
unfolding rollback
aborted_tx w v t o fault s spec open_tx dead same_db = rw (open_tx, dead) (refl, same_db)

-- A statement whose errors all come from the server.
abbrev pub OnlyFails : Statement (Unit {0}) → Type 0
OnlyFails s = (db : Db) (e : RepoError) → s db ≡ err e → e ≡ failed

-- The world after a statement: it was carried out, or the transaction has been given up.
abbrev Left : World → Outcome RepoError (Unit {0} × Db) → World → Type 0
Left w spec v =
    ((db : Db) × (spec ≡ ok (tt, db)) × (v.tx ≡ live db) × (v.committed ≡ w.committed))
    ⊎ (IsAborted v × (v.committed ≡ w.committed))

after-Left :
    (w v : World) (db : Db) (r : Outcome RepoError (Unit {0} × Db))
    → ((e : RepoError) → r ≡ err e → e ≡ failed)
    → v.committed ≡ w.committed
    → Left w r (after (record { db = db; is_aborted = false }) r v).1
after-Left w v db (ok (_, db')) only same_db = inl (db', refl, refl, same_db)
after-Left w v db (err no_rows) only same_db = cc (only no_rows refl)
after-Left w v db (err failed) only same_db =
    inr ((record { db = db; is_aborted = true }, refl, refl), same_db)
after-Left w v db (err (refused e)) only same_db = cc (only (refused e) refl)

in_tx-Left :
    (w v : World) (db : Db) (fault : Bool) (s : Statement (Unit {0}))
    → OnlyFails s
    → v.committed ≡ w.committed
    → Left w (s db) (in_tx (live db) fault s v).1
in_tx-Left w v db true s only same_db =
    inr ((record { db = db; is_aborted = true }, refl, refl), same_db)
in_tx-Left w v db false s only same_db = after-Left w v db (s db) (only db) same_db

exec-Left :
    (w : World) (db : Db) (s : Statement (Unit {0}))
    → OnlyFails s
    → w.tx ≡ live db
    → Left w (s db) (exec s w).1
unfolding exec
exec-Left w db s only live_tx =
    let (fault, rest) = next_fault w.faults in
    let v : World = record w { faults = rest } in
    subst (λ o. Left w (s db) (in_tx o fault s v).1) (sym live_tx)
      (in_tx-Left w v db fault s only refl)

module _ {B : Type 0} (s : Statement (Unit {0})) (t : Statement B) (only : OnlyFails s) where
  next-Follows :
      (w v : World) (db : Db)
      → Left w (s db) v
      → Follows w (or_rollback (exec t) v) (bind s (λ _. t) db)
  unfolding exec
  next-Follows w v db (inl (db', done, live_tx, same_db)) =
      rw (done, bind)
        (Follows-from w v (or_rollback (exec t) v) (t db') same_db (Refines-exec t v db' live_tx))
  next-Follows w v db (inr ((gone, open_tx, dead), same_db)) =
      let (fault, rest) = next_fault v.faults in
      aborted_tx w (record v { faults = rest }) gone v.tx fault t (bind s (λ _. t) db) open_tx dead
        same_db

  dropped_Refines : Refines (ignore (exec s) >> or_rollback (exec t)) (bind s (λ _. t))
  unfolding ignore
  dropped_Refines w db live_tx = next-Follows w (exec s w).1 db (exec-Left w db s only live_tx)

  calm_exec :
      (w v : World) (db : Db) (o : Option Tx) (fault : Bool)
      → o ≡ live db
      → fault ≡ false
      → v ≡ w
      → in_tx o fault s v ≡ after (record { db = db; is_aborted = false }) (s db) w
  calm_exec w v db o fault is_live no_fault e = rw (is_live, no_fault, e)

  next_runs :
      (w : World) (db : Db) (r : Outcome RepoError (Unit {0} × Db))
      → w.faults ≡ []
      → ((e : RepoError) → r ≡ err e → e ≡ failed)
      → RunsTo w
          (or_rollback (exec t) (after (record { db = db; is_aborted = false }) r w).1)
          (elim r [ ok (_, db') ↦ t db' | err e ↦ err e ])
  unfolding exec
  next_runs w db (ok (_, db')) calm only =
      let v : World = record w { tx = live db' } in
      runs_from w (live db') (or_rollback (exec t) v) (t db') (Runs-exec t v db' refl calm)
  next_runs w db (err no_rows) calm only = cc (only no_rows refl)
  next_runs w db (err failed) calm only = refl
  next_runs w db (err (refused e)) calm only = cc (only (refused e) refl)

  dropped_Runs : Runs (ignore (exec s) >> or_rollback (exec t)) (bind s (λ _. t))
  unfolding ignore exec
  dropped_Runs w db live_tx calm =
      let v : World = record w { faults = (next_fault w.faults).1 } in
      subst (λ z. RunsTo w (or_rollback (exec t) z.1) (bind s (λ _. t) db))
        (sym (
          calm_exec w v db w.tx (next_fault w.faults).0 live_tx (calm_fault calm)
            (calm_world w calm)))
        (next_runs w db (s db) calm (only db))

  -- With the first error dropped, the pair still does both statements or fails.
  pub Implements-dropped : Implements (ignore (exec s) >> or_rollback (exec t)) (bind s (λ _. t))
  Implements-dropped = (dropped_Refines, dropped_Runs)
