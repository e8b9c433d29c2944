-- ===== src/Case/Session/Refines.antt =====
-- When code over a transaction does what a plain change of the database does.
-- A part of a transaction follows a statement if, started in an open transaction, it either gives
-- the statement's result and leaves the statement's contents in the transaction, or fails and has
-- rolled back; what is committed stays in either case.
use xscope_hub.Prelude.{
  Bool, true, false, Option, none, some, Outcome, ok, err, ◌≡◌, refl, subst, sym, ◌∙◌,
}
use xscope_hub.Case.Tables.{Db}
use xscope_hub.Case.Session.{
  RepoError, failed, no_rows, refused, Tx, World, M, Statement, ◌>>=◌, pure, lift, rollback, exec,
  or_rollback, rolled, after, in_tx, next_fault,
}

abbrev pub live : Db → Option Tx
live db = some (record { db = db; is_aborted = false })

abbrev pub Follows :
    {A : Type 0} → World → Outcome RepoError A × World → Outcome RepoError (A × Db) → Type 0
Follows w (ok a, w') spec =
    (db : Db) × (spec ≡ ok (a, db)) × (w'.tx ≡ live db) × (w'.committed ≡ w.committed)
Follows w (err e, w') spec = (w'.tx ≡ none) × (w'.committed ≡ w.committed)

abbrev pub Refines : {A : Type 0} → M A → Statement A → Type 0
Refines m s = (w : World) (db : Db) → w.tx ≡ live db → Follows w (m w) (s db)

-- One statement after another, as one statement.
abbrev pub bind : {A B : Type 0} → Statement A → (A → Statement B) → Statement B
bind s f db = elim (s db) [ ok (a, db') ↦ f a db' | err e ↦ err e ]

abbrev pub unchanged : {A : Type 0} → Outcome RepoError A → Statement A
unchanged (ok a) db = ok (a, db)
unchanged (err e) db = err e

module _ {A : Type 0} (w : World) (db : Db) where
  after-Follows :
      (w' : World) (r : Outcome RepoError (A × Db))
      → w'.committed ≡ w.committed
      → Follows w (rolled (after (record { db = db; is_aborted = false }) r w')) r
  unfolding rollback
  after-Follows w' (ok (a, db')) same_db = (db', refl, refl, same_db)
  after-Follows w' (err no_rows) same_db = (refl, same_db)
  after-Follows w' (err failed) same_db = (refl, same_db)
  after-Follows w' (err (refused e)) same_db = (refl, same_db)

  in_tx-Follows :
      (w' : World) (fault : Bool) (s : Statement A)
      → w'.committed ≡ w.committed
      → Follows w (rolled (in_tx (live db) fault s w')) (s db)
  unfolding rollback
  in_tx-Follows w' true s same_db = (refl, same_db)
  in_tx-Follows w' false s same_db = after-Follows w' (s db) same_db

-- A statement with its rollback follows what it does to the tables.
pub Refines-exec : {A : Type 0} (s : Statement A) → Refines (or_rollback (exec s)) s
unfolding exec
Refines-exec s w db live_tx =
    let (fault, rest) = next_fault w.faults in
    let w' : World = record w { faults = rest } in
    subst (λ o. Follows w (rolled (in_tx o fault s w')) (s db)) (sym live_tx)
      (in_tx-Follows w db w' fault s refl)

pub Refines-lift :
    {A : Type 0} (r : Outcome RepoError A) → Refines (or_rollback (lift r)) (unchanged r)
unfolding rollback
Refines-lift (ok a) w db live_tx = (db, refl, live_tx, refl)
Refines-lift (err e) w db live_tx = (refl, refl)

pub Refines-pure : {A : Type 0} (a : A) → Refines (pure a) (unchanged (ok a))
Refines-pure a w db live_tx = (db, refl, live_tx, refl)

pub Follows-from :
    {A : Type 0} (w w' : World) (x : Outcome RepoError A × World) (y : Outcome RepoError (A × Db))
    → w'.committed ≡ w.committed
    → Follows w' x y
    → Follows w x y
Follows-from w w' (ok a, v) y e (db, is, tx, same_db) = (db, is, tx, same_db ∙ e)
Follows-from w w' (err x, v) y e (tx, same_db) = (tx, same_db ∙ e)

module _ {A B : Type 0} (f : A → M B) (g : A → Statement B) where
  bind-Follows :
      (w w' : World) (r : Outcome RepoError A) (spec : Outcome RepoError (A × Db))
      → Follows w (r, w') spec
      → ((a : A) → Refines (f a) (g a))
      → Follows w
          (elim r [ ok a ↦ f a w' | err e ↦ (err e, w') ])
          (elim spec [ ok (a, db') ↦ g a db' | err e ↦ err e ])
  bind-Follows w w' (ok a) spec (db, is, tx, same_db) later =
      rw is (Follows-from w w' (f a w') (g a db) same_db (later a w' db tx))
  bind-Follows w w' (err e) spec (tx, same_db) later = (tx, same_db)

-- Following goes through a sequence.
pub Refines-bind :
    {A B : Type 0} (m : M A) (f : A → M B) (s : Statement A) (g : A → Statement B)
    → Refines m s
    → ((a : A) → Refines (f a) (g a))
    → Refines (m >>= f) (bind s g)
Refines-bind m f s g first later w db live_tx =
    bind-Follows f g w (m w).1 (m w).0 (s db) (first w db live_tx) later
