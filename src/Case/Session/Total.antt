-- ===== src/Case/Session/Total.antt =====
-- What runs where no call to the server fails: every statement that can be carried out is.
use xscope_hub.Prelude.{
  Bool, false, Option, none, List, [], Outcome, ok, err, ◌≡◌, refl, sym, ◌∙◌, ap, subst,
}
use xscope_hub.Case.Tables.{Db}
use xscope_hub.Case.Session.{
  RepoError, failed, no_rows, refused, Tx, World, M, Statement, ◌>>=◌, ◌>>◌, pure, lift, begin,
  begun, commit, commit_tx, next_fault, exec, in_tx, after, rolled, or_rollback,
}
use xscope_hub.Case.Session.Refines.{live, bind, unchanged}
use xscope_hub.Case.Session.Atomic.{transaction}

abbrev pub RunsTo :
    {A : Type 0} → World → Outcome RepoError A × World → Outcome RepoError (A × Db) → Type 0
RunsTo w r (ok (a, db)) = r ≡ (ok a, record w { tx = live db })
RunsTo w r (err e) = r.0 ≡ err e

abbrev pub Runs : {A : Type 0} → M A → Statement A → Type 0
Runs m s = (w : World) (db : Db) → w.tx ≡ live db → w.faults ≡ [] → RunsTo w (m w) (s db)

-- With no fault to come, taking the next one changes nothing.
pub calm_fault : {fs : List Bool} → fs ≡ [] → (next_fault fs).0 ≡ false
calm_fault calm = ap (λ l. (next_fault l).0) calm

calm_rest : {fs : List Bool} → fs ≡ [] → (next_fault fs).1 ≡ fs
calm_rest calm = ap (λ l. (next_fault l).1) calm ∙ sym calm

pub calm_world : (w : World) → w.faults ≡ [] → record w { faults = (next_fault w.faults).1 } ≡ w
calm_world w calm = λ i. record w { faults = calm_rest calm i }

after_runs :
    {A : Type 0} (w : World) (db : Db) (r : Outcome RepoError (A × Db))
    → RunsTo w (rolled (after (record { db = db; is_aborted = false }) r w)) r
after_runs w db (ok (a, db')) = refl
after_runs w db (err no_rows) = refl
after_runs w db (err failed) = refl
after_runs w db (err (refused e)) = refl

in_tx_runs :
    {A : Type 0} (w v : World) (db : Db) (s : Statement A) (o : Option Tx) (fault : Bool)
    → o ≡ live db
    → fault ≡ false
    → v ≡ w
    → RunsTo w (rolled (in_tx o fault s v)) (s db)
in_tx_runs w v db s o fault is_live no_fault e = rw (is_live, no_fault, e) (after_runs w db (s db))

-- A statement with its rollback runs to what it does to the tables.
pub Runs-exec : {A : Type 0} (s : Statement A) → Runs (or_rollback (exec s)) s
unfolding exec
Runs-exec s w db live_tx calm =
    in_tx_runs w (record w { faults = (next_fault w.faults).1 }) db s w.tx (next_fault w.faults).0
      live_tx (calm_fault calm) (calm_world w calm)

pub Runs-lift : {A : Type 0} (r : Outcome RepoError A) → Runs (or_rollback (lift r)) (unchanged r)
Runs-lift (ok a) w db live_tx calm = λ i. (ok a, record w { tx = live_tx i })
Runs-lift (err e) w db live_tx calm = refl

pub Runs-pure : {A : Type 0} (a : A) → Runs (pure a) (unchanged (ok a))
Runs-pure a w db live_tx calm = λ i. (ok a, record w { tx = live_tx i })

pub runs_from :
    {A : Type 0} (w : World) (o : Option Tx) (x : Outcome RepoError A × World)
    (y : Outcome RepoError (A × Db))
    → RunsTo (record w { tx = o }) x y
    → RunsTo w x y
runs_from w o x (ok (a, db)) h = h
runs_from w o x (err e) h = h

module _ {A B : Type 0} (f : A → M B) (g : A → Statement B) where
  bind-Runs :
      (w : World) (r : Outcome RepoError A × World) (spec : Outcome RepoError (A × Db))
      → w.faults ≡ []
      → RunsTo w r spec
      → ((a : A) → Runs (f a) (g a))
      → RunsTo w (◌>>=◌ (λ _. r) f w) (elim spec [ ok (a, db') ↦ g a db' | err e ↦ err e ])
  bind-Runs w r (ok (a, db)) calm e later =
      let v : World = record w { tx = live db } in
      subst (λ z. RunsTo w (◌>>=◌ (λ _. z) f w) (g a db)) (sym e)
        (runs_from w (live db) (f a v) (g a db) (later a v db refl calm))
  bind-Runs w (ok a, w') (err x) calm e later = cc
  bind-Runs w (err y, w') (err x) calm e later = cc

-- Running goes through a sequence.
pub Runs-bind :
    {A B : Type 0} (m : M A) (f : A → M B) (s : Statement A) (g : A → Statement B)
    → Runs m s
    → ((a : A) → Runs (f a) (g a))
    → Runs (m >>= f) (bind s g)
Runs-bind m f s g first later w db live_tx calm =
    bind-Runs f g w (m w) (s db) calm (first w db live_tx calm) later

-- What a transaction comes to.
abbrev pub Commits :
    {A : Type 0} → World → Outcome RepoError A × World → Outcome RepoError (A × Db) → Type 0
Commits w r (ok (a, db)) = r ≡ (ok a, record w { committed = db; tx = none })
Commits w r (err e) = r.0 ≡ err e

commit_runs :
    {A : Type 0} (a : A) (w : World) (db : Db) (o : Option Tx) (fault : Bool) (v : World)
    → o ≡ live db
    → fault ≡ false
    → v ≡ w
    → Commits w (◌>>=◌ (λ _. commit_tx o fault v) (λ _. pure a) w) (ok (a, db))
commit_runs a w db o fault v is_live no_fault e = rw (is_live, no_fault, e)

committing :
    {A : Type 0} (a : A) (w : World) (db : Db)
    → w.faults ≡ []
    → Commits w ((commit >> pure a) (record w { tx = live db })) (ok (a, db))
unfolding commit
committing a w db calm =
    let v : World = record w { tx = live db } in
    commit_runs a v db (live db) (next_fault w.faults).0
      (record v { faults = (next_fault w.faults).1 }) refl (calm_fault calm) (calm_world v calm)

then-Commits :
    {A : Type 0} (w v : World) (r : Outcome RepoError A × World) (spec : Outcome RepoError (A × Db))
    → w.faults ≡ []
    → RunsTo w r spec
    → Commits w (◌>>=◌ (λ _. r) (λ a. commit >> pure a) v) spec
then-Commits w v r (ok (a, db)) calm e =
    subst (λ z. Commits w (◌>>=◌ (λ _. z) (λ a. commit >> pure a) v) (ok (a, db))) (sym e)
      (committing a w db calm)
then-Commits w v (ok a, w') (err x) calm e = cc
then-Commits w v (err y, w') (err x) calm e = cc

-- `Commits` does not look at what was there before.
Commits-from :
    {A : Type 0} (w : World) (c : Db) (o : Option Tx) (x : Outcome RepoError A × World)
    (y : Outcome RepoError (A × Db))
    → Commits (record w { committed = c; tx = o }) x y
    → Commits w x y
Commits-from w c o x (ok (a, db)) h = h
Commits-from w c o x (err e) h = h

begun-Commits :
    {A : Type 0} (body : M A) (s : Statement A) (w v : World) (fault : Bool)
    → Runs body s
    → w.faults ≡ []
    → fault ≡ false
    → v ≡ w
    → Commits w (◌>>=◌ (λ _. begun fault v) (λ _. body >>= λ a. commit >> pure a) v) (s w.committed)
begun-Commits body s w v fault runs calm no_fault e =
    let u : World = record w { tx = live w.committed } in
    rw (no_fault, e)
      (Commits-from w w.committed (live w.committed) (◌>>=◌ body (λ a. commit >> pure a) u)
        (s w.committed)
        (then-Commits u u (body u) (s w.committed) calm (runs u w.committed refl calm)))

-- A transaction whose body runs to a statement carries the statement out.
pub transaction-Commits :
    {A : Type 0} (others : Db → Db) (body : M A) (s : Statement A) (w : World)
    → Runs body s
    → w.faults ≡ []
    → Commits w (transaction others body w) (s (others w.committed))
unfolding begin
transaction-Commits others body s w runs calm =
    let now = others w.committed in
    let v : World = record w { committed = now } in
    Commits-from w now w.tx (transaction others body w) (s now) (
      begun-Commits body s v (record v { faults = (next_fault w.faults).1 }) (next_fault w.faults).0
        runs calm (calm_fault calm) (calm_world v calm))
