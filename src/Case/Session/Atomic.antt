-- ===== src/Case/Session/Atomic.antt =====
-- A whole transaction: begin, a body, commit.
use xscope_hub.Prelude.{Bool, true, false, none, Outcome, ok, err, ◌≡◌, refl, subst, sym, ◌∙◌}
use xscope_hub.Case.Tables.{Db}
use xscope_hub.Case.Session.{
  RepoError, World, M, Statement, ◌>>=◌, ◌>>◌, pure, begin, begun, commit, commit_tx, next_fault,
}
use xscope_hub.Case.Session.Refines.{live, Follows, Refines}

abbrev pub transaction : {A : Type 0} → (Db → Db) → M A → M A
transaction others body = do begin others; a ← body; commit; pure a

-- The transaction is closed. With a result, all of the statement's changes and nothing else are
-- committed; with an error, nothing is.
abbrev pub Atomic : {A : Type 0} → Db → Statement A → Outcome RepoError A × World → Type 0
Atomic db s (ok a, w) = (w.tx ≡ none) × (s db ≡ ok (a, w.committed))
Atomic db s (err e, w) = (w.tx ≡ none) × (w.committed ≡ db)

commit-Atomic :
    {A : Type 0} (s : Statement A) (a : A) (start db : Db) (w : World) (fault : Bool)
    → s start ≡ ok (a, db)
    → w.committed ≡ start
    → Atomic start s (
        let (r, w') = commit_tx (live db) fault w in
        elim r [ ok _ ↦ (ok a, w') | err e ↦ (err e, w') ])
commit-Atomic s a start db w true done same_db = (refl, same_db)
commit-Atomic s a start db w false done same_db = (refl, done)

then_commit-Atomic :
    {A : Type 0} (s : Statement A) (start : Db) (r : Outcome RepoError A) (w w' : World)
    → Follows w (r, w') (s start)
    → w.committed ≡ start
    → Atomic start s (elim r [ ok a ↦ (commit >> pure a) w' | err e ↦ (err e, w') ])
unfolding commit
then_commit-Atomic s start (ok a) w w' (db, done, live_tx, same_db) at_start =
    let (fault, rest) = next_fault w'.faults in
    let v : World = record w' { faults = rest } in
    subst
      (λ o.
        Atomic start s
          (let (r, u) = commit_tx o fault v in elim r [ ok _ ↦ (ok a, u) | err e ↦ (err e, u) ]))
      (sym live_tx) (commit-Atomic s a start db v fault done (same_db ∙ at_start))
then_commit-Atomic s start (err e) w w' (closed, same_db) at_start = (closed, same_db ∙ at_start)

begun-Atomic :
    {A : Type 0} (body : M A) (s : Statement A) (fault : Bool) (w : World)
    → Refines body s
    → w.tx ≡ none
    → Atomic w.committed s (
        let (r, w') = begun fault w in
        elim r [ ok _ ↦ (body >>= λ a. commit >> pure a) w' | err e ↦ (err e, w') ])
begun-Atomic body s true w refines closed = (closed, refl)
begun-Atomic body s false w refines closed =
    let v : World = record w { tx = live w.committed } in
    then_commit-Atomic s w.committed (body v).0 v (body v).1 (refines v w.committed refl) refl

-- A body that follows a statement makes an atomic transaction of it.
pub transaction-Atomic :
    {A : Type 0} (others : Db → Db) (body : M A) (s : Statement A) (w : World)
    → Refines body s
    → w.tx ≡ none
    → Atomic (others w.committed) s (transaction others body w)
unfolding begin
transaction-Atomic others body s w refines closed =
    let (fault, rest) = next_fault w.faults in
    begun-Atomic body s fault (record w { committed = others w.committed; faults = rest }) refines
      closed
