-- ===== src/Case/Session.antt =====
-- One caller's view of PostgreSQL through pgx: transactions, failing statements, and what the
-- other callers commit meanwhile.
-- `faults` says of each later call to a server, in order, whether it fails; past its end calls
-- succeed. After a statement has failed the server refuses every later one of that transaction, and
-- a commit of it rolls back. A failed commit is taken to have changed nothing.
pub mod Refines
pub mod Atomic
pub mod Total
pub mod Implements
pub mod Dropped
use xscope_hub.Prelude.{
  Bytes, Bool, true, false, Option, none, some, List, [], ◌∷◌, Outcome, ok, err, if◌then◌else◌, ◌≡◌,
  refl,
}
use xscope_hub.Workflow.Decide.{DecideError}
use xscope_hub.Case.Tables.{Db}

pub data RepoError : Type 0 where
  no_rows : RepoError
  failed : RepoError
  refused : DecideError → RepoError

pub record Tx : Type 0 where
  pub db : Db
  pub is_aborted : Bool

-- A message that `nc.Publish` was given: its subject and its payload.
abbrev pub Message : Type 0
Message = Bytes × Bytes

pub record World : Type 0 where
  pub committed : Db
  pub tx : Option Tx
  pub faults : List Bool
  pub sent : List Message

abbrev pub M : Type 0 → Type 0
M A = World → Outcome RepoError A × World

infixl 5 ◌>>=◌ ◌>>◌
abbrev pub ◌>>=◌ : {A B : Type 0} → M A → (A → M B) → M B
◌>>=◌ m f w = let (r, w') = m w in elim r [ ok a ↦ f a w' | err e ↦ (err e, w') ]

abbrev pub ◌>>◌ : {A B : Type 0} → M A → M B → M B
m >> k = m >>= λ _. k

abbrev pub pure : {A : Type 0} → A → M A
pure a w = (ok a, w)

abbrev pub throw : {A : Type 0} → RepoError → M A
throw e w = (err e, w)

abbrev pub lift : {A : Type 0} → Outcome RepoError A → M A
lift r w = (r, w)

abbrev pub guard : Bool → RepoError → M (Unit {0})
guard b e w = (if b then ok tt else err e, w)

-- Whether the next call fails, and what is left to come.
abbrev pub next_fault : List Bool → Bool × List Bool
next_fault [] = (false, [])
next_fault (b ∷ bs) = (b, bs)

abbrev pub begun : Bool → World → Outcome RepoError (Unit {0}) × World
begun true w = (err failed, w)
begun false w = (ok tt, record w { tx = some (record { db = w.committed; is_aborted = false }) })

-- `pool.BeginTx`, before which other callers may have committed.
unfoldable pub begin : (Db → Db) → M (Unit {0})
begin others w =
    let (fault, rest) = next_fault w.faults in
    begun fault (record w { committed = others w.committed; faults = rest })

-- `tx.Rollback`, whose error the source ignores
unfoldable pub rollback : World → World
rollback w = record w { tx = none }

abbrev pub commit_tx : Option Tx → Bool → World → Outcome RepoError (Unit {0}) × World
commit_tx none fault w = (err failed, w)
commit_tx (some t) fault w =
    if fault
    then (err failed, record w { tx = none })
    else if t.is_aborted
    then (err failed, record w { tx = none })
    else (ok tt, record w { tx = none; committed = t.db })

-- `tx.Commit`
unfoldable pub commit : M (Unit {0})
commit w =
    let (fault, rest) = next_fault w.faults in commit_tx w.tx fault (record w { faults = rest })

-- What a statement does to a database: a result and the new contents, or an error.
abbrev pub Statement : Type 0 → Type 0
Statement A = Db → Outcome RepoError (A × Db)

abbrev pub after :
    {A : Type 0} → Tx → Outcome RepoError (A × Db) → World → Outcome RepoError A × World
after t (ok (a, db)) w = (ok a, record w { tx = some (record t { db = db }) })
after t (err no_rows) w = (err no_rows, w)
after t (err failed) w = (err failed, record w { tx = some (record t { is_aborted = true }) })
after t (err (refused e)) w = (err (refused e), w)

abbrev pub in_tx :
    {A : Type 0} → Option Tx → Bool → Statement A → World → Outcome RepoError A × World
in_tx none fault f w = (err failed, w)
in_tx (some t) fault f w =
    if t.is_aborted
    then (err failed, w)
    else if fault
    then (err failed, record w { tx = some (record t { is_aborted = true }) })
    else after t (f t.db) w

-- A statement within the transaction.
unfoldable pub exec : {A : Type 0} → Statement A → M A
exec f w =
    let (fault, rest) = next_fault w.faults in in_tx w.tx fault f (record w { faults = rest })

-- A read through the pool, in no transaction.
unfoldable pub read : {A : Type 0} → (Db → Outcome RepoError A) → M A
read f w =
    let (fault, rest) = next_fault w.faults in
    (if fault then err failed else f w.committed, record w { faults = rest })

-- `if err != nil { tx.Rollback(ctx); return …, err }`
abbrev pub rolled : {A : Type 0} → Outcome RepoError A × World → Outcome RepoError A × World
rolled (ok a, w) = (ok a, w)
rolled (err e, w) = (err e, rollback w)

abbrev pub or_rollback : {A : Type 0} → M A → M A
or_rollback m w = rolled (m w)
