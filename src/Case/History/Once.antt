-- ===== src/Case/History/Once.antt =====
-- A key does its work once: what later calls with it may do, however much has happened since.
use xscope_hub.Prelude.{
  Bytes, is_empty, false, none, some, List, [], ◌∷◌, ◌++◌, Outcome, ok, err, ◌≡◌, inl, inr, arith,
  sym, subst,
}
use xscope_hub.Case.Tables.{OpsCase, Idempotency, Db, find_idempotency}
use xscope_hub.Case.Session.{RepoError, World, Message}
use xscope_hub.Case.Queries.{Postgres}
use xscope_hub.Case.Repository.{
  Codec, Call, TransitionArgs, CreateCaseArgs, transition_call, create_case_call,
}
use xscope_hub.Case.Repository.Calls.{Replayed, Ends, transition_call-Ends}
use xscope_hub.Case.Repository.Creations.{CreationEnds, create_case_call-Ends}
use xscope_hub.Case.Repository.Retries.{RoundTrips, Replayed-of-Ends, later_call}
use xscope_hub.Case.Publisher.{flush}
use xscope_hub.Case.Publisher.Delivery.{Ended, flush-Ended, marked, batch}

-- The committed contents that any number of calls and flushes make of a database. A call may fail in
-- any way, and before its transaction begins others may have gone on likewise.
pub data Onward (codec : Codec) (from : Db) : Db → Type 0 where
  at_once : Onward codec from from
  by_creation :
      (call : Call) (args : CreateCaseArgs) (w : World)
      → w.tx ≡ none
      → Onward codec from w.committed
      → Onward codec from (call.others w.committed)
      → Onward codec from (create_case_call codec call args w).1.committed
  by_transition :
      (call : Call) (args : TransitionArgs) (w : World)
      → w.tx ≡ none
      → Onward codec from w.committed
      → Onward codec from (call.others w.committed)
      → Onward codec from (transition_call codec call args w).1.committed
  by_flush :
      (pg : Postgres) (others : Db → Db) (w : World)
      → w.tx ≡ none
      → Onward codec from (others w.committed)
      → Onward codec from (flush pg others w).1.committed

abbrev Held : Bytes → Idempotency → Db → Type 0
Held key i db = find_idempotency key db.idempotency ≡ some i

find_idempotency-append :
    (key : Bytes) (i : Idempotency) (rs more : List Idempotency)
    → find_idempotency key rs ≡ some i
    → find_idempotency key (rs ++ more) ≡ some i
unfolding find_idempotency
find_idempotency-append key i [] more h = cc
find_idempotency-append key i (r ∷ rs) more h =
    ground (arith, find_idempotency-append key i rs more)

module _ (codec : Codec) (key : Bytes) (i : Idempotency) where
  Held-grown :
      (db db' : Db) (more : List Idempotency)
      → db'.idempotency ≡ db.idempotency ++ more
      → Held key i db
      → Held key i db'
  Held-grown db db' more e h =
      subst (λ l. find_idempotency key l ≡ some i) (sym e)
        (find_idempotency-append key i db.idempotency more h)

  creation-Held :
      (call : Call) (args : CreateCaseArgs) (w : World) (r : Outcome RepoError OpsCase × World)
      → CreationEnds codec call args w r
      → Held key i w.committed
      → Held key i (call.others w.committed)
      → Held key i r.1.committed
  creation-Held call args w (ok row, w') (_, inl (_, same)) h k = subst (Held key i) (sym same) h
  creation-Held call args w (ok row, w') (_, inr made) h k =
      Held-grown (call.others w.committed) w'.committed _ made.keys_is k
  creation-Held call args w (err e, w') (_, same) h k = subst (Held key i) (sym same) k

  transition-Held :
      (call : Call) (args : TransitionArgs) (w : World) (r : Outcome RepoError OpsCase × World)
      → Ends codec call args w r
      → Held key i w.committed
      → Held key i (call.others w.committed)
      → Held key i r.1.committed
  transition-Held call args w (ok row, w') (_, inl (_, same)) h k = subst (Held key i) (sym same) h
  transition-Held call args w (ok row, w') (_, inr moved) h k =
      Held-grown (call.others w.committed) w'.committed _ moved.keys_is k
  transition-Held call args w (err e, w') (_, same) h k = subst (Held key i) (sym same) k

  flush-Held :
      (pg : Postgres) (others : Db → Db) (db : Db) (sent : List Message)
      (r : Outcome RepoError (Unit {0}) × World)
      → Ended db (marked pg others (batch pg others db) db) sent r
      → Held key i db
      → Held key i r.1.committed
  flush-Held pg others db sent (ok u, w') (_, same, _) h = subst (Held key i) (sym same) h
  flush-Held pg others db sent (err e, w') (_, same) h = subst (Held key i) (sym same) h

  Onward-Held : {from db : Db} → Held key i from → Onward codec from db → Held key i db
  Onward-Held h at_once = h
  Onward-Held h (by_creation call args w closed before others) =
      creation-Held call args w (create_case_call codec call args w)
        (create_case_call-Ends codec call args w closed) (Onward-Held h before)
        (Onward-Held h others)
  Onward-Held h (by_transition call args w closed before others) =
      transition-Held call args w (transition_call codec call args w)
        (transition_call-Ends codec call args w closed) (Onward-Held h before)
        (Onward-Held h others)
  Onward-Held h (by_flush pg others w closed before) =
      flush-Held pg others (others w.committed) _ (flush pg others w)
        (flush-Ended pg others w closed) (Onward-Held h before)

module _ (codec : Codec) where
  stored_later :
      (key : Bytes) (row : OpsCase) {from db : Db}
      → Replayed codec key from row
      → Onward codec from db
      → Replayed codec key db row
  stored_later key row r on = record {
    stored = r.stored;
    found = Onward-Held codec key r.stored r.found on;
    answer = r.answer;
  }

  Replayed-one :
      (key : Bytes) (row other : OpsCase) (db : Db)
      → Replayed codec key db row
      → Replayed codec key db other
      → other ≡ row
  Replayed-one key row other db r s =
      let same_stored : s.stored ≡ r.stored = cc (r.found, s.found) in
      cc (same_stored, r.answer, s.answer)

  -- What a call in `v` may end with behind one that has given the row: the row and no change, or an
  -- error and nothing but what others have done.
  abbrev pub Again : OpsCase → World → Db → Outcome RepoError OpsCase × World → Type 0
  Again row v others (ok other, v') = (other ≡ row) × (v'.committed ≡ v.committed)
  Again row v others (err e, v') = v'.committed ≡ others

  transition-Again :
      (later : Call) (again : TransitionArgs) (v : World) (key : Bytes) (row : OpsCase)
      (x : Outcome RepoError OpsCase × World)
      → is_empty key ≡ false
      → again.idem_key ≡ key
      → Replayed codec key v.committed row
      → Replayed codec key (later.others v.committed) row
      → Ends codec later again v x
      → Again row v (later.others v.committed) x
  transition-Again later again v key row (ok other, v') named e here there (_, inl (r, same)) = (
    Replayed-one key row other v.committed here
        (subst (λ k. Replayed codec k v.committed other) e r),
    same,
  )
  transition-Again later again v key row (ok other, v') named e here there (_, inr moved) =
      let unused =
        subst (λ k. find_idempotency k (later.others v.committed).idempotency ≡ none) e
          (moved.key_unused (rw (e) named)) in
      absurd (cc (unused, there.found))
  transition-Again later again v key row (err e', v') named e here there (_, same) = same

  creation-Again :
      (later : Call) (anew : CreateCaseArgs) (v : World) (key : Bytes) (row : OpsCase)
      (x : Outcome RepoError OpsCase × World)
      → is_empty key ≡ false
      → anew.idem_key ≡ key
      → Replayed codec key v.committed row
      → Replayed codec key (later.others v.committed) row
      → CreationEnds codec later anew v x
      → Again row v (later.others v.committed) x
  creation-Again later anew v key row (ok other, v') named e here there (_, inl (r, same)) = (
    Replayed-one key row other v.committed here
        (subst (λ k. Replayed codec k v.committed other) e r),
    same,
  )
  creation-Again later anew v key row (ok other, v') named e here there (_, inr made) =
      let unused =
        subst (λ k. find_idempotency k (later.others v.committed).idempotency ≡ none) e
          (made.key_unused (rw (e) named)) in
      absurd (cc (unused, there.found))
  creation-Again later anew v key row (err e', v') named e here there (_, same) = same

  -- What a call that has given a row leaves in the database.
  stored_by :
      (call : Call) (args : TransitionArgs) (w w' : World) (row : OpsCase)
      → RoundTrips codec call.pg row
      → w.tx ≡ none
      → is_empty args.idem_key ≡ false
      → transition_call codec call args w ≡ (ok row, w')
      → Replayed codec args.idem_key w'.committed row
  stored_by call args w w' row law closed named first =
      Replayed-of-Ends codec call args w w' row law named
        (subst (Ends codec call args w) first (transition_call-Ends codec call args w closed))

  -- Once Transition with a non-empty key, made outside a transaction, has given a row that its JSON
  -- gives back, then after any number of calls and flushes, and whatever calls to the server fail, a
  -- call of Transition or CreateCase with that key, made outside a transaction, gives that row and
  -- changes nothing, or gives an error and leaves the database as others have made it.
  pub transition_once :
      (call : Call) (args : TransitionArgs) (w w' : World) (row : OpsCase)
      → RoundTrips codec call.pg row
      → w.tx ≡ none
      → is_empty args.idem_key ≡ false
      → transition_call codec call args w ≡ (ok row, w')
      → (later : Call) (v : World) → v.tx ≡ none
      → Onward codec w'.committed v.committed
      → Onward codec w'.committed (later.others v.committed)
      → (again : TransitionArgs) (anew : CreateCaseArgs) → again.idem_key ≡ args.idem_key
      → anew.idem_key ≡ args.idem_key
      → Again row v (later.others v.committed) (transition_call codec later again v)
        × Again row v (later.others v.committed) (create_case_call codec later anew v)
  transition_once call args w w' row law closed named first later v rest now then again anew e f =
      let stored = stored_by call args w w' row law closed named first in
      let here = stored_later args.idem_key row stored now in
      let there = stored_later args.idem_key row stored then in
      (
        transition-Again later again v args.idem_key row (transition_call codec later again v) named
            e here there (transition_call-Ends codec later again v rest),
        creation-Again later anew v args.idem_key row (create_case_call codec later anew v) named f
            here there (create_case_call-Ends codec later anew v rest),
      )

  -- Once a call with a non-empty key, made outside a transaction, has given a row that its JSON
  -- gives back, then after any number of calls and flushes, whatever failed in them, a call with
  -- that key, whatever case, event and version it names, gives the same row and changes nothing, if
  -- no call to the server fails in it.
  pub transition_retry :
      (call : Call) (args : TransitionArgs) (w w' : World) (row : OpsCase)
      → RoundTrips codec call.pg row
      → w.tx ≡ none
      → is_empty args.idem_key ≡ false
      → transition_call codec call args w ≡ (ok row, w')
      → (later : Call) (again : TransitionArgs) (v : World) → again.idem_key ≡ args.idem_key
      → Onward codec w'.committed v.committed
      → v.faults ≡ []
      → transition_call codec later again v ≡ (ok row, v)
  transition_retry call args w w' row law closed named first later again v e now calm =
      let stored = stored_by call args w w' row law closed named first in
      let here = stored_later args.idem_key row stored now in
      later_call codec later again v row (rw (e) named) calm (rw (e) here)
