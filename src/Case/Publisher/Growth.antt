-- ===== src/Case/Publisher/Growth.antt =====
-- What was given to the client of NATS stays in `sent`: a flush only adds to it.
use xscope_hub.Prelude.{
  ℕ, Bool, true, false, Option, none, some, List, [], ◌∷◌, ◌++◌, Outcome, ok, err, ◌≡◌, refl, sym,
  ◌∙◌, ap, append_assoc, append-nil, inl, inr, Bool-cases,
}
use xscope_hub.Case.Tables.{Outbox, Db}
use xscope_hub.Case.Session.{
  RepoError, World, Message, M, Statement, ◌>>=◌, pure, begin, begun, commit, commit_tx, rollback,
  exec, rolled, or_rollback, next_fault, Tx,
}
use xscope_hub.Case.Queries.{Postgres, list_unpublished_outbox, mark_outbox_published}
use xscope_hub.Case.Publisher.{
  message_of, buffered, publish, publish_all, flush_rows, flush, commit_and_flush,
}
use xscope_hub.Case.Publisher.Delivery.{exec-sent}

-- The messages of the first, and more.
abbrev pub Extends : List Message → List Message → Type 0
Extends ms ms' = (more : List Message) × (ms' ≡ ms ++ more)

abbrev Grows : {A : Type 0} → M A → Type 0
Grows m = (w : World) → Extends w.sent (m w).1.sent

same_sent : {ms ms' : List Message} → ms' ≡ ms → Extends ms ms'
same_sent {ms} e = ([], e ∙ sym (append-nil ms))

Extends-trans : (ks bs cs : List Message) → Extends ks bs → Extends bs cs → Extends ks cs
Extends-trans ks bs cs (ms, e) (ns, f) = (ms ++ ns, f ∙ ap (λ l. l ++ ns) e ∙ append_assoc ks ms ns)

bound-Grows :
    {A B : Type 0} (k : A → M B) (w : World) (x : Outcome RepoError A × World)
    → ((a : A) → Grows (k a))
    → Extends w.sent x.1.sent
    → Extends w.sent (◌>>=◌ (λ _. x) k w).1.sent
bound-Grows k w (ok a, v) later h = Extends-trans w.sent v.sent (k a v).1.sent h (later a v)
bound-Grows k w (err e, v) later h = h

>>=-Grows :
    {A B : Type 0} (m : M A) (k : A → M B) → Grows m → ((a : A) → Grows (k a)) → Grows (m >>= k)
>>=-Grows m k first later w = bound-Grows k w (m w) later (first w)

exec-Grows : {A : Type 0} (s : Statement A) → Grows (or_rollback (exec s))
exec-Grows s w = same_sent (exec-sent s w)

begun-Grows : (fault : Bool) (w : World) → Extends w.sent (begun fault w).1.sent
begun-Grows true w = same_sent refl
begun-Grows false w = same_sent refl

begin-Grows : (others : Db → Db) → Grows (begin others)
unfolding begin
begin-Grows others w =
    let (fault, rest) = next_fault w.faults in
    begun-Grows fault (record w { committed = others w.committed; faults = rest })

commit_tx-Grows :
    (o : Option Tx) (fault : Bool) (w : World) → Extends w.sent (commit_tx o fault w).1.sent
commit_tx-Grows none fault w = same_sent refl
commit_tx-Grows (some t) true w = same_sent refl
commit_tx-Grows (some t) false w = elim (Bool-cases t.is_aborted) [
  | inl aborted ↦ rw (aborted) (same_sent refl)
  | inr live ↦ rw (live) (same_sent refl)
]

commit_and_flush-Grows : Grows commit_and_flush
unfolding commit_and_flush commit
commit_and_flush-Grows w =
    let (fault, rest) = next_fault w.faults in
    commit_tx-Grows w.tx fault (record w { faults = rest })

buffered-Grows :
    (fault : Bool) (m : Message) (w : World) → Extends w.sent (rolled (buffered fault m w)).1.sent
unfolding rollback
buffered-Grows true m w = same_sent refl
buffered-Grows false m w = (m ∷ [], refl)

publish-Grows : (m : Message) → Grows (or_rollback (publish m))
unfolding publish
publish-Grows m w =
    let (fault, rest) = next_fault w.faults in buffered-Grows fault m (record w { faults = rest })

pure-Grows : {A : Type 0} (a : A) → Grows (pure a)
pure-Grows a w = same_sent refl

publish_all-Grows : (rs : List Outbox) → Grows (publish_all rs)
unfolding publish_all
publish_all-Grows [] = pure-Grows {A = List ℕ} []
publish_all-Grows (r ∷ rs) =
    >>=-Grows (or_rollback (publish (message_of r)))
      (λ _. publish_all rs >>= λ ids. pure (r.id ∷ ids)) (publish-Grows (message_of r))
      λ _.
        >>=-Grows (publish_all rs) (λ ids. pure (r.id ∷ ids)) (publish_all-Grows rs)
          λ ids. pure-Grows (r.id ∷ ids)

module _ (pg : Postgres) (others : Db → Db) where
  flush_rows-Grows : (rs : List Outbox) → Grows (flush_rows pg others rs)
  unfolding flush_rows rollback
  flush_rows-Grows [] = λ w. same_sent refl
  flush_rows-Grows (r ∷ rs) =
      >>=-Grows (publish_all (r ∷ rs))
        (λ ids. or_rollback (exec (mark_outbox_published pg ids)) >>= λ _. commit_and_flush)
        (publish_all-Grows (r ∷ rs))
        λ ids.
          >>=-Grows (or_rollback (exec (mark_outbox_published pg ids))) (λ _. commit_and_flush)
            (exec-Grows (mark_outbox_published pg ids)) λ _. commit_and_flush-Grows

  pub flush-Grows : (w : World) → Extends w.sent (flush pg others w).1.sent
  unfolding flush
  flush-Grows =
      >>=-Grows (begin others)
        (λ _. or_rollback (exec (list_unpublished_outbox pg 10)) >>= flush_rows pg others)
        (begin-Grows others)
        λ _.
          >>=-Grows (or_rollback (exec (list_unpublished_outbox pg 10))) (flush_rows pg others)
            (exec-Grows (list_unpublished_outbox pg 10)) flush_rows-Grows
