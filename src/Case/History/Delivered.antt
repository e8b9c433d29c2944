-- ===== src/Case/History/Delivered.antt =====
-- What is marked as published was given to `nc.Publish`, over any number of calls and flushes.
use xscope_hub.Prelude.{
  false, none, List, [], ◌++◌, Outcome, ok, err, ◌≡◌, refl, sym, subst, inl, inr, arith, In, All-In,
}
use xscope_hub.Case.Tables.{OpsCase, Outbox, Db}
use xscope_hub.Case.Session.{RepoError, World, Message}
use xscope_hub.Case.Queries.{Postgres, is_unpublished}
use xscope_hub.Case.Repository.{
  Codec, Call, TransitionArgs, CreateCaseArgs, transition_call, create_case_call,
}
use xscope_hub.Case.Repository.Calls.{Ends, transition_call-Ends}
use xscope_hub.Case.Repository.Creations.{CreationEnds, create_case_call-Ends}
use xscope_hub.Case.Publisher.{message_of, flush}
use xscope_hub.Case.Publisher.Delivery.{flush-Ended}
use xscope_hub.Case.Publisher.Growth.{flush-Grows}
use xscope_hub.Case.History.Orderly.{Told, Orderly, Orderly-append, Orderly-more, flush-Orderly}
use xscope_hub.Case.History.Reached.{empty_db}

-- The committed contents that calls and flushes leave in a new database, with the messages
-- that `nc.Publish` was given and took into the buffer of the client. Others may have brought the database to anything that they can reach with the same
-- messages, and may send more.
pub data Sending (codec : Codec) : Db → List Message → Type 0 where
  at_start : Sending codec empty_db []
  by_creation :
      (call : Call) (args : CreateCaseArgs) (w : World) (sent : List Message)
      → w.tx ≡ none
      → Sending codec w.committed sent
      → Sending codec (call.others w.committed) sent
      → Sending codec (create_case_call codec call args w).1.committed sent
  by_transition :
      (call : Call) (args : TransitionArgs) (w : World) (sent : List Message)
      → w.tx ≡ none
      → Sending codec w.committed sent
      → Sending codec (call.others w.committed) sent
      → Sending codec (transition_call codec call args w).1.committed sent
  by_flush :
      (pg : Postgres) (others : Db → Db) (w : World)
      → w.tx ≡ none
      → Sending codec (others w.committed) w.sent
      → Sending codec (flush pg others w).1.committed (flush pg others w).1.sent
  meanwhile :
      (db : Db) (sent more : List Message) → Sending codec db sent → Sending codec db (sent ++ more)

module _ (codec : Codec) where
  creation-Orderly :
      (call : Call) (args : CreateCaseArgs) (w : World) (sent : List Message)
      (x : Outcome RepoError OpsCase × World)
      → CreationEnds codec call args w x
      → Orderly w.committed sent
      → Orderly (call.others w.committed) sent
      → Orderly x.1.committed sent
  creation-Orderly call args w sent (ok row, w') (_, inl (_, same)) h k =
      subst (λ d. Orderly d sent) (sym same) h
  creation-Orderly call args w sent (ok row, w') (_, inr made) h k =
      Orderly-append (call.others w.committed) w'.committed sent _ made.outbox_is made.sequence_is
        refl refl k
  creation-Orderly call args w sent (err e, w') (_, same) h k =
      subst (λ d. Orderly d sent) (sym same) k

  transition-Orderly :
      (call : Call) (args : TransitionArgs) (w : World) (sent : List Message)
      (x : Outcome RepoError OpsCase × World)
      → Ends codec call args w x
      → Orderly w.committed sent
      → Orderly (call.others w.committed) sent
      → Orderly x.1.committed sent
  transition-Orderly call args w sent (ok row, w') (_, inl (_, same)) h k =
      subst (λ d. Orderly d sent) (sym same) h
  transition-Orderly call args w sent (ok row, w') (_, inr moved) h k =
      Orderly-append (call.others w.committed) w'.committed sent _ moved.outbox_is moved.sequence_is
        refl refl k
  transition-Orderly call args w sent (err e, w') (_, same) h k =
      subst (λ d. Orderly d sent) (sym same) k

  Sending-Orderly : {db : Db} {sent : List Message} → Sending codec db sent → Orderly db sent
  Sending-Orderly at_start = record { ascending = omega arith; told = tt }
  Sending-Orderly (by_creation call args w sent closed before others) =
      creation-Orderly call args w sent (create_case_call codec call args w)
        (create_case_call-Ends codec call args w closed) (Sending-Orderly before)
        (Sending-Orderly others)
  Sending-Orderly (by_transition call args w sent closed before others) =
      transition-Orderly call args w sent (transition_call codec call args w)
        (transition_call-Ends codec call args w closed) (Sending-Orderly before)
        (Sending-Orderly others)
  Sending-Orderly (by_flush pg others w closed before) =
      flush-Orderly pg others (others w.committed) w.sent (flush pg others w)
        (flush-Ended pg others w closed) (flush-Grows pg others w) (Sending-Orderly before)
  Sending-Orderly (meanwhile db sent more before) =
      Orderly-more db sent more (Sending-Orderly before)

  Told-of :
      (r : Outbox) (sent : List Message)
      → is_unpublished r ≡ false
      → Told sent r
      → In (message_of r) sent
  Told-of r sent published (inl waits) = absurd (cc (published, waits))
  Told-of r sent published (inr there) = there

  -- In every database that calls of CreateCase and Transition and flushes of the publisher reach from
  -- an empty one, whatever calls to the servers fail and however they interleave before their
  -- transactions, a row of the outbox that no longer waits to be published has a message that
  -- `nc.Publish` was given and took into the buffer of the client; whether it reaches NATS is not said.
  pub Sending-Delivered :
      (db : Db) (sent : List Message)
      → Sending codec db sent
      → (r : Outbox) → In r db.outbox
      → is_unpublished r ≡ false
      → In (message_of r) sent
  Sending-Delivered db sent reached r there published =
      Told-of r sent published (All-In (Told sent) db.outbox r (Sending-Orderly reached).told there)
