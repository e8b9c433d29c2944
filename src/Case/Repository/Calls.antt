-- ===== src/Case/Repository/Calls.antt =====
-- Whole calls of `Transition`: all or nothing under every pattern of faults, and a repeated key
-- gives the first answer again.
use xscope_hub.Prelude.{
  Bytes, is_empty, Bool, true, false, Option, none, some, List, [], ◌∷◌, Outcome, ok, err,
  if◌then◌else◌, ◌≡◌, ◌⊎◌, inl, inr, refl, arith, sym, subst, Option-cases, Bool-cases,
}
use xscope_hub.Case.Tables.{OpsCase, Idempotency, Db, find_idempotency}
use xscope_hub.Case.Session.{RepoError, failed, World, ◌>>=◌, next_fault}
use xscope_hub.Case.Session.Atomic.{Atomic, transaction-Atomic}
use xscope_hub.Case.Queries.{get_idempotency}
use xscope_hub.Case.Repository.{
  Codec, Call, TransitionArgs, replay, answer_of, answer_or_move, transition_in_tx, transition_call,
  transition_body,
}
use xscope_hub.Case.Repository.Effects.{transition_effect, transition_body-Implements}
use xscope_hub.Case.Repository.Moves.{Moved, transition_effect-Moved}

module _ (codec : Codec) where
  -- The answer that is stored under a key.
  pub record Replayed (key : Bytes) (db : Db) (row : OpsCase) : Type 0 where
    pub stored : Idempotency
    pub found : find_idempotency key db.idempotency ≡ some stored
    pub answer : row ≡ codec.decode_row stored.response

  module _ (call : Call) where
    transition_in_tx-Atomic :
        (args : TransitionArgs) (w : World)
        → w.tx ≡ none
        → Atomic
            (call.others w.committed)
            (transition_effect codec call args)
            (transition_in_tx codec call args w)
    unfolding transition_in_tx
    transition_in_tx-Atomic args w closed =
        transaction-Atomic call.others (transition_body codec call args)
          (transition_effect codec call args) w (transition_body-Implements codec call args).0
          closed

    -- How a call ends that began in `w`.
    abbrev pub Ends : TransitionArgs → World → Outcome RepoError OpsCase × World → Type 0
    Ends args w (ok row, w') =
        (w'.tx ≡ none)
        × ((Replayed args.idem_key w.committed row × (w'.committed ≡ w.committed))
            ⊎ Moved codec call args (call.others w.committed) row w'.committed)
    Ends args w (err e, w') = (w'.tx ≡ none) × (w'.committed ≡ call.others w.committed)

    Ends-of-Atomic :
        (args : TransitionArgs) (w : World) (r : Outcome RepoError OpsCase × World)
        → Atomic (call.others w.committed) (transition_effect codec call args) r
        → Ends args w r
    Ends-of-Atomic args w (ok row, w') (closed, done) =
        (closed, inr (transition_effect-Moved codec call args (call.others w.committed) done))
    Ends-of-Atomic args w (err e, w') h = h

    -- What the look-up before the transaction gives.
    answer_lem :
        (key : Bytes) (db : Db) (fault : Bool)
        → let answer =
            answer_of codec call (if fault then err failed else get_idempotency call.pg key db) in
          (answer ≡ none) ⊎ ((row : OpsCase) × (answer ≡ some row) × Replayed key db row)
    unfolding get_idempotency
    answer_lem key db true = inl refl
    answer_lem key db false = elim (Option-cases (find_idempotency key db.idempotency)) [
      | inl missing ↦ inl (ground arith)
      | inr (i, found) ↦ elim (Bool-cases (is_empty i.idem_key)) [
        | inl unnamed ↦ inl (ground arith)
        | inr named ↦ inr (
          codec.decode_row i.response,
          ground arith,
          record { stored = i; found = found; answer = refl },
        )
      ]
    ]

    -- The look-up changes nothing but what faults are to come.
    pub replay_lem :
        (key : Bytes) (w : World)
        → (fs : List Bool) × (o : Option OpsCase) × (replay codec call key w
            ≡ (ok o, record w { faults = fs }))
          × ((o ≡ none) ⊎ ((row : OpsCase) × (o ≡ some row) × Replayed key w.committed row))
    unfolding replay
    replay_lem [] w = (w.faults, none, refl, inl refl)
    replay_lem (c ∷ key) w = (
      (next_fault w.faults).1,
      answer_of codec call (
          if (next_fault w.faults).0
          then err failed
          else get_idempotency call.pg (c ∷ key) w.committed),
      refl,
      answer_lem (c ∷ key) w.committed (next_fault w.faults).0,
    )

    answer_or_move-Ends :
        (args : TransitionArgs) (w : World) (fs : List Bool) (o : Option OpsCase)
        → w.tx ≡ none
        → (o ≡ none) ⊎ ((row : OpsCase) × (o ≡ some row) × Replayed args.idem_key w.committed row)
        → Ends args w (answer_or_move codec call args o (record w { faults = fs }))
    unfolding answer_or_move
    answer_or_move-Ends args w fs none closed h =
        let v : World = record w { faults = fs } in
        Ends-of-Atomic args w (transition_in_tx codec call args v)
          (transition_in_tx-Atomic args v closed)
    answer_or_move-Ends args w fs (some row) closed (inl e) = cc
    answer_or_move-Ends args w fs (some row) closed (inr (row', e, r)) =
        let same_row : row' ≡ row = cc in
        (closed, inl (subst (Replayed args.idem_key w.committed) same_row r, refl))

    -- Whatever calls to the server fail and whatever others commit meanwhile, a call of Transition
    -- made outside a transaction leaves none open; with an error nothing of the call is in the
    -- database; with a row, either it is the answer stored under the call's key and nothing has
    -- changed, or the case has moved by one legal step with its timeline, outbox and key rows.
    pub transition_call-Ends :
        (args : TransitionArgs) (w : World)
        → w.tx ≡ none
        → Ends args w (transition_call codec call args w)
    unfolding transition_call
    transition_call-Ends args w closed =
        let (fs, o, e, h) = replay_lem args.idem_key w in
        subst (λ z. Ends args w (◌>>=◌ (λ _. z) (answer_or_move codec call args) w)) (sym e)
          (answer_or_move-Ends args w fs o closed h)
