-- ===== src/Case/Repository/Retries.antt =====
-- How the answer to a call is stored under its key, and read by another call with that key.
use xscope_hub.Prelude.{
  ℕ, Bytes, is_empty, Bool, false, none, some, List, [], ◌∷◌, ◌++◌, ok, err, if◌then◌else◌, ◌≡◌,
  inl, inr, refl, arith, sym, subst, same_iff,
}
use xscope_hub.Case.Tables.{OpsCase, Idempotency, Db, find_idempotency}
use xscope_hub.Case.Session.{World, ◌>>=◌, next_fault, failed}
use xscope_hub.Case.Session.Total.{calm_fault, calm_world}
use xscope_hub.Case.Queries.{Postgres, idempotency_row, get_idempotency}
use xscope_hub.Case.Repository.{
  Codec, Call, TransitionArgs, remembered, replay, answer_of, answer_or_move, transition_call,
}
use xscope_hub.Case.Repository.Moves.{Moved}
use xscope_hub.Case.Repository.Calls.{Replayed, Ends}

find_idempotency-key :
    (k : Bytes) (rs : List Idempotency) {i : Idempotency}
    → find_idempotency k rs ≡ some i
    → i.idem_key ≡ k
unfolding find_idempotency
find_idempotency-key k [] h = cc
find_idempotency-key k (r ∷ rs) {i} h =
    ground (arith, same_iff r.idem_key k, find_idempotency-key k rs {i = i})

find_idempotency-last :
    (k : Bytes) (rs : List Idempotency) (i : Idempotency)
    → find_idempotency k rs ≡ none
    → i.idem_key ≡ k
    → find_idempotency k (rs ++ i ∷ []) ≡ some i
unfolding find_idempotency
find_idempotency-last k [] i h e = ground (arith, same_iff i.idem_key k)
find_idempotency-last k (r ∷ rs) i h e = ground (arith, find_idempotency-last k rs i)

get_idempotency-found :
    (pg : Postgres) (k : Bytes) (db : Db) {i : Idempotency}
    → find_idempotency k db.idempotency ≡ some i
    → get_idempotency pg k db ≡ ok i
unfolding get_idempotency
get_idempotency-found pg k db h = ground arith

-- The row comes back from the JSON that it was stored as.
abbrev pub RoundTrips : Codec → Postgres → OpsCase → Type 0
RoundTrips codec pg row = codec.decode_row (pg.to_jsonb (codec.encode_row row)) ≡ row

module _ (codec : Codec) where
  -- A row that a call has given is stored under its key.
  Replayed-after :
      (call : Call) (key : Bytes) (args : TransitionArgs) (db : Db) (row : OpsCase) (db' : Db)
      → RoundTrips codec call.pg row
      → args.idem_key ≡ key
      → is_empty key ≡ false
      → Moved codec call args db row db'
      → Replayed codec key db' row
  Replayed-after call key args db row db' law same_key named m =
      let stored = idempotency_row call.pg (remembered codec call args.idem_key args.request row) in
      let keys = subst (λ z. db'.idempotency ≡ db.idempotency ++ z) (ground arith) m.keys_is in
      record {
        stored = stored;
        found = rw keys (
            find_idempotency-last key db.idempotency stored
              (subst (λ k. find_idempotency k db.idempotency ≡ none) same_key
                (m.key_unused (rw same_key named)))
              same_key);
        answer = sym law;
      }

  answered :
      (call : Call) (c : ℕ) (key : Bytes) (db : Db) (row : OpsCase) (fault : Bool)
      → fault ≡ false
      → Replayed codec (c ∷ key) db row
      → answer_of codec call (if fault then err failed else get_idempotency call.pg (c ∷ key) db)
        ≡ some row
  answered call c key db row fault no_fault r =
      let named = find_idempotency-key (c ∷ key) db.idempotency r.found in
      rw (no_fault, get_idempotency-found call.pg (c ∷ key) db r.found) (rw (named, r.answer))

  replay_answers :
      (call : Call) (key : Bytes) (w : World) (row : OpsCase)
      → is_empty key ≡ false
      → w.faults ≡ []
      → Replayed codec key w.committed row
      → replay codec call key w ≡ (ok (some row), w)
  unfolding replay
  replay_answers call [] w row named calm r = cc
  replay_answers call (c ∷ key) w row named calm r =
      let found = answered call c key w.committed row (next_fault w.faults).0 (calm_fault calm) r in
      λ i. (ok (found i), calm_world w calm i)

  pub later_call :
      (call : Call) (args : TransitionArgs) (w : World) (row : OpsCase)
      → is_empty args.idem_key ≡ false
      → w.faults ≡ []
      → Replayed codec args.idem_key w.committed row
      → transition_call codec call args w ≡ (ok row, w)
  unfolding transition_call answer_or_move
  later_call call args w row named calm r =
      subst (λ z. ◌>>=◌ (λ _. z) (answer_or_move codec call args) w ≡ (ok row, w))
        (sym (replay_answers call args.idem_key w row named calm r)) refl

  pub Replayed-of-Ends :
      (call : Call) (args : TransitionArgs) (w w' : World) (row : OpsCase)
      → RoundTrips codec call.pg row
      → is_empty args.idem_key ≡ false
      → Ends codec call args w (ok row, w')
      → Replayed codec args.idem_key w'.committed row
  Replayed-of-Ends call args w w' row law named (_, inl (r, same_db)) =
      subst (λ d. Replayed codec args.idem_key d row) (sym same_db) r
  Replayed-of-Ends call args w w' row law named (_, inr m) =
      Replayed-after call args.idem_key args (call.others w.committed) row w'.committed law refl
        named m
