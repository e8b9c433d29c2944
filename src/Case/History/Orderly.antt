-- ===== src/Case/History/Orderly.antt =====
-- The outbox in the order of its ids, with what was sent: how new rows and a flush keep it.
use xscope_hub.Prelude.{
  ℕ, ◌+◌, ◌≤◌, ◌<◌, Bool, zero, suc, true, not, ◌&&◌, List, [], ◌∷◌, ◌++◌, map, take, Outcome, ok,
  err, ◌≡◌, ◌⊎◌, refl, sym, ap, subst, inl, inr, arith, All, All-append, In, In-append,
  In-append_right, Bool-cases, ◌==◌, ==_iff,
}
use xscope_hub.Case.Tables.{Outbox, Db}
use xscope_hub.Case.Session.{RepoError, World, Message}
use xscope_hub.Case.Queries.{Postgres, is_unpublished, unpublished, order_by_id, is_any, mark_rows}
use xscope_hub.Case.Publisher.{message_of}
use xscope_hub.Case.Publisher.Delivery.{Ended, marked, batch}
use xscope_hub.Case.Publisher.Drain.{All-order_by_id}
use xscope_hub.Case.Publisher.Growth.{Extends}

-- The ids of the rows ascend from the one bound to the other.
abbrev pub Ascending : ℕ → List Outbox → ℕ → Type 0
Ascending lo [] hi = lo ≤ hi
Ascending lo (r ∷ rs) hi = (lo ≤ r.id) × Ascending (r.id + 1) rs hi

-- The row waits, or its message was given to `nc.Publish`.
abbrev pub Told : List Message → Outbox → Type 0
Told sent r = (is_unpublished r ≡ true) ⊎ In (message_of r) sent

pub record Orderly (db : Db) (sent : List Message) : Type 0 where
  pub ascending : Ascending 0 db.outbox db.next_outbox
  pub told : All (Told sent) db.outbox

Ascending-append :
    (lo : ℕ) (rs : List Outbox) (hi : ℕ) (r : Outbox)
    → Ascending lo rs hi
    → r.id ≡ hi
    → Ascending lo (rs ++ r ∷ []) (hi + 1)
Ascending-append lo [] hi r h e = (omega (arith, h, e), omega (arith, e))
Ascending-append lo (x ∷ rs) hi r (h, k) e = (h, Ascending-append (x.id + 1) rs hi r k e)

pub Orderly-append :
    (db db' : Db) (sent : List Message) (r : Outbox)
    → db'.outbox ≡ db.outbox ++ r ∷ []
    → db'.next_outbox ≡ db.next_outbox + 1
    → r.id ≡ db.next_outbox
    → is_unpublished r ≡ true
    → Orderly db sent
    → Orderly db' sent
Orderly-append db db' sent r rows next id waits h = record {
  ascending =
      subst (λ l. Ascending 0 l db'.next_outbox) (sym rows)
        (subst (Ascending 0 (db.outbox ++ r ∷ [])) (sym next)
          (Ascending-append 0 db.outbox db.next_outbox r h.ascending id));
  told =
      subst (All (Told sent)) (sym rows)
        (All-append (Told sent) db.outbox (r ∷ []) h.told (inl waits, tt));
}

Told-more :
    (sent more : List Message) (rs : List Outbox)
    → All (Told sent) rs
    → All (Told (sent ++ more)) rs
Told-more sent more [] h = tt
Told-more sent more (r ∷ rs) (inl waits, later) = (inl waits, Told-more sent more rs later)
Told-more sent more (r ∷ rs) (inr there, later) =
    (inr (In-append (message_of r) sent more there), Told-more sent more rs later)

pub Orderly-more :
    (db : Db) (sent more : List Message) → Orderly db sent → Orderly db (sent ++ more)
Orderly-more db sent more h = record {
  ascending = h.ascending;
  told = Told-more sent more db.outbox h.told;
}

-- No other row has the row's id.
abbrev Alone : Outbox → Outbox → Type 0
Alone r b = b.id ≡ r.id → b ≡ r

above :
    (lo k : ℕ) (rs : List Outbox) (hi : ℕ)
    → k < lo
    → Ascending lo rs hi
    → All (λ (s : Outbox). k < s.id) rs
above lo k [] hi h a = tt
above lo k (r ∷ rs) hi h (b, a) =
    (omega (arith, h, b), above (r.id + 1) k rs hi (omega (arith, h, b)) a)

Alone-first :
    (r : Outbox) (rs : List Outbox) → All (λ (s : Outbox). r.id < s.id) rs → All (Alone r) rs
Alone-first r [] h = tt
Alone-first r (s ∷ rs) (lt, h) = ((λ e. absurd (omega (arith, lt, e))), Alone-first r rs h)

Alone-later :
    (r : Outbox) (ss : List Outbox) (rs : List Outbox)
    → All (λ (s : Outbox). r.id < s.id) ss
    → All (λ (s : Outbox). All (Alone s) rs) ss
    → All (λ (s : Outbox). All (Alone s) (r ∷ rs)) ss
Alone-later r [] rs h k = tt
Alone-later r (s ∷ ss) rs (lt, h) (here, later) =
    (((λ e. absurd (omega (arith, lt, e))), here), Alone-later r ss rs h later)

All-Alone :
    (lo : ℕ) (rs : List Outbox) (hi : ℕ)
    → Ascending lo rs hi
    → All (λ (s : Outbox). All (Alone s) rs) rs
All-Alone lo [] hi a = tt
All-Alone lo (r ∷ rs) hi (b, a) =
    let higher = above (r.id + 1) r.id rs hi (omega arith) a in
    (
      ((λ e. refl), Alone-first r rs higher),
      Alone-later r rs rs higher (All-Alone (r.id + 1) rs hi a),
    )

All-unpublished :
    (P : Outbox → Type 0) (is_locked : ℕ → Bool) (rs : List Outbox)
    → All P rs
    → All P (unpublished is_locked rs)
unfolding unpublished
All-unpublished P is_locked [] h = tt
All-unpublished P is_locked (r ∷ rs) (here, later) =
    elim (Bool-cases (is_unpublished r && not (is_locked r.id))) [
      | inl e ↦ rw (e) (here, All-unpublished P is_locked rs later)
      | inr e ↦ rw (e) (All-unpublished P is_locked rs later)
    ]

All-take : (P : Outbox → Type 0) (n : ℕ) (rs : List Outbox) → All P rs → All P (take n rs)
All-take P zero rs h = tt
All-take P (suc n) [] h = tt
All-take P (suc n) (r ∷ rs) (here, later) = (here, All-take P n rs later)

-- A row whose id is among those of some rows, each of which is the row if it has its id.
found_among :
    (r : Outbox) (bs : List Outbox)
    → All (Alone r) bs
    → is_any r.id (map (λ (b : Outbox). b.id) bs) ≡ true
    → In (message_of r) (map message_of bs)
unfolding is_any
found_among r [] h e = absurd (cc e)
found_among r (b ∷ bs) (here, later) e = elim (Bool-cases (r.id == b.id)) [
  | inl hit ↦ inl (ap message_of (sym (here (sym ((==_iff r.id b.id).0 hit)))))
  | inr miss ↦ inr (found_among r bs later (rw (miss) at e))
]

module _ (pg : Postgres) (others : Db → Db) where
  -- The rows of a batch are marked and their messages are added to those sent.
  mark-Told :
      (sent : List Message) (bs rs : List Outbox)
      → All (λ (s : Outbox). All (Alone s) bs) rs
      → All (Told sent) rs
      → All (Told (sent ++ map message_of bs)) (mark_rows pg.now (map (λ (b : Outbox). b.id) bs) rs)
  unfolding mark_rows
  mark-Told sent bs [] alone h = tt
  mark-Told sent bs (r ∷ rs) (here, later) (told, h) = (
    elim (Bool-cases (is_any r.id (map (λ (b : Outbox). b.id) bs))) [
      | inl hit ↦ rw (hit) (
          inr (In-append_right (message_of r) sent (map message_of bs) (found_among r bs here hit)))
      | inr miss ↦ rw (miss) (Told-more sent (map message_of bs) (r ∷ []) (told, tt)).0
    ],
    mark-Told sent bs rs later h,
  )

  mark-Ascending :
      (lo : ℕ) (ids : List ℕ) (rs : List Outbox) (hi : ℕ)
      → Ascending lo rs hi
      → Ascending lo (mark_rows pg.now ids rs) hi
  unfolding mark_rows
  mark-Ascending lo ids [] hi a = a
  mark-Ascending lo ids (r ∷ rs) hi (b, a) = elim (Bool-cases (is_any r.id ids)) [
    | inl hit ↦ rw (hit) (b, mark-Ascending (r.id + 1) ids rs hi a)
    | inr miss ↦ rw (miss) (b, mark-Ascending (r.id + 1) ids rs hi a)
  ]

  batch-Alone :
      (r : Outbox) (db : Db) → All (Alone r) db.outbox → All (Alone r) (batch pg others db)
  batch-Alone r db h = All-take (Alone r) 10 (order_by_id (unpublished pg.is_locked db.outbox)) (
      All-order_by_id (Alone r) (unpublished pg.is_locked db.outbox)
        (All-unpublished (Alone r) pg.is_locked db.outbox h))

  All-batch-Alone :
      (db : Db) (rs : List Outbox)
      → All (λ (s : Outbox). All (Alone s) db.outbox) rs
      → All (λ (s : Outbox). All (Alone s) (batch pg others db)) rs
  All-batch-Alone db [] h = tt
  All-batch-Alone db (r ∷ rs) (here, later) = (batch-Alone r db here, All-batch-Alone db rs later)

  marked-Orderly :
      (db : Db) (sent : List Message)
      → Orderly db sent
      → Orderly
          (marked pg others (batch pg others db) db)
          (sent ++ map message_of (batch pg others db))
  marked-Orderly db sent h = record {
    ascending = mark-Ascending 0 _ db.outbox db.next_outbox h.ascending;
    told =
        mark-Told sent (batch pg others db) db.outbox
          (All-batch-Alone db db.outbox (All-Alone 0 db.outbox db.next_outbox h.ascending)) h.told;
  }

  pub flush-Orderly :
      (db : Db) (sent : List Message) (x : Outcome RepoError (Unit {0}) × World)
      → Ended db
          (marked pg others (batch pg others db) db)
          (sent ++ map message_of (batch pg others db))
          x
      → Extends sent x.1.sent
      → Orderly db sent
      → Orderly x.1.committed x.1.sent
  flush-Orderly db sent (ok u, w') (_, same_db, same_sent) _ h =
      subst (Orderly w'.committed) (sym same_sent) (
        subst (λ d. Orderly d (sent ++ map message_of (batch pg others db))) (sym same_db)
          (marked-Orderly db sent h))
  flush-Orderly db sent (err e, w') (_, same_db) (more, grown) h =
      subst (Orderly w'.committed) (sym grown)
        (subst (λ d. Orderly d (sent ++ more)) (sym same_db) (Orderly-more db sent more h))
