-- ===== src/Case/Publisher/Drain.antt =====
-- The loop of flushes publishes all of the outbox.
use xscope_hub.Prelude.{
  ℕ, zero, suc, ◌≤◌, ◌<◌, Bool, true, false, not, ◌&&◌, ◌||◌, none, some, List, [], ◌∷◌, ◌++◌, map,
  take, length, ok, ◌≡◌, refl, sym, subst, ap, ◌∙◌, if◌then◌else◌, ◌==◌, leb, arith, All,
  Bool-cases, inl, inr, Time, ==_iff,
}
use xscope_hub.Case.Tables.{Outbox, Db}
use xscope_hub.Case.Session.{
  World, M, Message, ◌>>=◌, ◌>>◌, pure, begin, commit, rollback, exec, or_rollback,
}
use xscope_hub.Case.Session.Refines.{live}
use xscope_hub.Case.Queries.{
  Postgres, list_unpublished_outbox, mark_outbox_published, mark_rows, is_any, is_unpublished,
  unpublished, order_by_id, insert_by_id,
}
use xscope_hub.Case.Publisher.{
  message_of, publish, publish_all, flush_rows, flush, run, Wake, tick, commit_and_flush,
}

-- How many rows are unpublished.
unfoldable pub waiting : List Outbox → ℕ
waiting [] = 0
waiting (r ∷ rs) = if is_unpublished r then suc (waiting rs) else waiting rs

-- Some unpublished row has the id.
unfoldable waits : ℕ → List Outbox → Bool
waits k [] = false
waits k (r ∷ rs) = (r.id == k && is_unpublished r) || waits k rs

abbrev stamp : Time → List ℕ → Outbox → Outbox
stamp now ids r =
    if is_any r.id ids then record r { published = some true; published_at = some now } else r

waiting-mark_rows-le :
    (now : Time) (ids : List ℕ) (rs : List Outbox) → waiting (mark_rows now ids rs) ≤ waiting rs
unfolding waiting mark_rows
waiting-mark_rows-le now ids [] = omega arith
waiting-mark_rows-le now ids (r ∷ rs) = ground (arith, waiting-mark_rows-le now ids rs)

waiting-mark_rows-lt :
    (now : Time) (ids : List ℕ) (k : ℕ) (rs : List Outbox)
    → is_any k ids ≡ true
    → waits k rs ≡ true
    → waiting (mark_rows now ids rs) < waiting rs
unfolding waiting mark_rows waits
waiting-mark_rows-lt now ids k [] a h = cc h
waiting-mark_rows-lt now ids k (r ∷ rs) a h = elim (Bool-cases (r.id == k && is_unpublished r)) [
  | inl here ↦
      let ids_same : r.id ≡ k = (==_iff r.id k).0 (ground (arith, here)) in
      let marked : is_any r.id ids ≡ true = ap (λ j. is_any j ids) ids_same ∙ a in
      let fresh : is_unpublished r ≡ true = ground (arith, here) in
      ground (arith, marked, fresh, waiting-mark_rows-le now ids rs)
  | inr not_here ↦
      let rest : waits k rs ≡ true = ground (arith, h, not_here) in
      let less = waiting-mark_rows-lt now ids k rs a rest in ground (arith, less)
]

All-insert_by_id :
    (P : Outbox → Type 0) (r : Outbox) (rs : List Outbox)
    → P r
    → All P rs
    → All P (insert_by_id r rs)
unfolding insert_by_id
All-insert_by_id P r [] p h = (p, tt)
All-insert_by_id P r (x ∷ xs) p h = elim (Bool-cases (leb r.id x.id)) [
  | inl e ↦ rw (e) (p, h)
  | inr e ↦ rw (e) (h.0, All-insert_by_id P r xs p h.1)
]

pub All-order_by_id : (P : Outbox → Type 0) (rs : List Outbox) → All P rs → All P (order_by_id rs)
unfolding order_by_id
All-order_by_id P [] h = tt
All-order_by_id P (r ∷ rs) h = All-insert_by_id P r (order_by_id rs) h.0 (All-order_by_id P rs h.1)

-- The id of a row is that of an unpublished row of a list.
abbrev IsWaiting : List Outbox → Outbox → Type 0
IsWaiting rows r = waits r.id rows ≡ true

grow-IsWaiting :
    (x : Outbox) (rows rs : List Outbox) → All (IsWaiting rows) rs → All (IsWaiting (x ∷ rows)) rs
unfolding waits
grow-IsWaiting x rows [] h = tt
grow-IsWaiting x rows (r ∷ rs) h = (ground (arith, h.0), grow-IsWaiting x rows rs h.1)

unpublished-IsWaiting :
    (is_locked : ℕ → Bool) (rows : List Outbox) → All (IsWaiting rows) (unpublished is_locked rows)
unfolding unpublished waits
unpublished-IsWaiting is_locked [] = tt
unpublished-IsWaiting is_locked (r ∷ rs) =
    let later =
      grow-IsWaiting r rs (unpublished is_locked rs) (unpublished-IsWaiting is_locked rs) in
    elim (Bool-cases (is_unpublished r && not (is_locked r.id))) [
      | inl e ↦ rw (e) (ground (arith, e), later)
      | inr e ↦ rw (e) later
    ]

-- What a flush reads: the batch and whether it is empty.
abbrev batch_of : Postgres → List Outbox → List Outbox
batch_of pg rows = take 10 (order_by_id (unpublished pg.is_locked rows))

insert_by_id-cons :
    (r : Outbox) (rs : List Outbox)
    → (x : Outbox) × (xs : List Outbox) × (insert_by_id r rs ≡ x ∷ xs)
unfolding insert_by_id
insert_by_id-cons r [] = (r, [], refl)
insert_by_id-cons r (x ∷ xs) = elim (Bool-cases (leb r.id x.id)) [
  | inl e ↦ (r, x ∷ xs, rw (e) refl)
  | inr e ↦ (x, insert_by_id r xs, rw (e) refl)
]

order_by_id-cons :
    (r : Outbox) (rs : List Outbox)
    → (x : Outbox) × (xs : List Outbox) × (order_by_id (r ∷ rs) ≡ x ∷ xs)
unfolding order_by_id
order_by_id-cons r rs = insert_by_id-cons r (order_by_id rs)

unpublished-cons :
    (is_locked : ℕ → Bool) (rows : List Outbox)
    → ((k : ℕ) → is_locked k ≡ false)
    → 0 < waiting rows
    → (x : Outbox) × (xs : List Outbox) × (unpublished is_locked rows ≡ x ∷ xs)
unfolding unpublished waiting
unpublished-cons is_locked [] free h = absurd (omega (arith, h))
unpublished-cons is_locked (r ∷ rs) free h = elim (Bool-cases (is_unpublished r)) [
  | inl e ↦ (r, unpublished is_locked rs, rw (e, free r.id) refl)
  | inr e ↦ rw (e) (unpublished-cons is_locked rs free (rw (e) at h))
]

-- No transaction is open, or one is, and no call will fail.
abbrev pub at_rest : Db → List Message → World
at_rest db sent = record { committed = db; tx = none; faults = []; sent = sent }

abbrev in_flush : Db → List Message → World
in_flush db sent = record { committed = db; tx = live db; faults = []; sent = sent }

abbrev id_of : Outbox → ℕ
id_of r = r.id

publish_all-calm :
    (rs : List Outbox) (db : Db) (sent : List Message)
    → (sent' : List Message) × (publish_all rs (in_flush db sent)
        ≡ (ok (map id_of rs), in_flush db sent'))
unfolding publish_all publish
publish_all-calm [] db sent = (sent, refl)
publish_all-calm (r ∷ rs) db sent =
    let (sent', e) = publish_all-calm rs db (sent ++ message_of r ∷ []) in
    let add : List ℕ → M (List ℕ) = λ ids. pure (r.id ∷ ids) in
    (sent', ap (λ z. ◌>>=◌ (λ _. z) add (in_flush db sent)) e)

-- What a flush of a batch leaves.
abbrev flushed : Postgres → List Outbox → Db → Db
flushed pg [] db = db
flushed pg (r ∷ rs) db = record db { outbox = mark_rows pg.now (map id_of (r ∷ rs)) db.outbox }

flush_rows-calm :
    (pg : Postgres) (rs : List Outbox) (db : Db) (sent : List Message)
    → (sent' : List Message) × ((flush_rows pg (λ d. d) rs (in_flush db sent)).1
        ≡ at_rest (flushed pg rs db) sent')
unfolding flush_rows rollback exec commit commit_and_flush mark_outbox_published
flush_rows-calm pg [] db sent = (sent, refl)
flush_rows-calm pg (r ∷ rs) db sent =
    let (sent', e) = publish_all-calm (r ∷ rs) db sent in
    let mark : List ℕ → M (Unit {0}) =
      λ ids. or_rollback (exec (mark_outbox_published pg ids)) >> commit_and_flush in
    (sent', ap (λ z. (◌>>=◌ (λ _. z) mark (in_flush db sent)).1) e)

flush-calm :
    (pg : Postgres) (db : Db) (sent : List Message)
    → (sent' : List Message) × ((flush pg (λ d. d) (at_rest db sent)).1
        ≡ at_rest (flushed pg (batch_of pg db.outbox) db) sent')
unfolding flush begin exec list_unpublished_outbox
flush-calm pg db sent = flush_rows-calm pg (batch_of pg db.outbox) db sent

waiting-flushed-le :
    (pg : Postgres) (rs : List Outbox) (db : Db)
    → waiting (flushed pg rs db).outbox ≤ waiting db.outbox
waiting-flushed-le pg [] db = omega arith
waiting-flushed-le pg (r ∷ rs) db = waiting-mark_rows-le pg.now (map id_of (r ∷ rs)) db.outbox

first_is_any : (k : ℕ) (ks : List ℕ) → is_any k (k ∷ ks) ≡ true
unfolding is_any
first_is_any k ks = ground arith

-- A flush leaves fewer rows unpublished, unless none is.
waiting-flushed-lt :
    (pg : Postgres) (db : Db)
    → ((k : ℕ) → pg.is_locked k ≡ false)
    → 0 < waiting db.outbox
    → waiting (flushed pg (batch_of pg db.outbox) db).outbox < waiting db.outbox
waiting-flushed-lt pg db free h =
    let (u, us, is_u) = unpublished-cons pg.is_locked db.outbox free h in
    let (x, xs, is_x) = order_by_id-cons u us in
    let ordered : order_by_id (unpublished pg.is_locked db.outbox) ≡ x ∷ xs =
      ap order_by_id is_u ∙ is_x in
    let all =
      All-order_by_id (IsWaiting db.outbox) (unpublished pg.is_locked db.outbox)
        (unpublished-IsWaiting pg.is_locked db.outbox) in
    let head : All (IsWaiting db.outbox) (x ∷ xs) = subst (All (IsWaiting db.outbox)) ordered all in
    let found : is_any x.id (map id_of (x ∷ take 9 xs)) ≡ true =
      first_is_any x.id (map id_of (take 9 xs)) in
    subst (λ l. waiting (flushed pg (take 10 l) db).outbox < waiting db.outbox) (sym ordered)
      (waiting-mark_rows-lt pg.now (map id_of (x ∷ take 9 xs)) x.id db.outbox found head.0)

step_down : (n m k : ℕ) → n ≤ m → (0 < m → n < m) → m ≤ suc k → n ≤ k
step_down n zero k a f h = omega (arith, a)
step_down n (suc m) k a f h = omega (arith, f (omega arith), h)

-- A server that holds no row for another transaction, at one tick of the publisher.
abbrev pub IsFree : Postgres → Type 0
IsFree pg = (k : ℕ) → pg.is_locked k ≡ false

abbrev pub ticks : List Postgres → List Wake
ticks [] = []
ticks (pg ∷ pgs) = tick pg (λ d. d) ∷ ticks pgs

-- Where no call fails, no row is held by another transaction and nobody else adds rows: after as many ticks
-- as rows are unpublished, or more, Run has left no row of the outbox unpublished.
pub run_drains :
    (pgs : List Postgres) (db : Db) (sent : List Message)
    → All IsFree pgs
    → waiting db.outbox ≤ length pgs
    → waiting (run (ticks pgs) (at_rest db sent)).committed.outbox ≡ 0
unfolding run
run_drains [] db sent free h = omega (arith, h)
run_drains (pg ∷ pgs) db sent free h =
    let (sent', e) = flush-calm pg db sent in
    let next = flushed pg (batch_of pg db.outbox) db in
    let less : waiting next.outbox ≤ length pgs =
      step_down _ _ _ (waiting-flushed-le pg (batch_of pg db.outbox) db)
        (waiting-flushed-lt pg db free.0) h in
    subst (λ w. waiting (run (ticks pgs) w).committed.outbox ≡ 0) (sym e)
      (run_drains pgs next sent' free.1 less)
