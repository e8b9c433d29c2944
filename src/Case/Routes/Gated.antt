-- ===== src/Case/Routes/Gated.antt =====
-- What requests over HTTP can do to a case: the handlers approve nothing.
use xscope_hub.Prelude.{
  ℕ, Bytes, false, Option, none, some, List, [], ◌∷◌, Outcome, ok, err, ◌≡◌, refl, sym, ap, subst,
  ◌∙◌, inl, inr, Bool-cases, if◌then◌else◌, ◌==◌, ◌&&◌, same, ℤ,
}
use xscope_hub.Workflow.State
use xscope_hub.Workflow.Paths.{is_past_gate}
use xscope_hub.Case.Tables.{OpsCase, Db, find_case}
use xscope_hub.Case.Session.{RepoError, World, Message}
use xscope_hub.Case.Queries.{Postgres}
use xscope_hub.Case.Repository.{
  Codec, Call, TransitionArgs, CreateCaseArgs, transition_call, create_case_call,
}
use xscope_hub.Case.Repository.Moves.{Moved}
use xscope_hub.Case.Repository.Calls.{Ends, transition_call-Ends}
use xscope_hub.Case.Repository.Creations.{Created, CreationEnds, create_case_call-Ends}
use xscope_hub.Case.Handlers.{
  Wire, HttpCall, create_args, transition_args, create_case_handler, create_bound,
  transition_with_id, transition_bound, transition_case,
}
use xscope_hub.Case.Handlers.Gate.{transition_args-gate}
use xscope_hub.Case.Publisher.{flush}
use xscope_hub.Case.Publisher.Delivery.{Ended, flush-Ended, marked, batch}
use xscope_hub.Case.History.Timeline.{updated, map_option, Step_target, new_text}
use xscope_hub.Case.History.Timeline.Moving.{target, moved_find}
use xscope_hub.Case.History.Timeline.Opening.{created_find}
use xscope_hub.Case.History.Reached.{empty_db}
use xscope_hub.Case.Routes.{
  Route, serve_routes, register_routes, serve, Requested, at_start, by_request, by_flush, Gated,
}

empty-Gated : Gated empty_db
unfolding find_case
empty-Gated k c found = cc found

module _ (codec : Codec) (call : Call) (db : Db) (row : OpsCase) (db' : Db) where
  module _ (args : TransitionArgs) (m : Moved codec call args db row db')
      (target_before : is_past_gate m.to ≡ false) where
    renewed_before :
        (c : OpsCase)
        → is_past_gate (State.of_text c.status) ≡ false
        → is_past_gate
            (State.of_text (updated call.pg.now (target codec call args db row db' m) c).status)
          ≡ false
    renewed_before c h =
        elim (Bool-cases (c.case_id == m.current.case_id && c.version == m.current.version)) [
          | inl hit ↦ rw (hit) (ap is_past_gate (Step_target m.legal) ∙ target_before)
          | inr miss ↦ rw (miss) h
        ]

    found_before :
        (k : ℕ) (c' : OpsCase) (o : Option OpsCase)
        → Gated db
        → find_case k db.cases ≡ o
        → some c' ≡ map_option (updated call.pg.now (target codec call args db row db' m)) o
        → is_past_gate (State.of_text c'.status) ≡ false
    found_before k c' none h found e = cc e
    found_before k c' (some c) h found e =
        let is : updated call.pg.now (target codec call args db row db' m) c ≡ c' = cc e in
        subst (λ (d : OpsCase). is_past_gate (State.of_text d.status) ≡ false) is
          (renewed_before c (h k c found))

    Moved-Gated : Gated db → Gated db'
    Moved-Gated h k c' found =
        found_before k c' (find_case k db.cases) h refl
          (sym found ∙ moved_find codec call args db row db' m k)

  module _ (args : CreateCaseArgs) (m : Created codec call args db row db') where
    row_before : is_past_gate (State.of_text row.status) ≡ false
    row_before =
        ap (λ (c : OpsCase). is_past_gate (State.of_text c.status)) m.row_is
        ∙ ap is_past_gate new_text

    created_before :
        (k : ℕ) (c' : OpsCase) (o : Option OpsCase)
        → Gated db
        → find_case k db.cases ≡ o
        → some c'
          ≡ (elim o [ some d ↦ some d | none ↦ if row.case_id == k then some row else none ])
        → is_past_gate (State.of_text c'.status) ≡ false
    created_before k c' (some c) h found e =
        let is : c ≡ c' = cc e in
        subst (λ (d : OpsCase). is_past_gate (State.of_text d.status) ≡ false) is (h k c found)
    created_before k c' none h found e = elim (Bool-cases (row.case_id == k)) [
      | inl hit ↦
          let is : some c' ≡ some row = rw (hit) at e in
          let is' : row ≡ c' = cc is in
          subst (λ (d : OpsCase). is_past_gate (State.of_text d.status) ≡ false) is' row_before
      | inr miss ↦ let is : some c' ≡ none = rw (miss) at e in cc is
    ]

    Created-Gated : Gated db → Gated db'
    Created-Gated h k c' found =
        created_before k c' (find_case k db.cases) h refl
          (sym found ∙ created_find codec call args db row db' m k)

module _ (wire : Wire) (codec : Codec) (call : Call) where
  -- What began in `w` and ends in `w'` leaves every case before the gate.
  abbrev Keeps : World → World → Type 0
  Keeps w w' = Gated w.committed → Gated (call.others w.committed) → Gated w'.committed

  transition-Keeps :
      (r : HttpCall) (uid : ℕ) (event : Bytes) (w : World) (e : Outcome RepoError OpsCase × World)
      → Ends codec call (transition_args r uid event) w e
      → Keeps w e.1
  transition-Keeps r uid event w (ok row, w') (_, inl (_, same)) h k = subst Gated (sym same) h
  transition-Keeps r uid event w (ok row, w') (_, inr m) h k =
      Moved-Gated codec call (call.others w.committed) row w'.committed
        (transition_args r uid event) m
        (transition_args-gate r uid event m.legal (k _ m.current m.found)) k
  transition-Keeps r uid event w (err e, w') (_, same) h k = subst Gated (sym same) k

  creation-Keeps :
      (args : CreateCaseArgs) (w : World) (e : Outcome RepoError OpsCase × World)
      → CreationEnds codec call args w e
      → Keeps w e.1
  creation-Keeps args w (ok row, w') (_, inl (_, same)) h k = subst Gated (sym same) h
  creation-Keeps args w (ok row, w') (_, inr m) h k =
      Created-Gated codec call (call.others w.committed) row w'.committed args m k
  creation-Keeps args w (err e, w') (_, same) h k = subst Gated (sym same) k

  transition_with_id-Keeps :
      (r : HttpCall) (event : Bytes) (o : Outcome Bytes ℕ) (w : World)
      → w.tx ≡ none
      → Keeps w (transition_with_id wire codec call r event o w).1
  unfolding transition_with_id
  transition_with_id-Keeps r event (err e) w closed = λ h k. h
  transition_with_id-Keeps r event (ok uid) w closed =
      transition-Keeps r uid event w (transition_call codec call (transition_args r uid event) w)
        (transition_call-Ends codec call (transition_args r uid event) w closed)

  transition_bound-Keeps :
      (r : HttpCall) (o : Outcome Bytes Bytes) (w : World)
      → w.tx ≡ none
      → Keeps w (transition_bound wire codec call r o w).1
  unfolding transition_bound
  transition_bound-Keeps r (err e) w closed = λ h k. h
  transition_bound-Keeps r (ok event) w closed =
      transition_with_id-Keeps r event (wire.parse_uuid r.id) w closed

  create_bound-Keeps :
      (r : HttpCall) (o : Outcome Bytes (ℤ × Bytes)) (w : World)
      → w.tx ≡ none
      → Keeps w (create_bound wire codec call r o w).1
  unfolding create_bound
  create_bound-Keeps r (err e) w closed = λ h k. h
  create_bound-Keeps r (ok req) w closed =
      creation-Keeps (create_args wire codec call r req) w
        (create_case_call codec call (create_args wire codec call r req) w)
        (create_case_call-Ends codec call (create_args wire codec call r req) w closed)

  -- Each route's handler keeps the cases gated.
  abbrev AllKeep : HttpCall → World → List Route → Type 0
  AllKeep r w [] = Unit {0}
  AllKeep r w (h ∷ hs) = Keeps w (h.handler r w).1 × AllKeep r w hs

  serve_routes-Keeps :
      (method path : Bytes) (rs : List Route) (r : HttpCall) (w : World)
      → AllKeep r w rs
      → Keeps w (serve_routes method path rs r w).1
  unfolding serve_routes
  serve_routes-Keeps method path [] r w _ = λ h k. h
  serve_routes-Keeps method path (p ∷ ps) r w (here, later) =
      elim (Bool-cases (same p.method method && same p.path path)) [
        | inl hit ↦ rw (hit) here
        | inr miss ↦ rw (miss) (serve_routes-Keeps method path ps r w later)
      ]

  serve-Keeps :
      (method path : Bytes) (r : HttpCall) (w : World)
      → w.tx ≡ none
      → Keeps w (serve wire codec call method path r w).1
  unfolding serve register_routes create_case_handler transition_case
  serve-Keeps method path r w closed =
      serve_routes-Keeps method path (register_routes wire codec call) r w (
        (λ h k. h),
        (
          (λ h k. h),
          (
            create_bound-Keeps r (wire.bind_create r.body) w closed,
            (transition_bound-Keeps r (wire.bind_transition r.body) w closed, tt),
          ),
        ),
      )

flush-Gated :
    (pg : Postgres) (others : Db → Db) (db : Db) (sent : List Message)
    (r : Outcome RepoError (Unit {0}) × World)
    → Gated db
    → Ended db (marked pg others (batch pg others db) db) sent r
    → Gated r.1.committed
flush-Gated pg others db sent (ok u, w') h (_, same, _) = subst Gated (sym same) h
flush-Gated pg others db sent (err e, w') h (_, same) = subst Gated (sym same) h

all-Gated : (wire : Wire) (codec : Codec) (db : Db) → Requested wire codec db → Gated db
all-Gated wire codec db at_start = empty-Gated
all-Gated wire codec db (by_request call method path r w closed before others) =
    serve-Keeps wire codec call method path r w closed (all-Gated wire codec w.committed before)
      (all-Gated wire codec (call.others w.committed) others)
all-Gated wire codec db (by_flush pg others w closed before) =
    flush-Gated pg others (others w.committed) _ (flush pg others w)
      (all-Gated wire codec (others w.committed) before) (flush-Ended pg others w closed)

-- In every database that requests on the agent's routes and flushes of the publisher reach from an
-- empty one, whatever the requests say, whatever calls to the servers fail and however they
-- interleave before their transactions, no case is past the gate: none is being executed, verified
-- or closed.
pub Requested-Gated :
    (wire : Wire) (codec : Codec) (db : Db)
    → Requested wire codec db
    → (k : ℕ) (c : OpsCase) → find_case k db.cases ≡ some c
    → is_past_gate (State.of_text c.status) ≡ false
Requested-Gated wire codec db = all-Gated wire codec db
