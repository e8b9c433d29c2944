-- ===== src/Case/History/Timeline/Moving.antt =====
-- A move keeps the history of the cases.
use xscope_hub.Prelude.{
  ℕ, true, false, Option, none, some, [], ◌∷◌, ◌++◌, ◌≡◌, refl, sym, ap, subst, ◌∙◌, if◌then◌else◌,
  ◌==◌, arith, Bool-cases, inl, inr, append-nil, ==_iff,
}
use xscope_hub.Workflow.State
use xscope_hub.Workflow.Event
use xscope_hub.Workflow.State.{State}
use xscope_hub.Workflow.Event.{Event}
use xscope_hub.Workflow.Decide.{intent_of}
use xscope_hub.Case.Tables.{OpsCase, Db, find_case}
use xscope_hub.Case.Queries.{UpdateCaseStatusParams}
use xscope_hub.Case.Repository.{Codec, Call, TransitionArgs}
use xscope_hub.Case.Repository.Moves.{Moved, case_id-of-find}
use xscope_hub.Case.History.{events_of, Traced, Announced, History}
use xscope_hub.Case.History.Timeline.{
  updated, map_option, find_case-set_status, Traced-stays, Traced-moves, events_of-one,
  announce_one,
}

module _ (codec : Codec) (call : Call) (args : TransitionArgs) (db : Db) (row : OpsCase) (db' : Db)
    (m : Moved codec call args db row db') where
  abbrev pub target : UpdateCaseStatusParams
  target = record {
    case_id = m.current.case_id;
    status = State.to_text m.to;
    version = m.current.version;
  }

  moved_events :
      (k : ℕ)
      → events_of k db'.timeline
        ≡ events_of k db.timeline
          ++ (if m.current.case_id == k then some (Event.to_text args.event) ∷ [] else [])
  unfolding intent_of
  moved_events k = ap (events_of k) m.timeline_is ∙ events_of-one k db.timeline _

  current_id : m.current.case_id ≡ args.case_id
  current_id = case_id-of-find args.case_id db.cases m.found

  pub moved_find :
      (k : ℕ)
      → find_case k db'.cases ≡ map_option (updated call.pg.now target) (find_case k db.cases)
  moved_find k = ap (find_case k) m.cases_is ∙ find_case-set_status call.pg.now target k db.cases

  moved_current : (h : Traced db m.current) → Traced db' (updated call.pg.now target m.current)
  moved_current h =
      let one : (m.current.case_id == m.current.case_id) ≡ true = ground arith in
      let version : (m.current.version == m.current.version) ≡ true = ground arith in
      let events = moved_events m.current.case_id in
      let moved = Traced-moves db db' m.current h call.pg.now args.event args.ctx m.to m.legal (
        events
        ∙ ap
            (λ b.
              events_of m.current.case_id db.timeline
              ++ (if b then some (Event.to_text args.event) ∷ [] else []))
            one) in
      rw (one, version) moved

  moved_other :
      (c : OpsCase)
      → Traced db c
      → (m.current.case_id == c.case_id) ≡ false
      → Traced db' (updated call.pg.now target c)
  moved_other c h other =
      let other' : (c.case_id == m.current.case_id) ≡ false = ground (arith, other) in
      let events = moved_events c.case_id in
      let stays = Traced-stays db db' c h (
        events
        ∙ ap
            (λ b.
              events_of c.case_id db.timeline
              ++ (if b then some (Event.to_text args.event) ∷ [] else []))
            other
        ∙ append-nil (events_of c.case_id db.timeline)) in
      rw (other') stays

  -- A row with the id of the case that moves is the row that moves.
  pub found_current :
      (k : ℕ) (c : OpsCase)
      → find_case k db.cases ≡ some c
      → (m.current.case_id == c.case_id) ≡ true
      → m.current ≡ c
  found_current k c found hit =
      let id_is : c.case_id ≡ k = case_id-of-find k db.cases found in
      let ids : m.current.case_id ≡ c.case_id = (==_iff _ _).0 hit in
      let key : k ≡ args.case_id = sym id_is ∙ sym ids ∙ current_id in
      let e : some m.current ≡ some c =
        sym m.found ∙ ap (λ j. find_case j db.cases) (sym key) ∙ found in
      cc e

  moved_updated :
      (h : (k : ℕ) (c : OpsCase) → find_case k db.cases ≡ some c → Traced db c) (k : ℕ)
      (c : OpsCase)
      → find_case k db.cases ≡ some c
      → Traced db' (updated call.pg.now target c)
  moved_updated h k c found = elim (Bool-cases (m.current.case_id == c.case_id)) [
    | inl hit ↦
        subst (λ d. Traced db' (updated call.pg.now target d)) (found_current k c found hit)
          (moved_current (h args.case_id m.current m.found))
    | inr miss ↦ moved_other c (h k c found) miss
  ]

  -- No row has the id of a case that is not found.
  pub current_elsewhere : (k : ℕ) → find_case k db.cases ≡ none → (m.current.case_id == k) ≡ false
  current_elsewhere k found = elim (Bool-cases (m.current.case_id == k)) [
    | inl hit ↦
        let key : args.case_id ≡ k = sym current_id ∙ (==_iff _ _).0 hit in
        cc (m.found, ap (λ j. find_case j db.cases) key, found)
    | inr miss ↦ miss
  ]

  moved_found :
      (h : History codec.uuid_text db) (k : ℕ) (c' : OpsCase) (o : Option OpsCase)
      → find_case k db.cases ≡ o
      → some c' ≡ map_option (updated call.pg.now target) o
      → Traced db' c'
  moved_found h k c' none found e = cc e
  moved_found h k c' (some c) found e =
      let is : updated call.pg.now target c ≡ c' = cc e in
      subst (Traced db') is (moved_updated h.traced k c found)

  moved_unknown :
      (h : History codec.uuid_text db) (k : ℕ) (o : Option OpsCase)
      → find_case k db.cases ≡ o
      → none ≡ map_option (updated call.pg.now target) o
      → events_of k db'.timeline ≡ []
  moved_unknown h k (some c) found e = cc e
  moved_unknown h k none found e =
      moved_events k
      ∙ ap
          (λ b. events_of k db.timeline ++ (if b then some (Event.to_text args.event) ∷ [] else []))
          (current_elsewhere k found)
      ∙ append-nil (events_of k db.timeline)
      ∙ h.unknown k found

  moved-Announced : Announced codec.uuid_text db → Announced codec.uuid_text db'
  moved-Announced h = announce_one codec.uuid_text db db' _ _ m.timeline_is m.outbox_is refl h

  pub Moved-History : History codec.uuid_text db → History codec.uuid_text db'
  Moved-History h = record {
    traced = λ k c' found. moved_found h k c' _ refl (sym found ∙ moved_find k);
    unknown = λ k found. moved_unknown h k _ refl (sym found ∙ moved_find k);
    announced = moved-Announced h.announced;
  }
