-- ===== src/Case/History/Timeline/Opening.antt =====
-- A creation keeps the history of the cases.
use xscope_hub.Prelude.{
  ℕ, codes, true, false, Option, none, some, [], ◌∷◌, ◌++◌, ◌≡◌, refl, sym, ap, subst, ◌∙◌,
  if◌then◌else◌, ◌==◌, arith, Bool-cases, inl, inr, append-nil, ==_iff,
}
use xscope_hub.Workflow.State
use xscope_hub.Workflow.State.{State}
use xscope_hub.Workflow.Paths.{Run, done}
use xscope_hub.Case.Tables.{OpsCase, Db, find_case}
use xscope_hub.Case.Repository.{Codec, Call, CreateCaseArgs}
use xscope_hub.Case.Repository.Moves.{case_id-of-find}
use xscope_hub.Case.Repository.Creations.{Created, first_row}
use xscope_hub.Case.History.{events_of, Traced, History}
use xscope_hub.Case.History.Timeline.{
  find_case-append, new_text, Traced-stays, events_of-one, announce_one,
}

module _ (codec : Codec) (call : Call) (args : CreateCaseArgs) (db : Db) (row : OpsCase) (db' : Db)
    (m : Created codec call args db row db') where
  abbrev new_row : OpsCase
  new_row = first_row codec call args

  pub case_is : row.case_id ≡ call.pg.uuid
  case_is = ap (λ (c : OpsCase). c.case_id) m.row_is

  created_events :
      (k : ℕ)
      → events_of k db'.timeline
        ≡ events_of k db.timeline
          ++ (if row.case_id == k then some (codes "case_created") ∷ [] else [])
  created_events k = ap (events_of k) m.timeline_is ∙ events_of-one k db.timeline _

  pub unused_find : find_case call.pg.uuid db.cases ≡ none
  unused_find = ground (arith, m.unused)

  quiet_events :
      (k : ℕ) → (row.case_id == k) ≡ false → events_of k db'.timeline ≡ events_of k db.timeline
  quiet_events k miss =
      created_events k
      ∙ ap (λ b. events_of k db.timeline ++ (if b then some (codes "case_created") ∷ [] else []))
          miss
      ∙ append-nil (events_of k db.timeline)

  created-Traced : History codec.uuid_text db → Traced db' row
  created-Traced h =
      let status_is : State.of_text row.status ≡ State.new =
        ap (λ (c : OpsCase). State.of_text c.status) m.row_is ∙ new_text in
      let one : (row.case_id == row.case_id) ≡ true = ground arith in
      let before = ap (λ k. events_of k db.timeline) case_is ∙ h.unknown call.pg.uuid unused_find in
      record {
        steps = [];
        run = subst (Run State.new []) (sym status_is) done;
        events_are =
            created_events row.case_id
            ∙ ap
                (λ b.
                  events_of row.case_id db.timeline
                  ++ (if b then some (codes "case_created") ∷ [] else []))
                one
            ∙ ap (λ l. l ++ some (codes "case_created") ∷ []) before;
        version_is = ap (λ (c : OpsCase). c.version) m.row_is;
      }

  created_other :
      (h : History codec.uuid_text db) (k : ℕ) (c : OpsCase)
      → find_case k db.cases ≡ some c
      → Traced db' c
  created_other h k c found =
      let id_is : c.case_id ≡ k = case_id-of-find k db.cases found in
      elim (Bool-cases (row.case_id == c.case_id)) [
        | inl hit ↦
            let key : call.pg.uuid ≡ k = sym case_is ∙ (==_iff _ _).0 hit ∙ id_is in
            cc (unused_find, ap (λ j. find_case j db.cases) key, found)
        | inr miss ↦ Traced-stays db db' c (h.traced k c found) (quiet_events c.case_id miss)
      ]

  created_found :
      (h : History codec.uuid_text db) (k : ℕ) (c' : OpsCase) (o : Option OpsCase)
      → find_case k db.cases ≡ o
      → some c' ≡ (elim o [ some d ↦ some d | none ↦ if row.case_id == k then some row else none ])
      → Traced db' c'
  created_found h k c' (some c) found e =
      let is : c ≡ c' = cc e in subst (Traced db') is (created_other h k c found)
  created_found h k c' none found e = elim (Bool-cases (row.case_id == k)) [
    | inl hit ↦
        let is : some c' ≡ some row = rw (hit) at e in
        let is' : row ≡ c' = cc is in subst (Traced db') is' (created-Traced h)
    | inr miss ↦ let is : some c' ≡ none = rw (miss) at e in cc is
  ]

  created_unknown :
      (h : History codec.uuid_text db) (k : ℕ) (o : Option OpsCase)
      → find_case k db.cases ≡ o
      → none ≡ (elim o [ some d ↦ some d | none ↦ if row.case_id == k then some row else none ])
      → events_of k db'.timeline ≡ []
  created_unknown h k (some c) found e = cc e
  created_unknown h k none found e = elim (Bool-cases (row.case_id == k)) [
    | inl hit ↦ let is : none ≡ some row = rw (hit) at e in cc is
    | inr miss ↦ quiet_events k miss ∙ h.unknown k found
  ]

  pub created_find :
      (k : ℕ)
      → find_case k db'.cases ≡ (elim (find_case k db.cases) [
        | some d ↦ some d
        | none ↦ if row.case_id == k then some row else none
      ])
  created_find k = ap (find_case k) m.cases_is ∙ find_case-append k db.cases row

  pub Created-History : History codec.uuid_text db → History codec.uuid_text db'
  Created-History h = record {
    traced = λ k c' found. created_found h k c' _ refl (sym found ∙ created_find k);
    unknown = λ k found. created_unknown h k _ refl (sym found ∙ created_find k);
    announced = announce_one codec.uuid_text db db' _ _ m.timeline_is m.outbox_is refl h.announced;
  }
