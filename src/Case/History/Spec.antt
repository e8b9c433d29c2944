-- ===== src/Case/History/Spec.antt =====
-- The cases as a map from ids to states, of which the tables with their repository are a refinement.
use xscope_hub.Prelude.{
  ℕ, true, false, Option, none, some, List, Outcome, ok, err, ◌≡◌, refl, sym, ap, subst, ◌∙◌, ◌⊎◌,
  inl, inr, Bool-cases, if◌then◌else◌, ◌==◌, ==_iff, arith,
}
use xscope_hub.Workflow.State
use xscope_hub.Workflow.State.{State}
use xscope_hub.Workflow.Event.{Event}
use xscope_hub.Workflow.Decide.{Context}
use xscope_hub.Workflow.Steps.{Step}
use xscope_hub.Case.Tables.{OpsCase, Db, find_case}
use xscope_hub.Case.Session.{RepoError, World, Message}
use xscope_hub.Case.Queries.{Postgres}
use xscope_hub.Case.Repository.{
  Codec, Call, TransitionArgs, CreateCaseArgs, transition_call, create_case_call,
}
use xscope_hub.Case.Repository.Moves.{Moved, case_id-of-find}
use xscope_hub.Case.Repository.Calls.{Ends, transition_call-Ends}
use xscope_hub.Case.Repository.Creations.{Created, CreationEnds, create_case_call-Ends}
use xscope_hub.Case.Publisher.{flush}
use xscope_hub.Case.Publisher.Delivery.{Ended, flush-Ended, marked, batch}
use xscope_hub.Case.History.Timeline.{updated, map_option, Step_target, new_text}
use xscope_hub.Case.History.Timeline.Moving.{target, moved_find, found_current, current_elsewhere}
use xscope_hub.Case.History.Timeline.Opening.{created_find, unused_find, case_is}

-- The state of each case, none where there is no such case.
abbrev pub View : Type 0
View = ℕ → Option State

abbrev pub set : ℕ → State → View → View
set k s v j = if k == j then some s else v j

-- An operation of the specification: a case is opened, or takes an event in a context.
pub data Operation : Type 0 where
  opening : ℕ → Operation
  moving : ℕ → Event → Context → Operation

-- What an operation does: a case opens in NEW under an unused id, or moves by the legal step of its
-- event in its context, and no other case changes.
pub data Does : Operation → View → View → Type 0 where
  opens : {v : View} (k : ℕ) → v k ≡ none → Does (opening k) v (set k State.new v)
  moves :
      {v : View} {s t : State} {ev : Event} {ctx : Context} (k : ℕ)
      → v k ≡ some s
      → Step ctx s ev t
      → Does (moving k ev ctx) v (set k t v)

abbrev pub state_of : Option OpsCase → Option State
state_of none = none
state_of (some c) = some (State.of_text c.status)

unfoldable pub view : Db → View
view db k = state_of (find_case k db.cases)

module _ (codec : Codec) (call : Call) (args : TransitionArgs) (db : Db) (row : OpsCase) (db' : Db)
    (m : Moved codec call args db row db') where
  abbrev renewed : OpsCase → OpsCase
  renewed = updated call.pg.now (target codec call args db row db' m)

  renewed_current : State.of_text (renewed m.current).status ≡ m.to
  renewed_current =
      let one : (m.current.case_id == m.current.case_id) ≡ true = ground arith in
      let version : (m.current.version == m.current.version) ≡ true = ground arith in
      rw (one, version) (Step_target m.legal)

  renewed_other : (c : OpsCase) → (m.current.case_id == c.case_id) ≡ false → renewed c ≡ c
  renewed_other c miss =
      let miss' : (c.case_id == m.current.case_id) ≡ false = ground (arith, miss) in rw (miss') refl

  moved_state :
      (k : ℕ) (o : Option OpsCase)
      → find_case k db.cases ≡ o
      → state_of (map_option renewed o) ≡ (if m.current.case_id == k then some m.to else state_of o)
  moved_state k none found = rw (current_elsewhere codec call args db row db' m k found) refl
  moved_state k (some c) found =
      let at_k =
        ap (λ j. if m.current.case_id == j then some m.to else state_of (some c))
          (case_id-of-find k db.cases found) in
      elim (Bool-cases (m.current.case_id == c.case_id)) [
        | inl hit ↦
            let is_current = found_current codec call args db row db' m k c found hit in
            ap (λ (d : OpsCase). some (State.of_text (renewed d).status)) (sym is_current)
            ∙ ap some renewed_current
            ∙ ap (λ b. if b then some m.to else state_of (some c)) (sym hit)
            ∙ at_k
        | inr miss ↦
            ap (λ d. state_of (some d)) (renewed_other c miss)
            ∙ ap (λ b. if b then some m.to else state_of (some c)) (sym miss)
            ∙ at_k
      ]

  moved_view : view db' ≡ set m.current.case_id m.to (view db)
  unfolding view
  moved_view =
      λ i k. (ap state_of (moved_find codec call args db row db' m k) ∙ moved_state k _ refl) i

  Moved-Does : Does (moving args.case_id args.event args.ctx) (view db) (view db')
  unfolding view
  Moved-Does =
      let current_id = case_id-of-find args.case_id db.cases m.found in
      let here : view db args.case_id ≡ some (State.of_text m.current.status) =
        ap state_of m.found in
      subst (Does (moving args.case_id args.event args.ctx) (view db))
        (ap (λ k. set k m.to (view db)) (sym current_id) ∙ sym moved_view)
        (moves args.case_id here m.legal)

module _ (codec : Codec) (call : Call) (args : CreateCaseArgs) (db : Db) (row : OpsCase) (db' : Db)
    (m : Created codec call args db row db') where
  row_new : State.of_text row.status ≡ State.new
  row_new = ap (λ (c : OpsCase). State.of_text c.status) m.row_is ∙ new_text

  unused_here : find_case row.case_id db.cases ≡ none
  unused_here =
      ap (λ k. find_case k db.cases) (case_is codec call args db row db' m)
      ∙ unused_find codec call args db row db' m

  created_state :
      (k : ℕ) (o : Option OpsCase)
      → find_case k db.cases ≡ o
      → state_of (elim o [ some d ↦ some d | none ↦ if row.case_id == k then some row else none ])
        ≡ (if row.case_id == k then some State.new else state_of o)
  created_state k none found = elim (Bool-cases (row.case_id == k)) [
    | inl hit ↦ rw (hit) (ap some row_new)
    | inr miss ↦ rw (miss) refl
  ]
  created_state k (some c) found = elim (Bool-cases (row.case_id == k)) [
    | inl hit ↦
        let key : row.case_id ≡ k = (==_iff _ _).0 hit in
        cc (unused_here, ap (λ j. find_case j db.cases) key, found)
    | inr miss ↦ rw (miss) refl
  ]

  created_view : view db' ≡ set row.case_id State.new (view db)
  unfolding view
  created_view =
      λ i k. (ap state_of (created_find codec call args db row db' m k) ∙ created_state k _ refl) i

  Created-Does : Does (opening call.pg.uuid) (view db) (view db')
  unfolding view
  Created-Does =
      let at_uuid = case_is codec call args db row db' m in
      subst (Does (opening call.pg.uuid) (view db))
        (ap (λ k. set k State.new (view db)) (sym at_uuid) ∙ sym created_view)
        (opens call.pg.uuid (ap state_of (unused_find codec call args db row db' m)))

-- The tables behind a call, seen as states: with a row, those before it, as with an earlier answer, or
-- those that the operation makes of what others have left; with an error, what others have left.
abbrev pub Simulates : Operation → World → Db → Outcome RepoError OpsCase × World → Type 0
Simulates op w db (ok row, w') =
    (view w'.committed ≡ view w.committed) ⊎ Does op (view db) (view w'.committed)
Simulates op w db (err e, w') = view w'.committed ≡ view db

module _ (codec : Codec) where
  creation-Simulates :
      (call : Call) (args : CreateCaseArgs) (w : World) (r : Outcome RepoError OpsCase × World)
      → CreationEnds codec call args w r
      → Simulates (opening call.pg.uuid) w (call.others w.committed) r
  creation-Simulates call args w (ok row, w') (_, inl (_, same)) = inl (ap view same)
  creation-Simulates call args w (ok row, w') (_, inr made) =
      inr (Created-Does codec call args _ row _ made)
  creation-Simulates call args w (err e, w') (_, same) = ap view same

  transition-Simulates :
      (call : Call) (args : TransitionArgs) (w : World) (r : Outcome RepoError OpsCase × World)
      → Ends codec call args w r
      → Simulates (moving args.case_id args.event args.ctx) w (call.others w.committed) r
  transition-Simulates call args w (ok row, w') (_, inl (_, same)) = inl (ap view same)
  transition-Simulates call args w (ok row, w') (_, inr moved) =
      inr (Moved-Does codec call args _ row _ moved)
  transition-Simulates call args w (err e, w') (_, same) = ap view same

  flush_view :
      (pg : Postgres) (others : Db → Db) (db : Db) (sent : List Message)
      (r : Outcome RepoError (Unit {0}) × World)
      → Ended db (marked pg others (batch pg others db) db) sent r
      → view r.1.committed ≡ view db
  unfolding view
  flush_view pg others db sent (ok u, w') (_, same, _) = ap view same
  flush_view pg others db sent (err e, w') (_, same) = ap view same

  -- Refinement, call by call: outside a transaction, whatever fails in the call and whatever others
  -- commit before its transaction, the tables seen as a map from ids to states change as the
  -- specification says. Where Transition gives a row, nothing has changed, or the case of its id has
  -- moved by the legal step of its event in its context; where CreateCase does, nothing has changed, or
  -- a case is open in NEW under the new id, which was unused; no other case has changed. An error, and a
  -- flush of the outbox, leave what others have.
  pub calls-Simulates :
      (call : Call) (moved : TransitionArgs) (opened : CreateCaseArgs) (w : World)
      → w.tx ≡ none
      → Simulates
          (moving moved.case_id moved.event moved.ctx)
          w
          (call.others w.committed)
          (transition_call codec call moved w)
        × Simulates
            (opening call.pg.uuid)
            w
            (call.others w.committed)
            (create_case_call codec call opened w)
        × (view (flush call.pg call.others w).1.committed ≡ view (call.others w.committed))
  calls-Simulates call moved opened w closed = (
    transition-Simulates call moved w (transition_call codec call moved w)
        (transition_call-Ends codec call moved w closed),
    creation-Simulates call opened w (create_case_call codec call opened w)
        (create_case_call-Ends codec call opened w closed),
    flush_view call.pg call.others (call.others w.committed) _ (flush call.pg call.others w)
        (flush-Ended call.pg call.others w closed),
  )
