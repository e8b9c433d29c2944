-- ===== src/Case/History/Timeline.antt =====
-- What a new row of the timeline and a new status make of the history of a case.
pub mod Moving
pub mod Opening
use mathlib.Core.List.{map-append}
use xscope_hub.Prelude.{
  ℕ, ◌+◌, Bytes, codes, true, false, ◌&&◌, Option, none, some, List, [], ◌∷◌, ◌++◌, ◌≡◌, refl, sym,
  ap, subst, ◌∙◌, if◌then◌else◌, ◌==◌, map, arith, Time, Bool-cases, inl, inr, length-append,
  append-nil, ==_iff,
}
use xscope_hub.Workflow.State
use xscope_hub.Workflow.Event
use xscope_hub.Workflow.State.{State}
use xscope_hub.Workflow.Event.{Event}
use xscope_hub.Workflow.Decide.{Context, intent_of}
use xscope_hub.Workflow.Steps.{Step}
use xscope_hub.Workflow.Paths.{Run, done, next}
use xscope_hub.Case.Tables.{OpsCase, CaseTimeline, Outbox, Db, find_case}
use xscope_hub.Case.Queries.{UpdateCaseStatusParams, set_status}
use xscope_hub.Case.Repository.{Codec, Call, TransitionArgs, CreateCaseArgs}
use xscope_hub.Case.Repository.Moves.{Moved, case_id-of-find}
use xscope_hub.Case.Repository.Creations.{Created, first_row}
use xscope_hub.Case.History.{events_of, event_text, Traced, Announced, aggregate_of, History}

events_of-append :
    (k : ℕ) (ts us : List CaseTimeline) → events_of k (ts ++ us) ≡ events_of k ts ++ events_of k us
unfolding events_of
events_of-append k [] us = refl
events_of-append k (t ∷ ts) us = ground (arith, events_of-append k ts us)

-- The row that `set_status` makes of a row.
abbrev pub updated : Time → UpdateCaseStatusParams → OpsCase → OpsCase
updated now p c =
    if c.case_id == p.case_id && c.version == p.version
    then record c { status = p.status; updated_at = now; version = c.version + 1 }
    else c

abbrev pub map_option : {A : Type 0} → (A → A) → Option A → Option A
map_option f none = none
map_option f (some a) = some (f a)

pub find_case-set_status :
    (now : Time) (p : UpdateCaseStatusParams) (k : ℕ) (cs : List OpsCase)
    → find_case k (set_status now p cs) ≡ map_option (updated now p) (find_case k cs)
unfolding find_case set_status
find_case-set_status now p k [] = refl
find_case-set_status now p k (c ∷ cs) = ground (arith, find_case-set_status now p k cs)

pub find_case-append :
    (k : ℕ) (cs : List OpsCase) (c : OpsCase)
    → find_case k (cs ++ c ∷ [])
      ≡ (elim (find_case k cs) [ some d ↦ some d | none ↦ if c.case_id == k then some c else none ])
unfolding find_case
find_case-append k [] c = refl
find_case-append k (d ∷ cs) c = ground (arith, find_case-append k cs c)

-- The target of a step is a declared state, which its text names.
pub Step_target :
    {ctx : Context} {s t : State} {ev : Event}
    → Step ctx s ev t
    → State.of_text (State.to_text t) ≡ t
unfolding State.of_text State.to_text
Step_target Step.begin = refl
Step_target _ = refl

pub new_text : State.of_text (State.to_text State.new) ≡ State.new
unfolding State.of_text State.to_text
new_text = refl

pub append_step :
    {s t u : State} {ev : Event} {ctx : Context} {es : List (Event × Context)}
    → Run s es t
    → Step ctx t ev u
    → Run s (es ++ (ev, ctx) ∷ []) u
append_step done st = next st done
append_step (next first r) st = next first (append_step r st)

module _ (db db' : Db) (c : OpsCase) (h : Traced db c) where
  pub Traced-stays :
      events_of c.case_id db'.timeline ≡ events_of c.case_id db.timeline → Traced db' c
  Traced-stays e = record {
    steps = h.steps;
    run = h.run;
    events_are = e ∙ h.events_are;
    version_is = h.version_is;
  }

  -- The row behind a legal step, which its timeline notes.
  pub Traced-moves :
      (now : Time) (ev : Event) (ctx : Context) (to : State)
      → Step ctx (State.of_text c.status) ev to
      → events_of c.case_id db'.timeline
        ≡ events_of c.case_id db.timeline ++ some (Event.to_text ev) ∷ []
      → Traced db'
          (record c { status = State.to_text to; updated_at = now; version = c.version + 1 })
  Traced-moves now ev ctx to legal e = record {
    steps = h.steps ++ (ev, ctx) ∷ [];
    run = subst (Run State.new _) (sym (Step_target legal)) (append_step h.run legal);
    events_are =
        e
        ∙ ap (λ l. l ++ some (Event.to_text ev) ∷ []) h.events_are
        ∙ ap (λ l. some (codes "case_created") ∷ l)
            (sym (map-append event_text h.steps ((ev, ctx) ∷ [])));
    version_is = omega (arith, h.version_is, length-append h.steps ((ev, ctx) ∷ []));
  }

pub events_of-one :
    (k : ℕ) (ts : List CaseTimeline) (t : CaseTimeline)
    → events_of k (ts ++ t ∷ []) ≡ events_of k ts ++ (if t.case_id == k then t.event ∷ [] else [])
unfolding events_of
events_of-one k ts t = events_of-append k ts (t ∷ [])

abbrev timeline_case : (ℕ → Bytes) → CaseTimeline → Option Bytes
timeline_case uuid_text t = some (uuid_text t.case_id)

pub announce_one :
    (uuid_text : ℕ → Bytes) (db db' : Db) (t : CaseTimeline) (r : Outbox)
    → db'.timeline ≡ db.timeline ++ t ∷ []
    → db'.outbox ≡ db.outbox ++ r ∷ []
    → aggregate_of r ≡ timeline_case uuid_text t
    → Announced uuid_text db
    → Announced uuid_text db'
announce_one uuid_text db db' t r timeline_is outbox_is e h =
    ap (map aggregate_of) outbox_is
    ∙ map-append aggregate_of db.outbox (r ∷ [])
    ∙ ap (λ l. l ++ aggregate_of r ∷ []) h
    ∙ ap (λ a. map (timeline_case uuid_text) db.timeline ++ a ∷ []) e
    ∙ sym (map-append (timeline_case uuid_text) db.timeline (t ∷ []))
    ∙ ap (map (timeline_case uuid_text)) (sym timeline_is)
