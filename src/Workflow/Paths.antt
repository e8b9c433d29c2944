-- ===== src/Workflow/Paths.antt =====
-- Sequences of decisions and of legal steps: what must have happened before a state is reached.
use xscope_hub.Prelude.{
  ◌≡◌, ◌≢◌, ◌⊎◌, inl, inr, refl, true, false, Bool, List, [], ◌∷◌, ap, Bytes, Outcome, ok, err,
  subst, ◌∙◌,
}
use xscope_hub.Workflow.State.{
  State, new, analyzing, planning, wait_gate, executing, verifying, closed, parked,
}
use xscope_hub.Workflow.Event.{Event, plan_ready, gate_approved, verify_pass, force_park}
use xscope_hub.Workflow.Decide.{Context, DecideError, TransitionIntent, decide}
use xscope_hub.Workflow.Steps.{Step, IsActive, Step-of-decide, decide-of-Step, intent_of-to}

pub data Run : State → List (Event × Context) → State → Type 0 where
  done : {s : State} → Run s [] s
  next :
      {s t u : State} {ev : Event} {ctx : Context} {es : List (Event × Context)}
      → Step ctx s ev t
      → Run t es u
      → Run s ((ev, ctx) ∷ es) u

-- The state after a sequence of events, each of which `Decide` is asked for, or its first error.
abbrev pub next_state :
    Outcome DecideError TransitionIntent
    → (State → Outcome DecideError State)
    → Outcome DecideError State
next_state (ok intent) later = later intent.to
next_state (err e) later = err e

unfoldable pub decide_all : Bytes → State → List (Event × Context) → Outcome DecideError State
unfolding decide
decide_all id s [] = ok s
decide_all id s ((ev, ctx) ∷ es) = next_state (decide s ev ctx id) λ t. decide_all id t es

Run-of-next :
    (id : Bytes) (s : State) (ev : Event) (ctx : Context) (es : List (Event × Context)) {u : State}
    (o : Outcome DecideError TransitionIntent)
    → decide s ev ctx id ≡ o
    → ((t : State) → decide_all id t es ≡ ok u → Run t es u)
    → next_state o (λ t. decide_all id t es) ≡ ok u
    → Run s ((ev, ctx) ∷ es) u
Run-of-next id s ev ctx es (ok i) is later h = next (Step-of-decide s ev ctx id is).0 (later i.to h)
Run-of-next id s ev ctx es (err e) is later h = cc h

-- What `Decide` allows, event by event, is a run of legal steps, and the other way round.
Run-of-decide_all :
    (id : Bytes) (s : State) (es : List (Event × Context)) {u : State}
    → decide_all id s es ≡ ok u
    → Run s es u
unfolding decide_all
Run-of-decide_all id s [] {u} h = let same : s ≡ u = cc h in subst (Run s []) same done
Run-of-decide_all id s ((ev, ctx) ∷ es) h =
    Run-of-next id s ev ctx es (decide s ev ctx id) refl (λ t. Run-of-decide_all id t es) h

decide_all-of-Run :
    (id : Bytes) {s t : State} {es : List (Event × Context)}
    → Run s es t
    → decide_all id s es ≡ ok t
unfolding decide_all
decide_all-of-Run id done = refl
decide_all-of-Run id {s} (next {t = t} {ev} {ctx} {es} st r) =
    ap (λ o. next_state o λ u. decide_all id u es) (decide-of-Step id st)
    ∙ ap (λ u. decide_all id u es) (intent_of-to s t ev ctx id refl)
    ∙ decide_all-of-Run id r

-- Some step is `gate_approved`, with both of its flags set.
abbrev pub HasApproval : List (Event × Context) → Type 0
HasApproval [] = ⊥
HasApproval ((ev, ctx) ∷ es) =
    ((ev ≡ gate_approved) × (ctx.gate_approved ≡ true) × (ctx.change_window ≡ true))
    ⊎ HasApproval es

-- Some step is `verify_pass`, with its flag set.
abbrev pub HasVerification : List (Event × Context) → Type 0
HasVerification [] = ⊥
HasVerification ((ev, ctx) ∷ es) =
    ((ev ≡ verify_pass) × (ctx.verify_passed ≡ true)) ⊎ HasVerification es

-- The states behind the gate.
abbrev pub is_past_gate : State → Bool
is_past_gate executing = true
is_past_gate verifying = true
is_past_gate closed = true
is_past_gate _ = false

abbrev pub is_closed : State → Bool
is_closed closed = true
is_closed _ = false

pub step_gate :
    {ctx : Context} {s t : State} {ev : Event}
    → Step ctx s ev t
    → is_past_gate s ≡ false
    → ((ev ≡ gate_approved) × (ctx.gate_approved ≡ true) × (ctx.change_window ≡ true))
      ⊎ (is_past_gate t ≡ false)
step_gate (Step.approved p w) h = inl (refl, p, w)
step_gate (Step.executed) h = cc
step_gate (Step.verified p) h = cc
step_gate Step.begin h = inr refl
step_gate _ h = inr refl

past_gate-Run :
    {s t : State} {es : List (Event × Context)}
    → Run s es t
    → is_past_gate s ≡ false
    → is_past_gate t ≡ true
    → HasApproval es
past_gate-Run done h k = cc
past_gate-Run (next st r) h k = elim (step_gate st h) [
  | inl a ↦ inl a
  | inr still ↦ inr (past_gate-Run r still k)
]

-- Where `Decide`, asked for one event after another, leads from a state that is not past the gate to
-- one that is, one of the events is `gate_approved`, with a context that sets both the approval and
-- the change window.
pub past_gate_approved :
    (id : Bytes) (s t : State) (es : List (Event × Context))
    → decide_all id s es ≡ ok t
    → is_past_gate s ≡ false
    → is_past_gate t ≡ true
    → HasApproval es
past_gate_approved id s t es led = past_gate-Run (Run-of-decide_all id s es led)

step_closed :
    {ctx : Context} {s t : State} {ev : Event}
    → Step ctx s ev t
    → ((ev ≡ verify_pass) × (ctx.verify_passed ≡ true)) ⊎ (is_closed t ≡ false)
step_closed (Step.verified p) = inl (refl, p)
step_closed Step.begin = inr refl
step_closed _ = inr refl

closed-Run :
    {s t : State} {es : List (Event × Context)}
    → Run s es t
    → is_closed s ≡ false
    → is_closed t ≡ true
    → HasVerification es
closed-Run done h k = cc
closed-Run (next st r) h k = elim (step_closed st) [
  | inl v ↦ inl v
  | inr still ↦ inr (closed-Run r still k)
]

-- Where `Decide`, asked for one event after another, leads from a state that is not CLOSED to CLOSED,
-- one of the events is `verify_pass`, with a context that sets `VerifyPassed`.
pub closed_verified :
    (id : Bytes) (s t : State) (es : List (Event × Context))
    → decide_all id s es ≡ ok t
    → is_closed s ≡ false
    → is_closed t ≡ true
    → HasVerification es
closed_verified id s t es led = closed-Run (Run-of-decide_all id s es led)

active_not_closed : {s : State} → IsActive s → is_closed s ≡ false
active_not_closed IsActive.new_active = refl
active_not_closed _ = refl

no_step_from_closed :
    {ctx : Context} {s t : State} {ev : Event} → Step ctx s ev t → is_closed s ≡ false
no_step_from_closed (Step.park a) = active_not_closed a
no_step_from_closed Step.begin = refl
no_step_from_closed _ = refl

-- A closed case takes no further step.
pub closed_is_final :
    {s t : State} {es : List (Event × Context)} → Run s es t → s ≡ closed → (es ≡ []) × (t ≡ closed)
closed_is_final done e = (refl, e)
closed_is_final (next st r) e = cc (no_step_from_closed st, ap is_closed e)

-- Whatever the contexts say, a new case that is parked and then takes `plan_ready` is at the gate by
-- legal steps.
gate_without_plan : (c d : Context) → Run new ((force_park, c) ∷ (plan_ready, d) ∷ []) wait_gate
gate_without_plan c d = next (Step.park IsActive.new_active) (next Step.resume done)

-- What every guard asks for.
pub record Grants (c : Context) : Type 0 where
  pub plan : c.plan_complete ≡ true
  pub gate : c.gate_approved ≡ true
  pub window : c.change_window ≡ true
  pub verify : c.verify_passed ≡ true

abbrev Closable : State → Type 0
Closable s = (es : List (Event × Context)) × Run s es closed

module _ (c : Context) (g : Grants c) where
  before : {s t : State} {ev : Event} → Step c s ev t → Closable t → Closable s
  before {ev = ev} st (es, r) = ((ev, c) ∷ es, next st r)

  from_verifying : Closable verifying
  from_verifying = before (Step.verified g.verify) ([], done)

  from_executing : Closable executing
  from_executing = before Step.executed from_verifying

  from_wait_gate : Closable wait_gate
  from_wait_gate = before (Step.approved g.gate g.window) from_executing

  from_planning : Closable planning
  from_planning = before (Step.planned g.plan) from_wait_gate

  from_analyzing : Closable analyzing
  from_analyzing = before Step.analyzed from_planning

  run_to_closed : (s : State) → ((t : Bytes) → s ≢ State.other t) → Closable s
  run_to_closed new h = before Step.begin from_analyzing
  run_to_closed analyzing h = from_analyzing
  run_to_closed planning h = from_planning
  run_to_closed wait_gate h = from_wait_gate
  run_to_closed executing h = from_executing
  run_to_closed verifying h = from_verifying
  run_to_closed closed h = ([], done)
  run_to_closed parked h = before Step.restart from_analyzing
  run_to_closed (State.other t) h = absurd (h t refl)

  -- With a context that grants what every guard asks, `Decide`, asked for some events one after
  -- another, leads from each declared state to CLOSED.
  pub can_close :
      (id : Bytes) (s : State)
      → ((t : Bytes) → s ≢ State.other t)
      → (es : List (Event × Context)) × (decide_all id s es ≡ ok closed)
  can_close id s h = let (es, r) = run_to_closed s h in (es, decide_all-of-Run id r)
