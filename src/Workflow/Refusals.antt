-- ===== src/Workflow/Refusals.antt =====
-- Which error `Decide` gives where the relation of legal steps has no step.
use xscope_hub.Prelude.{Bytes, true, err, ◌≡◌, ◌⊎◌, inl, inr, refl}
use xscope_hub.Workflow.State.{State, wait_gate, closed, executing}
use xscope_hub.Workflow.Event.{Event}
use xscope_hub.Workflow.Decide.{Context, DecideError, illegal, guard_failed, decide}
use xscope_hub.Workflow.Steps.{Step, decide-of-Step, decide-of-illegal, decide-guard_failed}

-- In some context the event leads on, or in the given one.
abbrev pub Possible : State → Event → Type 0
Possible s ev = (c : Context) × (t : State) × Step c s ev t

abbrev pub Allowed : Context → State → Event → Type 0
Allowed ctx s ev = (t : State) × Step ctx s ev t

-- Why an event is refused: it leads nowhere in any context, or it would in another context.
abbrev pub Refusal : State → Event → DecideError → Type 0
Refusal s ev e = ((e ≡ illegal) × ¬ Possible s ev) ⊎ ((e ≡ guard_failed) × Possible s ev)

module _ (s : State) (ev : Event) (ctx : Context) (id : Bytes) where
  pub not-Allowed : (e : DecideError) → decide s ev ctx id ≡ err e → ¬ Allowed ctx s ev
  not-Allowed e refused (t, step) = cc (refused, decide-of-Step id step)

  illegal-not-Possible : decide s ev ctx id ≡ err illegal → ¬ Possible s ev
  illegal-not-Possible refused (c, t, step) =
      let missing = (decide-of-illegal s ev ctx id).0 refused in
      cc ((decide-of-illegal s ev c id).1 missing, decide-of-Step id step)

  abbrev granting : Context
  granting = record ctx {
    plan_complete = true;
    gate_approved = true;
    change_window = true;
    verify_passed = true;
  }

  guarded-Possible : decide s ev ctx id ≡ err guard_failed → Possible s ev
  guarded-Possible refused = elim ((decide-guard_failed s ev ctx id).0 refused) [
    | inl (at, by, _) ↦ rw (at, by) (granting, wait_gate, Step.planned refl)
    | inr (inl (at, by, _)) ↦ rw (at, by) (granting, executing, Step.approved refl refl)
    | inr (inr (at, by, _)) ↦ rw (at, by) (granting, closed, Step.verified refl)
  ]

  pub decide-Refusal : (e : DecideError) → decide s ev ctx id ≡ err e → Refusal s ev e
  decide-Refusal illegal h = inl (refl, illegal-not-Possible h)
  decide-Refusal guard_failed h = inr (refl, guarded-Possible h)
