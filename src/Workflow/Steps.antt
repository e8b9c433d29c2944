-- ===== src/Workflow/Steps.antt =====
-- `Decide` against a relation that describes one legal step.
use xscope_hub.Prelude.{
  Bytes, ◌≡◌, true, false, false, ok, err, none, some, arith, refl, ◌&&◌, ◌⊎◌, ◌↔◌, inl, inr,
  Option-cases, sym, subst,
}
use xscope_hub.Workflow.State.{
  State, new, analyzing, planning, wait_gate, executing, verifying, closed, parked,
}
use xscope_hub.Workflow.Event.{
  Event, start_analysis, analysis_done, analysis_failed, plan_ready, plan_failed, gate_approved,
  gate_rejected, exec_done, exec_failed, verify_pass, verify_failed, force_park,
}
use xscope_hub.Workflow.Decide.{
  Context, TransitionIntent, illegal, guard_failed, table, guards, run_guard, intent_of, decide,
}

-- Where `force_park` is allowed.
pub data IsActive : State → Type 0 where
  new_active : IsActive new
  analyzing_active : IsActive analyzing
  planning_active : IsActive planning
  wait_gate_active : IsActive wait_gate
  executing_active : IsActive executing
  verifying_active : IsActive verifying

pub data Step (ctx : Context) : State → Event → State → Type 0 where
  begin : Step ctx new start_analysis analyzing
  analyzed : Step ctx analyzing analysis_done planning
  not_analyzed : Step ctx analyzing analysis_failed parked
  planned : ctx.plan_complete ≡ true → Step ctx planning plan_ready wait_gate
  not_planned : Step ctx planning plan_failed parked
  approved :
      ctx.gate_approved ≡ true
      → ctx.change_window ≡ true
      → Step ctx wait_gate gate_approved executing
  rejected : Step ctx wait_gate gate_rejected parked
  executed : Step ctx executing exec_done verifying
  not_executed : Step ctx executing exec_failed parked
  verified : ctx.verify_passed ≡ true → Step ctx verifying verify_pass closed
  not_verified : Step ctx verifying verify_failed parked
  restart : Step ctx parked start_analysis analyzing
  resume : Step ctx parked plan_ready wait_gate
  park : {s : State} → IsActive s → Step ctx s force_park parked

pub ruleset active_states = (
  new_active, analyzing_active, planning_active, wait_gate_active, executing_active,
  verifying_active,
)

pub ruleset step_rules = (
  begin, analyzed, not_analyzed, planned, not_planned, approved, rejected, executed, not_executed,
  verified, not_verified, restart, resume, park, active_states,
)

Step-of-table :
    (from to : State) (ev : Event) (ctx : Context)
    → table from ev ≡ some to
    → run_guard (guards from ev) ctx ≡ none
    → Step ctx from ev to
unfolding table guards run_guard
Step-of-table from to ev ctx t g = grind (arith, step_rules)

-- What a success of `decide` says of the table and the guard.
decide-eq-ok :
    (from : State) (ev : Event) (ctx : Context) (case_id : Bytes) {i : TransitionIntent}
    → decide from ev ctx case_id ≡ ok i
    → (to : State) × (table from ev ≡ some to)
      × (run_guard (guards from ev) ctx ≡ none)
      × (i ≡ intent_of from to ev ctx case_id)
unfolding decide
decide-eq-ok from ev ctx case_id h = elim (Option-cases (table from ev)) [
  | inl missing ↦ ground arith
  | inr (to, found) ↦ (to, found, ground arith, ground arith)
]

pub intent_of-to :
    (from to : State) (ev : Event) (ctx : Context) (case_id : Bytes) {i : TransitionIntent}
    → i ≡ intent_of from to ev ctx case_id
    → i.to ≡ to
unfolding intent_of
intent_of-to from to ev ctx case_id e = cc

-- A transition that `decide` allows is a legal step, and the intent records it.
pub Step-of-decide :
    (from : State) (ev : Event) (ctx : Context) (case_id : Bytes) {i : TransitionIntent}
    → decide from ev ctx case_id ≡ ok i
    → Step ctx from ev i.to × (i ≡ intent_of from i.to ev ctx case_id)
Step-of-decide from ev ctx case_id {i} h =
    let (to, found, passed, e) = decide-eq-ok from ev ctx case_id h in
    let to_eq = intent_of-to from to ev ctx case_id e in
    (
      subst (λ s. Step ctx from ev s) (sym to_eq) (Step-of-table from to ev ctx found passed),
      subst (λ s. i ≡ intent_of from s ev ctx case_id) (sym to_eq) e,
    )

-- A legal step is allowed, with the intent that records it.
pub decide-of-Step :
    {from to : State} {ev : Event} {ctx : Context} (case_id : Bytes)
    → Step ctx from ev to
    → decide from ev ctx case_id ≡ ok (intent_of from to ev ctx case_id)
unfolding decide
decide-of-Step case_id begin = ground arith
decide-of-Step case_id (park new_active) = ground arith
decide-of-Step case_id (park analyzing_active) = ground arith
decide-of-Step case_id (park planning_active) = ground arith
decide-of-Step case_id (park wait_gate_active) = ground arith
decide-of-Step case_id (park executing_active) = ground arith
decide-of-Step case_id (park verifying_active) = ground arith
decide-of-Step case_id (planned p) = ground arith
decide-of-Step case_id (approved p w) = ground arith
decide-of-Step case_id (verified p) = ground arith
decide-of-Step case_id _ = ground arith

-- `decide` gives the intent of a move from one state to another exactly where that is a legal step.
pub decide-iff-Step :
    (from to : State) (ev : Event) (ctx : Context) (case_id : Bytes)
    → (decide from ev ctx case_id ≡ ok (intent_of from to ev ctx case_id)) ↔ Step ctx from ev to
decide-iff-Step from to ev ctx case_id = (
  λ h.
      subst (λ s. Step ctx from ev s) (intent_of-to from to ev ctx case_id refl)
        (Step-of-decide from ev ctx case_id h).0,
  decide-of-Step case_id,
)

-- `decide` refuses with `guard_failed` exactly at the three guarded rows, where the context lacks
-- what the row asks.
pub decide-guard_failed :
    (from : State) (ev : Event) (ctx : Context) (case_id : Bytes)
    → (decide from ev ctx case_id ≡ err guard_failed) ↔ (
        ((from ≡ planning) × (ev ≡ plan_ready) × (ctx.plan_complete ≡ false))
        ⊎ ((from ≡ wait_gate)
            × (ev ≡ gate_approved)
            × (ctx.gate_approved && ctx.change_window ≡ false))
        ⊎ ((from ≡ verifying) × (ev ≡ verify_pass) × (ctx.verify_passed ≡ false)))
unfolding decide table guards run_guard
decide-guard_failed from ev ctx case_id = ground arith

-- `decide` refuses with `illegal` exactly where the table has no entry.
pub decide-of-illegal :
    (from : State) (ev : Event) (ctx : Context) (case_id : Bytes)
    → (decide from ev ctx case_id ≡ err illegal) ↔ (table from ev ≡ none)
unfolding decide table guards run_guard
decide-of-illegal from ev ctx case_id = ground arith
