-- ===== src/Workflow/Examples.antt =====
-- Runs of the state machine on concrete cases.
use xscope_hub.Prelude.{codes, ◌≡◌, ◌↔◌, refl, true, false, ok, List, [], ◌∷◌}
use xscope_hub.Prelude.Clock.{zero_time}
use xscope_hub.Workflow.State.{planning, wait_gate, parked, executing, verifying, closed}
use xscope_hub.Workflow.Event.{Event, plan_ready, gate_approved, exec_done, verify_pass}
use xscope_hub.Workflow.Decide.{Context, decide, intent_of}
use xscope_hub.Workflow.Steps.{Step, decide-iff-Step}
use xscope_hub.Workflow.Paths.{
  decide_all, HasApproval, HasVerification, Grants, past_gate_approved, closed_verified, can_close,
}

abbrev bare : Context
bare = record {
  now = zero_time;
  plan_complete = false;
  gate_approved = false;
  change_window = false;
  verify_passed = false;
  reason = [];
  actor = codes "alice";
  idem_key = [];
  extras = [];
}

abbrev granted : Context
granted = record bare {
  plan_complete = true;
  gate_approved = true;
  change_window = true;
  verify_passed = true;
}

abbrev granted-Grants : Grants granted
granted-Grants = record { plan = refl; gate = refl; window = refl; verify = refl }

decide-iff-Step_example :
    (decide planning plan_ready granted (codes "7")
      ≡ ok (intent_of planning wait_gate plan_ready granted (codes "7")))
    ↔ Step granted planning plan_ready wait_gate
decide-iff-Step_example = decide-iff-Step planning wait_gate plan_ready granted (codes "7")

past_gate_approved_example : HasApproval ((gate_approved, granted) ∷ (exec_done, bare) ∷ [])
unfolding decide_all intent_of
past_gate_approved_example =
    past_gate_approved (codes "7") wait_gate verifying
      ((gate_approved, granted) ∷ (exec_done, bare) ∷ []) refl refl refl

closed_verified_example : HasVerification ((exec_done, bare) ∷ (verify_pass, granted) ∷ [])
unfolding decide_all intent_of
closed_verified_example =
    closed_verified (codes "7") executing closed ((exec_done, bare) ∷ (verify_pass, granted) ∷ [])
      refl refl refl

can_close_example : (es : List (Event × Context)) × (decide_all (codes "7") parked es ≡ ok closed)
can_close_example = can_close granted granted-Grants (codes "7") parked (λ t e. cc)
