-- ===== src/Case/Handlers/Gate.antt =====
-- What the handlers make of a request's headers.
use xscope_hub.Prelude.{ℕ, Bytes, false, ◌≡◌, inl, inr, refl, ◌∷◌}
use xscope_hub.Prelude.Strconv.{digits, digits_from, parse_int}
use xscope_hub.Workflow.State.{State}
use xscope_hub.Workflow.Steps.{Step}
use xscope_hub.Workflow.Paths.{is_past_gate, step_gate}
use xscope_hub.Case.Tables.{OpsCase}
use xscope_hub.Case.Repository.{version_conflicts}
use xscope_hub.Case.Handlers.{HttpCall, if_match_version, transition_args}

-- A legal step from a state that is not past the gate, with the context and the event that the
-- transition handler makes of a request, leads to a state that is not past it either, whatever the
-- request says.
pub transition_args-gate :
    (r : HttpCall) (uid : ℕ) (event : Bytes) {s t : State}
    → Step (transition_args r uid event).ctx s (transition_args r uid event).event t
    → is_past_gate s ≡ false
    → is_past_gate t ≡ false
unfolding transition_args
transition_args-gate r uid event st before = elim (step_gate st before) [
  | inl (_, approved, _) ↦ cc
  | inr still ↦ still
]

-- An If-Match header that begins with the letter W, as a weak entity tag does, conflicts with no
-- version of any row.
if_match_version-weak :
    (rest : Bytes) (row : OpsCase) → version_conflicts (if_match_version (87 ∷ rest)) row ≡ false
unfolding if_match_version parse_int digits digits_from
if_match_version-weak rest row = refl
