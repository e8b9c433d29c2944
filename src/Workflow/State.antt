-- ===== src/Workflow/State.antt =====
-- `State` of llm-ops-agent/workflow/workflow.go.
use xscope_hub.Prelude.{Bytes, codes, same, if◌then◌else◌}

pub data State : Type 0 where
  new analyzing planning wait_gate executing verifying closed parked : State
  other : Bytes → State

-- `string(s)`
unfoldable pub to_text : State → Bytes
to_text new = codes "NEW"
to_text analyzing = codes "ANALYZING"
to_text planning = codes "PLANNING"
to_text wait_gate = codes "WAIT_GATE"
to_text executing = codes "EXECUTING"
to_text verifying = codes "VERIFYING"
to_text closed = codes "CLOSED"
to_text parked = codes "PARKED"
to_text (other t) = t

-- `State(s)`: which constant a text is
unfoldable pub of_text : Bytes → State
unfolding same
of_text t =
    if same t (codes "NEW")
    then new
    else if same t (codes "ANALYZING")
    then analyzing
    else if same t (codes "PLANNING")
    then planning
    else if same t (codes "WAIT_GATE")
    then wait_gate
    else if same t (codes "EXECUTING")
    then executing
    else if same t (codes "VERIFYING")
    then verifying
    else if same t (codes "CLOSED")
    then closed
    else if same t (codes "PARKED")
    then parked
    else other t
