-- ===== src/Workflow/Event.antt =====
-- `Event` of llm-ops-agent/workflow/workflow.go.
use xscope_hub.Prelude.{Bytes, codes, same, if◌then◌else◌}

pub data Event : Type 0 where
  start_analysis analysis_done analysis_failed plan_ready plan_failed : Event
  gate_approved gate_rejected exec_done exec_failed verify_pass verify_failed force_park : Event
  other : Bytes → Event

-- `string(ev)`
unfoldable pub to_text : Event → Bytes
to_text start_analysis = codes "start_analysis"
to_text analysis_done = codes "analysis_done"
to_text analysis_failed = codes "analysis_failed"
to_text plan_ready = codes "plan_ready"
to_text plan_failed = codes "plan_failed"
to_text gate_approved = codes "gate_approved"
to_text gate_rejected = codes "gate_rejected"
to_text exec_done = codes "exec_done"
to_text exec_failed = codes "exec_failed"
to_text verify_pass = codes "verify_pass"
to_text verify_failed = codes "verify_failed"
to_text force_park = codes "force_park"
to_text (other t) = t

-- `Event(s)`: which constant a text is
unfoldable pub of_text : Bytes → Event
unfolding same
of_text t =
    if same t (codes "start_analysis")
    then start_analysis
    else if same t (codes "analysis_done")
    then analysis_done
    else if same t (codes "analysis_failed")
    then analysis_failed
    else if same t (codes "plan_ready")
    then plan_ready
    else if same t (codes "plan_failed")
    then plan_failed
    else if same t (codes "gate_approved")
    then gate_approved
    else if same t (codes "gate_rejected")
    then gate_rejected
    else if same t (codes "exec_done")
    then exec_done
    else if same t (codes "exec_failed")
    then exec_failed
    else if same t (codes "verify_pass")
    then verify_pass
    else if same t (codes "verify_failed")
    then verify_failed
    else if same t (codes "force_park")
    then force_park
    else other t
