-- ===== src/Workflow/Names.antt =====
-- The texts of the states and events: what is stored in a column or sent by a client.
use xscope_hub.Prelude.{
  Bytes, same, same_iff, ◌≡◌, Bool-cases, inl, inr, sym, ◌∙◌, refl, if◌then◌else◌,
}
use xscope_hub.Workflow.State
use xscope_hub.Workflow.Event
use xscope_hub.Workflow.State.{State}
use xscope_hub.Workflow.Event.{Event}

module _ {A : Type 0} (to_text : A → Bytes) (t : Bytes) where
  -- One row of a chain of string comparisons.
  row :
      {rest : A} (k : Bytes) (a : A)
      → to_text a ≡ k
      → to_text rest ≡ t
      → to_text (if same t k then a else rest) ≡ t
  row k a known later = elim (Bool-cases (same t k)) [
    | inl hit ↦ rw hit (known ∙ sym ((same_iff t k).0 hit))
    | inr miss ↦ rw miss later
  ]

-- Reading a status text and writing it back gives the same text, for every text.
State_text : (t : Bytes) → State.to_text (State.of_text t) ≡ t
unfolding State.of_text State.to_text
State_text t = row State.to_text t _ State.new refl (
    row State.to_text t _ State.analyzing refl (
      row State.to_text t _ State.planning refl (
        row State.to_text t _ State.wait_gate refl (
          row State.to_text t _ State.executing refl (
            row State.to_text t _ State.verifying refl (
              row State.to_text t _ State.closed refl
                (row State.to_text t _ State.parked refl refl)))))))

-- Reading an event's text and writing it back gives the same text, for every text.
Event_text : (t : Bytes) → Event.to_text (Event.of_text t) ≡ t
unfolding Event.of_text Event.to_text
Event_text t = row Event.to_text t _ Event.start_analysis refl (
    row Event.to_text t _ Event.analysis_done refl (
      row Event.to_text t _ Event.analysis_failed refl (
        row Event.to_text t _ Event.plan_ready refl (
          row Event.to_text t _ Event.plan_failed refl (
            row Event.to_text t _ Event.gate_approved refl (
              row Event.to_text t _ Event.gate_rejected refl (
                row Event.to_text t _ Event.exec_done refl (
                  row Event.to_text t _ Event.exec_failed refl (
                    row Event.to_text t _ Event.verify_pass refl (
                      row Event.to_text t _ Event.verify_failed refl
                        (row Event.to_text t _ Event.force_park refl refl)))))))))))
