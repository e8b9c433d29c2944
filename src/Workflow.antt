-- ===== src/Workflow.antt =====
-- llm-ops-agent/workflow/workflow.go: the state machine of an operations case.
-- `State` and `Event` are Go string types. A text that is no declared constant is `other`, and
-- `State.of_text` reads a text as the conversion `State(s)` does.
pub mod State
pub mod Event
pub mod Decide
pub mod Steps
pub mod Refusals
pub mod Paths
pub mod Names
mod Examples
