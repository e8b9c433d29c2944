-- ===== src/Agent.antt =====
-- llm-ops-agent apart from its cases: the daemon, the settings, the analysis of traces, and the server
-- that stands before the cases.
pub mod Daemon
pub mod Settings
pub mod Analysis
pub mod Server
mod Examples
