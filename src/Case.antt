-- ===== src/Case.antt =====
-- The operations cases of llm-ops-agent: its tables and queries, the repository that changes them
-- in transactions, the HTTP handlers before it and the publisher behind its outbox.
pub mod Tables
pub mod Session
pub mod Queries
pub mod Repository
pub mod Handlers
pub mod Publisher
pub mod History
pub mod Routes
mod Examples
