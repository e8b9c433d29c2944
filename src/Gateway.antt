-- ===== src/Gateway.antt =====
-- observe-gateway: the HTTP service that takes queries of tenants, limits and caches them, and
-- sends them to OpenObserve.
pub mod Text
pub mod Translate
pub mod Query
pub mod Cache
pub mod Audit
pub mod Limiter
pub mod Backend
pub mod Auth
pub mod Server
pub mod Config
pub mod Start
pub mod Run
pub mod Wired
mod Examples
