-- ===== src/Bridge.antt =====
-- observe-bridge: the ETL service, which streams records of OpenObserve and triggers jobs.
pub mod Config
pub mod Window
pub mod Stream
pub mod Jobs
pub mod Server
pub mod Graph
pub mod Command
mod Examples
