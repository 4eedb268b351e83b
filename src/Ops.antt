-- ===== src/Ops.antt =====
-- The operations package, src/ops: health, start-up, deployments and alerts.
pub mod Health
pub mod Platform
pub mod Startup
pub mod Releases
pub mod Gate
pub mod Wire
pub mod Metrics
