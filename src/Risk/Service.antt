-- ===== src/Risk/Service.antt =====
-- `RiskService.decide` (src/risk/service.py), with the state of the breaker's lock file: validators,
-- then sizing rules, then the circuit breaker, then the checked `ExecutionDecision`.
mod Defs
mod Checks
mod Conclude
pub mod Contract
pub mod Safety
unfoldable pub use Defs.*
