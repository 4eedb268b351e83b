-- ===== src/Risk.antt =====
-- The risk manager, src/risk: portfolio and account snapshots, the limits, the validators and
-- sizing rules, the drawdown circuit breaker with its lock file, and `RiskService.decide`.
pub mod Portfolio
pub mod Exposure
pub mod Decision
pub mod Breaker
pub mod Validators
pub mod Sizing
pub mod Service
pub mod Wire
