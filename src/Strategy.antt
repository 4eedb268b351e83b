-- ===== src/Strategy.antt =====
-- The strategy engine, src/strategy: the `StrategyDecision` that it hands on, and the registry of strategies.
pub mod Decision
pub mod Registry
pub mod Regime
pub mod Wire
