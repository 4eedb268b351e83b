-- ===== src/Orchestration.antt =====
-- Signal orchestration, src/orchestration: the strategy's decision is arbitrated against the
-- learner's and the news engine's advice, under one of four policies.
pub mod Decision
pub mod Signals
pub mod Policies
pub mod Wire
