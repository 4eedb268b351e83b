-- ===== src/Backtest.antt =====
-- The backtest, src/backtest: the simulated portfolio and the replay over it.
pub mod Trade
pub mod Portfolio
pub mod Holdings
