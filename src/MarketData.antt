-- ===== src/MarketData.antt =====
-- The market data, src/market_data: its records, and the validation of bars.
pub mod Models
pub mod Validation
pub mod Dedup
pub mod Missing
pub mod RateLimit
