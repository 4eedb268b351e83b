-- ===== src/Tests.antt =====
-- Concrete inputs, at the fixed-point numbers, for the theorems of the library.
mod Data
mod Wire
mod Stores
mod Market
mod Platform
mod Registry
mod Risk
mod Orchestration
mod Execution
mod Broker
mod Pipeline
