-- ===== src/Orchestration/Policies.antt =====
-- The arbitration policies (src/orchestration/policies) and `arbitrate` (arbitration.py).
mod Defs
mod Finish
pub mod Bounds
pub mod Consensus
pub mod Votes
pub mod Weights
unfoldable pub use Defs.*
