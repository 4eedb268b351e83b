-- ===== src/Execution.antt =====
-- The execution layer, src/execution: an approved decision is routed to a share quantity, turned
-- into a checked `OrderIntent` with a protective stop, and submitted with retries.
pub mod Order
pub mod Router
pub mod Builder
pub mod Retry
pub mod Submission
pub mod Protection
pub mod Wire
