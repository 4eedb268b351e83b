-- ===== src/Float.antt =====
-- Python's `float`. The arithmetic is the hardware's, not code of the repository, so the type and
-- its operations are a parameter of the whole development; `IsFloat` names the facts of IEEE 754
-- doubles that the proofs use. All of them hold of NaN, infinities and signed zeros as they stand.
pub mod Order
pub mod Fixed
unfoldable pub use Defs.*
mod Defs
