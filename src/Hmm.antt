-- ===== src/Hmm.antt =====
-- The regime model, src/hmm: the `RegimeState` that it hands on.
pub mod State
pub mod Wire
