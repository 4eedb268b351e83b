-- ===== src/Nlp.antt =====
-- The news engine, src/nlp: the `NewsSignal` that it hands on.
pub mod Signal
pub mod Item
pub mod ItemWire
pub mod Log
pub mod Service
pub mod Store
pub mod Wire
