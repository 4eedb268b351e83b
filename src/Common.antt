-- ===== src/Common.antt =====
-- What the packages of src/ share: texts, exceptions as values, and UTC times (src/common).
pub mod Text
pub mod Errors
pub mod Time
pub mod Instants
pub mod Dict
pub mod Entries
pub mod Json
pub mod Jsonl
pub mod Retry
