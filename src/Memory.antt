-- ===== src/Memory.antt =====
-- The memory loop, src/memory: its experience, the store of it and the
-- `LearningDecision` that the bandit recommends.
pub mod Decision
pub mod Experience
pub mod ExperienceWire
pub mod Store
pub mod Log
pub mod Bandit
pub mod Learning
pub mod Wire
