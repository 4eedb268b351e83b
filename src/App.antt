-- ===== src/App.antt =====
-- The live runtime, src/app: a frame per bar, and the stages that fill it in.
pub mod Frame
pub mod Buffer
pub mod Feed
pub mod Delivery
pub mod Emitters
pub mod Descent
