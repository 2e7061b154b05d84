-- ===== src/Queue.antt =====
-- QueueExperiments.
pub mod Settings
pub mod Utils
pub mod Cards
pub mod Bcl
pub mod Boost
