-- ===== src/Round.antt =====
-- src/round.rs and src/round/context.rs: a single round.
pub mod Context
pub mod Tracker
pub mod State
pub mod Import
pub mod Finalizing
