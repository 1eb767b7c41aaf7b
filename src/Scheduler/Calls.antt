-- ===== src/Scheduler/Calls.antt =====
-- Every call of so_scheduler.h runs without a fault and keeps the invariant.
pub mod Inv
pub mod Presence
pub mod Exec
pub mod Rounds
pub mod Fairness
pub mod Wait
pub mod Fork
pub mod Signal
pub mod End
