-- ===== src/Scheduler.antt =====
-- Homeworks/Thread Scheduler: a preemptive round-robin scheduler over a priority queue.
pub mod Types
pub mod Queue
pub mod Ops
pub mod Spec
pub mod Refine
pub mod Valid
pub mod Api
pub mod Calls
pub mod Reach
pub mod Joins
pub mod Threads
mod Tests
