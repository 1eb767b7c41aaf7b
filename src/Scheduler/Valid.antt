-- ===== src/Scheduler/Valid.antt =====
-- The scheduling core keeps the invariant: the queue is sorted and without repetitions, a ready thread
-- never has a higher priority than the running one, and the processor is idle only if all wait.
mod Defs
mod Lists
mod Queue
mod Moves
mod Turns
mod Arrival
pub use Defs.*
pub use Queue.{Base-same, SameAt, SameAt-write, join-Base}
pub use Lists.{All-map, All-map₂, All-insert, All-erase_ready, first_ready-All}
pub use Moves.{YieldsTo-same, yield_cpu-Valid, dispatch-Valid}
pub use Turns.{OnCpu-write, Busy, tick-Valid}
pub use Arrival.{arrive-Valid}
