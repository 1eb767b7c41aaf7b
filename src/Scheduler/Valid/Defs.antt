-- ===== src/Scheduler/Valid/Defs.antt =====
-- The invariant of the scheduler, over the plain list of queued threads.
use so.Common.{ℕ, ◌≡◌, ◌≤◌, ◌<◌, ◌≢◌, ◌⊎◌, Option, none, some, List, [], ◌∷◌, All}
use so.Scheduler.Types.{Ptr, Heap, Thread, ThreadState, so_max_prio, so_max_num_events, no_event}
use so.Scheduler.Queue.Spec.{IsSorted}
use so.Scheduler.Spec.{View}

abbrev pub NotIn : Ptr → List Ptr → Type 0
NotIn t = All (λ y. y ≢ t)

abbrev pub IsNodup : List Ptr → Type 0
IsNodup [] = Unit
IsNodup (x ∷ xs) = NotIn x xs × IsNodup xs

-- Of every thread of a scheduler with the quantum `q`.
pub record IsThread (q : ℕ) (th : Thread) : Type 0 where
  pub priority : th.priority ≤ so_max_prio
  pub some_time : 0 < th.time_quantum
  pub within : th.time_quantum ≤ q

-- A queued thread is ready, or waits for an event that exists.
pub record Queued (q : ℕ) (th : Thread) : Type 0 where
  pub thread : IsThread q th
  pub state :
      ((th.state ≡ ThreadState.ready) × (th.event ≡ no_event))
      ⊎ ((th.state ≡ ThreadState.waiting) × (th.event < so_max_num_events))

-- Of a thread that is about to queue up.
pub record CanJoin (q : ℕ) (th : Thread) : Type 0 where
  pub thread : IsThread q th
  pub state :
      ((th.state ≢ ThreadState.waiting) × (th.event ≡ no_event))
      ⊎ ((th.state ≡ ThreadState.waiting) × (th.event < so_max_num_events))

pub record Base (q : ℕ) (h : Heap) (xs : List Ptr) : Type 0 where
  pub sorted : IsSorted h xs
  pub nodup : IsNodup xs
  pub queued : All (λ y. Queued q (h y)) xs

-- The thread waits, or its priority is at most `p`.
abbrev pub YieldsTo : Heap → ℕ → Ptr → Type 0
YieldsTo h p y = ((h y).state ≡ ThreadState.waiting) ⊎ ((h y).priority ≤ p)

-- The thread `r` runs, and no ready thread has a higher priority.
pub record Running (q : ℕ) (h : Heap) (xs : List Ptr) (r : Ptr) : Type 0 where
  pub state : (h r).state ≡ ThreadState.running
  pub event : (h r).event ≡ no_event
  pub thread : IsThread q (h r)
  pub out : NotIn r xs
  pub first : All (YieldsTo h (h r).priority) xs

-- If no thread runs, every queued thread waits.
abbrev pub OnCpu : ℕ → Heap → List Ptr → Option Ptr → Type 0
OnCpu q h xs none = All (λ y. (h y).state ≡ ThreadState.waiting) xs
OnCpu q h xs (some r) = Running q h xs r

pub record Valid (v : View) : Type 0 where
  pub base : Base v.time_quantum v.heap v.queue
  pub cpu : OnCpu v.time_quantum v.heap v.queue v.running_thread
