-- ===== src/Scheduler/Types.antt =====
-- Homeworks/Thread Scheduler/struct.h, utils.h and so_scheduler.h: the data of the scheduler.
use so.Common.{ℕ, ◌-◌, ◌^◌, Bool, true, false, Option, none, some, if◌then◌else◌, ◌==◌, ltb}

-- The address of a `thread_t`; a pointer that may be NULL is an `Option Ptr`.
abbrev pub Ptr : Type 0
Ptr = ℕ

-- The constants of utils.h.
pub data ThreadState : Type 0 where
  new ready running waiting terminated : ThreadState

-- SO_MAX_PRIO and SO_MAX_NUM_EVENTS
abbrev pub so_max_prio : ℕ
so_max_prio = 5

abbrev pub so_max_num_events : ℕ
so_max_num_events = 256

-- The value of `event` in a thread that waits for nothing: -1 as an `unsigned int`.
abbrev pub no_event : ℕ
no_event = 2 ^ 32 - 1

-- `thread_t`. The semaphore is not a field: what is done to it is recorded in the log of
-- `Scheduler.Ops`. `t` is what `pthread_create` stores, and `func` is the address of the handler.
pub record Thread : Type 0 where
  pub t : ℕ
  pub func : ℕ
  pub priority : ℕ
  pub state : ThreadState
  pub time_quantum : ℕ
  pub event : ℕ

-- NOT_WAITING_THREAD
abbrev pub not_waiting_thread : ThreadState → Bool
not_waiting_thread ThreadState.waiting = false
not_waiting_thread ThreadState.new = true
not_waiting_thread ThreadState.ready = true
not_waiting_thread ThreadState.running = true
not_waiting_thread ThreadState.terminated = true

-- COMPARE_PRIORITIES
abbrev pub compare_priorities : ℕ → ℕ → Bool
compare_priorities p1 p2 = ltb p2 p1

-- The threads at their addresses.
abbrev pub Heap : Type 0
Heap = Ptr → Thread

abbrev pub write_thread : Heap → Ptr → Thread → Heap
write_thread h p t q = if q == p then t else h q

-- An array of thread pointers: how many cells are allocated, and what each holds (`none` is a cell
-- that was never written). No cell is allocated in NULL.
pub record Block : Type 0 where
  pub allocated : ℕ
  pub cell : ℕ → Option Ptr

abbrev pub null_block : Block
null_block = record { allocated = 0; cell = λ _. none }

-- `q[i]`, a fault outside the allocation and at a cell that was never written
abbrev pub read : Block → ℕ → Option Ptr
read b i = if ltb i b.allocated then b.cell i else none

-- `q[i] = v`, a fault outside the allocation
abbrev pub write : Block → ℕ → Ptr → Option Block
write b i v =
    if ltb i b.allocated
    then some (record b { cell = λ k. if k == i then some v else b.cell k })
    else none

-- `pq_t`
pub record Pq : Type 0 where
  pub q : Block
  pub size : ℕ
  pub capacity : ℕ
