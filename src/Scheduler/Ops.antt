-- ===== src/Scheduler/Ops.antt =====
-- Homeworks/Thread Scheduler/so_scheduler.c: the scheduling core.
--
-- A call is modelled up to its return. No statement that follows a `sem_wait` touches the scheduler,
-- so a call is one change of the shared state, and the log (newest first) has in order what the
-- caller does to the semaphores and to the system's threads.
use so.Common.{
  ℕ, zero, suc, ◌+◌, ◌-◌, ◌%◌, ◌^◌, Bool, true, false, Option, none, some, List, ◌∷◌, ◌==◌,
  if◌then◌else◌, ◌>>=◌, ltb,
}
use so.Scheduler.Types.{Ptr, Heap, ThreadState, write_thread, Block, Pq, not_waiting_thread}
use so.Scheduler.Queue.{enqueue, front, dequeue}

-- What a call does to a thread's semaphore and to its system thread.
pub data Event : Type 0 where
  sem_init sem_post sem_wait sem_destroy pthread_create pthread_join free : Ptr → Event

-- `scheduler_t`, with the threads that its pointers point to and the log.
pub record Sys : Type 0 where
  pub heap : Heap
  pub log : List Event
  pub pq : Pq
  pub threads : Block
  pub running_thread : Option Ptr
  pub time_quantum : ℕ
  pub io : ℕ
  pub n : ℕ

abbrev pub set_state : Heap → Ptr → ThreadState → Heap
set_state h p st = write_thread h p (record (h p) { state = st })

-- `schedule_thread`, with `check_preempt` as an argument.
unfoldable pub schedule_thread_with : (Option Ptr → Sys → Option Sys) → Ptr → Sys → Option Sys
schedule_thread_with check t s = do
  pq ← enqueue s.heap t s.pq
  let h =
      if not_waiting_thread (s.heap t).state then set_state s.heap t ThreadState.ready else s.heap
  f ← front h pq
  check f (record s { pq = pq; heap = h })

-- `time_quantum--` on an `unsigned int`
abbrev pub decrement : ℕ → ℕ
decrement q = (q + 2 ^ 32 - 1) % 2 ^ 32

-- The rest of `so_exec` at the running thread `r` with `q` units left; the test says whether `q` is 0.
unfoldable pub exec_rest : Bool → (Option Ptr → Sys → Option Sys) → Ptr → ℕ → Sys → Option Sys
unfolding schedule_thread_with
exec_rest true check r q s = do
  s' ← schedule_thread_with check r (record s {
    heap =
        write_thread s.heap r
          (record (s.heap r) { time_quantum = s.time_quantum; state = ThreadState.ready });
    running_thread = none;
  })
  some (record s' { log = sem_wait r ∷ s'.log })
exec_rest false check r q s =
    some (record s { heap = write_thread s.heap r (record (s.heap r) { time_quantum = q }) })

unfoldable pub exec_running : (Option Ptr → Sys → Option Sys) → Ptr → Sys → Option Sys
unfolding exec_rest
exec_running check r s = let q = decrement (s.heap r).time_quantum in exec_rest (q == 0) check r q s

-- `so_exec`, with `check_preempt` as an argument.
unfoldable pub so_exec_with : (Option Ptr → Sys → Option Sys) → Sys → Option Sys
unfolding exec_running
so_exec_with check s = elim s.running_thread [ none ↦ some s | some r ↦ exec_running check r s ]

-- `running_thread = thread; dequeue; state = RUNNING; sem_post`
unfoldable pub hand_over : Ptr → Sys → Option Sys
hand_over t s = do
  out ← dequeue s.heap s.pq
  some (record s {
    running_thread = some t;
    pq = out.1;
    heap = set_state s.heap t ThreadState.running;
    log = sem_post t ∷ s.log;
  })

-- `check_preempt` at a thread `t` while `r` runs; the test says whether `r` has the lower priority,
-- and `check` is `check_preempt` itself.
unfoldable pub challenge : Bool → (Option Ptr → Sys → Option Sys) → Ptr → Ptr → Sys → Option Sys
unfolding hand_over so_exec_with
challenge true check t r s = do
  s1 ← hand_over t s
  s2 ← schedule_thread_with check r s1
  some (record s2 { log = sem_wait r ∷ s2.log })
challenge false check t r s = so_exec_with check s

unfoldable pub check_preempt_with : (Option Ptr → Sys → Option Sys) → Option Ptr → Sys → Option Sys
unfolding challenge
check_preempt_with check none s = some s
check_preempt_with check (some t) s = elim s.running_thread [
  | none ↦ hand_over t s
  | some r ↦ challenge (ltb (s.heap r).priority (s.heap t).priority) check t r s
]

-- `check_preempt`, `schedule_thread` and `so_exec` call one another. The fuel bounds how deep.
unfoldable pub check_preempt : ℕ → Option Ptr → Sys → Option Sys
unfolding check_preempt_with
check_preempt zero t s = none
check_preempt (suc k) t s = check_preempt_with (check_preempt k) t s

-- The depth that any call needs from a well-formed state.
abbrev pub depth : ℕ
depth = 3

unfoldable pub schedule_thread : Ptr → Sys → Option Sys
unfolding schedule_thread_with check_preempt
schedule_thread t s = schedule_thread_with (check_preempt depth) t s
