-- ===== src/Scheduler/Api.antt =====
-- Homeworks/Thread Scheduler/so_scheduler.c and utils.c: the calls of so_scheduler.h.
--
-- `malloc` succeeds, and so do the calls on semaphores and `pthread_join`; what `malloc` and
-- `pthread_create` return is an argument, and so is what other threads do while `so_end` blocks. `none` is a fault or the end of the process in `DIE`.
use so.Common.{
  ℕ, zero, suc, ◌+◌, ◌-◌, ◌%◌, Bool, true, false, Option, none, some, List, [], ◌∷◌, ◌&&◌, ◌==◌,
  if◌then◌else◌, ◌>>=◌, ltb, leb,
}
use so.Scheduler.Types.{
  Ptr, Heap, ThreadState, Thread, write_thread, Block, null_block, read, write, so_max_prio,
  so_max_num_events, no_event,
}
use so.Scheduler.Queue.{pq_create, front}
use so.Scheduler.Ops.{
  Event, Sys, sem_init, sem_wait, sem_destroy, pthread_create, pthread_join, free, depth,
  check_preempt, so_exec_with, schedule_thread,
}

-- What a call returns: `failed` is -1.
pub data Reply : Type 0 where
  failed : Reply
  returned : ℕ → Reply

-- The static `scheduler`, NULL at first.
abbrev pub World : Type 0
World = Option Sys

-- A call that reads through `scheduler` faults while that is NULL.
abbrev pub on {ℓ} : {A : Type ℓ} → (Sys → Option (A × Sys)) → World → Option (A × World)
on call none = none
on call (some s) = do out ← call s; some (out.0, some out.1)

unfoldable pub check_so_init_params : ℕ → ℕ → World → Bool
check_so_init_params time_quantum io none = ltb 0 time_quantum && leb io so_max_num_events
check_so_init_params time_quantum io (some s) = false

-- The threads that an earlier scheduler had are gone; `heap` is what memory holds.
unfoldable pub so_init : Heap → ℕ → ℕ → World → Reply × World
unfolding check_so_init_params pq_create
so_init heap time_quantum io w =
    if check_so_init_params time_quantum io w
    then (
      returned 0,
      some (record {
        heap = heap;
        log = [];
        pq = pq_create;
        threads = null_block;
        running_thread = none;
        time_quantum = time_quantum;
        io = io;
        n = 0;
      }),
    )
    else (failed, w)

-- `priority` is a `uint8_t`. The field `t` is written by `pthread_create`.
unfoldable pub create_thread : ℕ → ℕ → ℕ → Thread
create_thread func priority time_quantum = record {
  t = 0;
  func = func;
  priority = priority % 256;
  state = ThreadState.new;
  time_quantum = time_quantum;
  event = no_event;
}

-- `realloc` keeps the cells, and the new one is not written.
unfoldable pub add_thread : Ptr → Sys → Option Sys
add_thread p s = do
  let n = s.n + 1
  let grown : Block =
      (if s.threads.allocated == 0 then record { allocated = 1; cell = λ _. none } else record {
        allocated = n;
        cell = λ k. if ltb k s.threads.allocated then s.threads.cell k else none;
      })
  threads ← write grown (n - 1) p
  some (record s { threads = threads; n = n })

-- The part of `so_fork` behind its guard. `p` is the address that `malloc` returns, and `created` the
-- thread that `pthread_create` makes, if it succeeds.
unfoldable pub fork_thread : Ptr → Option ℕ → ℕ → ℕ → Sys → Option (ℕ × Sys)
unfolding create_thread add_thread schedule_thread
fork_thread p none func priority s = none
fork_thread p (some tid) func priority s = do
  s1 ← add_thread p (record s {
    heap = write_thread s.heap p (record (create_thread func priority s.time_quantum) { t = tid });
    log = pthread_create p ∷ sem_init p ∷ s.log;
  })
  s2 ← schedule_thread p s1
  some (tid, s2)

-- `none` is the handler NULL, and 0 is INVALID_TID.
unfoldable pub so_fork : Ptr → Option ℕ → Option ℕ → ℕ → Sys → Option (ℕ × Sys)
unfolding fork_thread
so_fork p created none priority s = some (0, s)
so_fork p created (some func) priority s = elim (ltb so_max_prio priority) [
  | true ↦ some (0, s)
  | false ↦ fork_thread p created func priority s
]

-- The part of `so_wait` behind its guard, at the running thread `r`.
unfoldable pub wait_running : ℕ → Ptr → Sys → Option (Reply × Sys)
unfolding schedule_thread
wait_running io r s = do
  s' ← schedule_thread r (record s {
    heap = write_thread s.heap r (record (s.heap r) { state = ThreadState.waiting; event = io });
    running_thread = none;
  })
  some (returned 0, record s' { log = sem_wait r ∷ s'.log })

-- The guard of `so_wait` reads the queue last: `f` is what `front` returns.
unfoldable pub wait_front : ℕ → Ptr → Option Ptr → Sys → Option (Reply × Sys)
unfolding wait_running
wait_front io r none s = some (failed, s)
wait_front io r (some f) s = wait_running io r s

unfoldable pub wait_guarded : ℕ → Option Ptr → Sys → Option (Reply × Sys)
unfolding wait_front
wait_guarded io none s = some (failed, s)
wait_guarded io (some r) s = elim (s.pq.size == 0) [
  | true ↦ some (failed, s)
  | false ↦ (do f ← front s.heap s.pq; wait_front io r f s)
]

unfoldable pub so_wait : ℕ → Sys → Option (Reply × Sys)
unfolding wait_guarded
so_wait io s = elim (leb s.io io) [
  | true ↦ some (failed, s)
  | false ↦ wait_guarded io s.running_thread s
]

-- A thread that `so_signal` wakes.
abbrev pub woken : Thread → Thread
woken th = record th { state = ThreadState.ready; event = no_event }

-- The loop of `so_signal` from index `i` on, with `n` rounds left.
unfoldable pub wake_loop : ℕ → ℕ → ℕ → Block → ℕ → Heap → Option (ℕ × Heap)
wake_loop io zero i b count h = some (count, h)
wake_loop io (suc n) i b count h = do
  x ← read b i
  elim ((h x).event == io) [
    | true ↦ wake_loop io n (i + 1) b (count + 1) (write_thread h x (woken (h x)))
    | false ↦ wake_loop io n (i + 1) b count h
  ]

-- The part of `so_signal` behind its guard, at the running thread `r`.
unfoldable pub signal_running : ℕ → Ptr → Sys → Option (Reply × Sys)
unfolding wake_loop schedule_thread
signal_running io r s = do
  out ← wake_loop io s.pq.size 0 s.pq.q 0 s.heap
  s' ← schedule_thread r (record s { heap = out.1; running_thread = none })
  some (returned out.0, record s' { log = sem_wait r ∷ s'.log })

unfoldable pub signal_guarded : ℕ → Option Ptr → Sys → Option (Reply × Sys)
unfolding signal_running
signal_guarded io none s = some (failed, s)
signal_guarded io (some r) s = signal_running io r s

unfoldable pub so_signal : ℕ → Sys → Option (Reply × Sys)
unfolding signal_guarded
so_signal io s = elim (leb s.io io) [
  | true ↦ some (failed, s)
  | false ↦ signal_guarded io s.running_thread s
]

unfoldable pub so_exec : Sys → Option Sys
unfolding so_exec_with check_preempt
so_exec s = so_exec_with (check_preempt depth) s

-- `thread_task` before it calls the handler of its thread.
unfoldable pub thread_task_begin : Ptr → Sys → Sys
thread_task_begin r s = record s { log = sem_wait r ∷ s.log }

-- `thread_task` once the handler of its thread has returned.
unfoldable pub thread_task_end : Ptr → Sys → Option Sys
unfolding check_preempt
thread_task_end r s = do
  let h = write_thread s.heap r (record (s.heap r) { state = ThreadState.terminated })
  f ← front h s.pq
  check_preempt depth f (record s { heap = h; running_thread = none })

-- The first loop of `so_end`, from thread `i` on, with the joins so far. While the join of `p` blocks,
-- the other threads go on: `others p` is what they make of the scheduler, with its `n` and `threads`.
unfoldable pub join_all : ℕ → (Ptr → Sys → Sys) → ℕ → Sys → List Event → Option (List Event × Sys)
join_all zero others i s log = none
join_all (suc fuel) others i s log = elim (ltb i s.n) [
  | false ↦ some (log, s)
  | true ↦ do p ← read s.threads i; join_all fuel others (i + 1) (others p s) (pthread_join p ∷ log)
]

-- The second loop, of `so_free_thread`, for `left` threads from thread `i` on.
unfoldable pub free_all : ℕ → ℕ → Block → List Event → Option (List Event)
free_all zero i b log = some log
free_all (suc left) i b log = do
  p ← read b i
  free_all left (i + 1) b (free p ∷ sem_destroy p ∷ log)

-- What the caller of `so_end` did, the newest first.
unfoldable pub so_end : ℕ → (Ptr → Sys → Sys) → World → Option (List Event × World)
unfolding join_all free_all
so_end fuel others none = some ([], none)
so_end fuel others (some s) = do
  joined ← join_all fuel others 0 s []
  freed ← free_all joined.1.n 0 joined.1.threads joined.0
  some (freed, none)
