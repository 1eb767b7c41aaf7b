-- ===== src/Scheduler/Tests.antt =====
-- The scheduler at concrete states, and the theorems at inputs that meet their hypotheses.
mod Threads
use so.Common.{
  ℕ, ◌-◌, ◌≡◌, ◌≢◌, ◌≤◌, ◌<◌, ◌⊎◌, refl, Option, none, some, List, [], ◌∷◌, ◌++◌, inl, inr, arith,
  ◌==◌, if◌then◌else◌, Returns, ◌>>=◌, Option-cases,
}
use mathlib.Core.List.{Perm}
use so.Scheduler.Types.{Ptr, Heap, ThreadState, Thread, null_block, Pq, no_event, write_thread}
use so.Scheduler.Queue.{enqueue, front, dequeue}
use so.Scheduler.Queue.Spec.{Holds, IsSorted, insert, first_ready, erase_ready}
use so.Scheduler.Queue.Enqueue.{enqueue-insert}
use so.Scheduler.Queue.Dequeue.{front-first_ready, dequeue-erase_ready}
use so.Scheduler.Queue.Top.{dequeue-enqueue}
use so.Scheduler.Queue.Order.{of_priority, enqueue-fifo}
use so.Scheduler.Ops.{Sys}
use so.Scheduler.Api.{
  Reply, returned, failed, so_init, so_fork, so_wait, so_signal, so_exec, thread_task_end, so_end,
  World,
}
use so.Scheduler.Calls.Inv.{Inv, IsSound}
use so.Scheduler.Calls.Exec.{so_exec-counts, so_exec-rotates, thread_task_end-IsSound}
use so.Scheduler.Calls.Fairness.{RunsWithin, so_exec-reaches}
use so.Scheduler.Calls.Wait.{so_wait-blocks, so_wait-failed}
use so.Scheduler.Calls.Fork.{so_fork-IsSound}
use so.Scheduler.Calls.Presence.{InQueue}
use so.Scheduler.Joins.{Go, stop, more, joins, releases, meanwhile, so_end-joins}
use so.Scheduler.Reach.{
  Reaches, init, step, exec, fork, Served, Reaches-IsSound, Reaches-Served, Reaches-total,
}

abbrev thread : ℕ → ThreadState → ℕ → ℕ → Thread
thread priority state quantum event = record {
  t = 7;
  func = 9;
  priority = priority;
  state = state;
  time_quantum = quantum;
  event = event;
}

-- Thread 1 runs, with `left` units of time; 2 is ready; 3 waits for event 0.
abbrev crowd : ℕ → Heap
crowd left p =
    if p == 1
    then thread 3 ThreadState.running left no_event
    else if p == 2
    then thread 3 ThreadState.ready 2 no_event
    else thread 1 ThreadState.waiting 2 0

abbrev two_cells : ℕ → ℕ → ℕ → Option Ptr
two_cells a b k = if k == 0 then some a else if k == 1 then some b else none

abbrev crowd_pq : Pq
crowd_pq = record { q = record { allocated = 4; cell = two_cells 2 3 }; size = 2; capacity = 4 }

abbrev busy : ℕ → Sys
busy left = record {
  heap = crowd left;
  log = [];
  pq = crowd_pq;
  threads = record { allocated = 3; cell = λ k. if k == 2 then some 3 else two_cells 1 2 k };
  running_thread = some 1;
  time_quantum = 2;
  io = 4;
  n = 3;
}

abbrev queued : List Ptr
queued = 2 ∷ 3 ∷ []

abbrev forked : List Ptr
forked = 1 ∷ 2 ∷ 3 ∷ []

crowd_pq-Holds : Holds crowd_pq queued
crowd_pq-Holds = record {
  cells = (refl, (refl, tt));
  size = refl;
  room = omega arith;
  memory = inr (inr (refl, omega arith));
}

crowd-IsSorted : (left : ℕ) → IsSorted (crowd left) queued
crowd-IsSorted left = omega arith

busy-Inv : (left : ℕ) → 0 < left → left ≤ 2 → Inv (busy left) queued forked
busy-Inv left pos le = record {
  pq = crowd_pq-Holds;
  valid = record {
    base = record {
      sorted = crowd-IsSorted left;
      nodup = ((omega arith, tt), (tt, tt));
      queued = (
        record { thread = omega arith; state = inl (refl, refl) },
        (record { thread = omega arith; state = inr (refl, omega arith) }, tt),
      );
    };
    cpu = record {
      state = refl;
      event = refl;
      thread = record { priority = omega arith; some_time = pos; within = le };
      out = (omega arith, (omega arith, tt));
      first = (inr (omega arith), (inl refl, tt));
    };
  };
  kept = record {
    positive = omega arith;
    devices = omega arith;
    cells = (refl, (refl, (refl, tt)));
    count = refl;
    memory = refl;
  };
}

enqueue-insert_example :
    (pq' : Pq) × (enqueue (crowd 1) 1 crowd_pq ≡ some pq') × Holds pq' (insert (crowd 1) 1 queued)
enqueue-insert_example = enqueue-insert (crowd 1) 1 crowd_pq-Holds

enqueue-fifo_example :
    Returns
      (λ pq'.
        (ys : List Ptr) × Holds pq' ys
        × IsSorted (crowd 1) ys
        × Perm ys (1 ∷ queued)
        × (of_priority (crowd 1) 3 ys ≡ (
            if (crowd 1 1).priority == 3
            then of_priority (crowd 1) 3 queued ++ 1 ∷ []
            else of_priority (crowd 1) 3 queued)))
      (enqueue (crowd 1) 1 crowd_pq)
enqueue-fifo_example = enqueue-fifo (crowd 1) 1 3 crowd_pq-Holds (crowd-IsSorted 1)

-- Thread 4 outranks those that are queued.
abbrev with_4 : Heap
with_4 = write_thread (crowd 1) 4 (thread 5 ThreadState.ready 2 no_event)

dequeue-enqueue_example :
    (pq' : Pq) × ((do into ← enqueue with_4 4 crowd_pq; dequeue with_4 into) ≡ some (some 4, pq'))
    × Holds pq' queued
dequeue-enqueue_example =
    dequeue-enqueue with_4 4 crowd_pq-Holds refl (inr (omega arith), (inl refl, tt))

dequeue-erase_ready_example :
    (pq' : Pq) × (dequeue (crowd 1) crowd_pq ≡ some (first_ready (crowd 1) queued, pq'))
    × Holds pq' (erase_ready (crowd 1) queued)
dequeue-erase_ready_example = dequeue-erase_ready (crowd 1) crowd_pq-Holds

first_is_2 : (left : ℕ) → first_ready (crowd left) queued ≡ some 2
unfolding first_ready
first_is_2 left = refl

so_exec-rotates_example :
    Returns
      (λ s'.
        (s'.running_thread ≡ some 2)
        × ((s'.heap 1).state ≡ ThreadState.ready)
        × ((s'.heap 1).time_quantum ≡ 2)
        × IsSound forked s')
      (so_exec (busy 1))
so_exec-rotates_example =
    so_exec-rotates (busy 1) 1 2 (busy-Inv 1 (omega arith) (omega arith)) refl refl (first_is_2 1)
      (omega arith)

so_exec-reaches_example : RunsWithin 2 2 forked (busy 2)
so_exec-reaches_example =
    so_exec-reaches (busy 2) 1 2 0 (busy-Inv 2 (omega arith) (omega arith)) refl (omega arith) refl
      refl refl (omega arith)

so_wait-blocks_example :
    Returns
      (λ (out : Reply × Sys).
        (out.0 ≡ returned 0)
        × IsSound forked out.1
        × (out.1.running_thread ≡ some 2)
        × InQueue 1 out.1
        × ((out.1.heap 1).state ≡ ThreadState.waiting)
        × ((out.1.heap 1).event ≡ 3))
      (so_wait 3 (busy 1))
so_wait-blocks_example =
    so_wait-blocks (busy 1) 3 1 2 (busy-Inv 1 (omega arith) (omega arith)) refl (omega arith)
      (first_is_2 1)

so_fork-IsSound_example :
    Returns
      (λ (out : ℕ × Sys).
        (out.0 ≡ 70)
        × IsSound (forked ++ 4 ∷ []) out.1
        × ((out.1.running_thread ≡ some 4) ⊎ InQueue 4 out.1))
      (so_fork 4 (some 70) (some 9) 5 (busy 1))
so_fork-IsSound_example =
    so_fork-IsSound (busy 1) 4 70 9 5 (busy-Inv 1 (omega arith) (omega arith))
      (record { queue = (omega arith, (omega arith, tt)); cpu = λ r e. ground arith }) (omega arith)

-- The scheduler that `so_init` makes with a quantum of 2 and 4 events.
abbrev fresh : Sys
fresh = record {
  heap = crowd 2;
  log = [];
  pq = record { q = null_block; size = 0; capacity = 1 };
  threads = null_block;
  running_thread = none;
  time_quantum = 2;
  io = 4;
  n = 0;
}

fresh-Reaches : Reaches fresh []
unfolding so_init
fresh-Reaches = init (crowd 2) 2 4 refl

-- What a call leaves behind.
abbrev ended : Option (ℕ × Sys) → Sys
ended none = fresh
ended (some (id, s)) = s

one_running : Sys
one_running = ended (so_fork 1 (some 70) (some 9) 3 fresh)

one_queued : Sys
unfolding one_running
one_queued = ended (so_fork 2 (some 71) (some 9) 3 one_running)

fork_1 : so_fork 1 (some 70) (some 9) 3 fresh ≡ some (70, one_running)
unfolding so_fork enqueue front dequeue one_running
fork_1 = refl

fork_2 : so_fork 2 (some 71) (some 9) 3 one_running ≡ some (71, one_queued)
unfolding so_fork enqueue front dequeue one_queued
fork_2 = refl

size-one_queued : one_queued.pq.size ≡ 1
unfolding so_fork enqueue front dequeue one_queued
size-one_queued = refl

size-one_running : one_running.pq.size ≡ 0
unfolding so_fork enqueue front dequeue one_running
size-one_running = refl

running-one_running : one_running.running_thread ≡ some 1
unfolding so_fork enqueue front dequeue one_running
running-one_running = refl

one_queued-Reaches : Reaches one_queued (1 ∷ 2 ∷ [])
one_queued-Reaches =
    step
      (step fresh-Reaches (
        fork 1 70 9 3 70 (record { cells = λ k lt. elim lt [ ]; cpu = λ r e. ground arith })
          (omega arith) fork_1 refl))
      (fork 2 71 9 3 71
        (record {
          cells = λ k lt. absurd (omega (arith, size-one_running));
          cpu = λ r e. ground (arith, running-one_running);
        })
        (omega arith) fork_2 refl)

Reaches-IsSound_example : IsSound (1 ∷ 2 ∷ []) one_queued
Reaches-IsSound_example = Reaches-IsSound one_queued-Reaches

Reaches-Served_example : (p : Ptr) × (one_queued.pq.q.cell 0 ≡ some p) × Served one_queued p
Reaches-Served_example = Reaches-Served 0 one_queued-Reaches (omega (arith, size-one_queued))

Reaches-total_example :
    (so_exec one_queued ≢ none)
    × (so_wait 0 one_queued ≢ none)
    × (so_signal 0 one_queued ≢ none)
    × ((r : Ptr) → one_queued.running_thread ≡ some r → thread_task_end r one_queued ≢ none)
Reaches-total_example = Reaches-total 0 one_queued-Reaches

-- While a join blocks, the thread that runs calls `so_exec` once.
abbrev execs_by : Option Sys → Sys → Sys
execs_by none s = s
execs_by (some s') s = s'

abbrev execs : Ptr → Sys → Sys
execs p s = execs_by (so_exec s) s

execs-Go : Go 3 execs
execs-Go p s ts sound le = elim (Option-cases (so_exec s)) [
  | inl fault ↦ (ts, rw fault stop, le)
  | inr (s', e) ↦ (ts, rw e (more stop (exec e)), le)
]

so_end-joins_example :
    (us new : List Ptr) × (us ≡ forked ++ new)
    × IsSound us (meanwhile execs us (busy 1))
    × (so_end 4 execs (some (busy 1)) ≡ some (releases us (joins us []), none))
so_end-joins_example =
    so_end-joins 4 3 execs (busy 1) execs-Go (queued, busy-Inv 1 (omega arith) (omega arith))
      (omega arith) (omega arith)

-- Thread 3 forks thread 4 while it is joined.
abbrev forks_late : Ptr → Sys → Sys
forks_late p s = if p == 3 then ended (so_fork 4 (some 70) (some 9) 1 s) else s

joins_late_thread :
    so_end 5 forks_late (some (busy 1))
    ≡ some (releases (forked ++ 4 ∷ []) (joins (forked ++ 4 ∷ []) []), none)
unfolding so_end so_fork enqueue front dequeue joins releases
joins_late_thread = refl
