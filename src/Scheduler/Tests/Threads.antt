-- ===== src/Scheduler/Tests/Threads.antt =====
-- A run of two threads with a quantum of 2, and the theorems on runs at it.
use so.Common.{
  ◌≤◌, ℕ, Returns, inl, ◌==◌, if◌then◌else◌, ◌≡◌, ◌⊎◌, refl, Option, none, some, List, [], ◌∷◌,
  ◌++◌, arith,
}
use so.Scheduler.Types.{Ptr, ThreadState, null_block, no_event}
use so.Scheduler.Queue.{enqueue, front, dequeue}
use so.Scheduler.Ops.{Event, Sys, sem_init, sem_post, sem_wait, pthread_create}
use so.Scheduler.Api.{so_init, so_fork, so_exec}
use so.Scheduler.Threads.{
  absent, waits_on, executing, Config, signalled_by, created, behind_call, set_at, exec, call, fork,
  pass, Runs, start, go_on,
}
use so.Scheduler.Threads.Exclusion.{Runs-exclusive}
use so.Scheduler.Threads.Progress.{CanStep, Parked, Runs-progress, Runs-Parked}
use so.Scheduler.Calls.Inv.{Inv}
use so.Scheduler.Threads.Shortest.{so_fork-posts_twice}
use so.Scheduler.Tests.{thread, crowd, fresh, one_running, one_queued, fork_1, fork_2}

lower_2 : 3 ≤ (one_running.heap 1).priority
unfolding so_fork enqueue front dequeue one_running
lower_2 = omega arith

abbrev made_1 : List Event
made_1 = sem_post 1 ∷ pthread_create 1 ∷ sem_init 1 ∷ []

abbrev made_2 : List Event
made_2 = pthread_create 2 ∷ sem_init 2 ∷ []

abbrev gave_way : List Event
gave_way = sem_wait 1 ∷ sem_post 2 ∷ []

-- The scheduler when thread 1 has used up its time.
rotated : Sys
rotated = sys_or (so_exec one_queued)
  where
    sys_or : Option Sys → Sys
    sys_or none = fresh
    sys_or (some s) = s

exec_1 : so_exec one_queued ≡ some rotated
unfolding so_exec so_fork enqueue front dequeue one_queued rotated
exec_1 = refl

wrote_1 : one_running.log ≡ made_1 ++ fresh.log
unfolding so_fork enqueue front dequeue one_running
wrote_1 = refl

wrote_2 : one_queued.log ≡ made_2 ++ one_running.log
unfolding so_fork enqueue front dequeue one_queued
wrote_2 = refl

wrote_3 : rotated.log ≡ gave_way ++ one_queued.log
unfolding so_exec so_fork enqueue front dequeue one_queued rotated
wrote_3 = refl

abbrev started : Config
started = record {
  sys = one_running;
  sem = signalled_by made_1 (λ _. 0);
  act = created 1 (λ _. absent);
}

abbrev begun : Config
begun = record started { sem = set_at 1 0 started.sem; act = set_at 1 executing started.act }

abbrev two_threads : Config
two_threads = behind_call 1 executing one_queued made_2 (record begun { act = created 2 begun.act })

abbrev changing : Config
changing = behind_call 1 (waits_on (1 ∷ [])) rotated gave_way two_threads

abbrev changed : Config
changed = record changing { sem = set_at 2 0 changing.sem; act = set_at 2 executing changing.act }

changed-Runs : Runs 2 changed
unfolding so_init
changed-Runs =
    go_on
      (go_on
        (go_on
          (go_on
            (start (crowd 2) 4 1 70 9 3 70 fresh one_running made_1 refl (omega arith) fork_1
              wrote_1)
            (pass 1 1 [] 0 refl refl))
          (fork 1 2 71 9 3 71 one_queued made_2 refl refl (omega arith) lower_2 fork_2 wrote_2))
        (call 1 rotated gave_way refl (exec exec_1) wrote_3))
      (pass 2 2 [] 0 refl refl)

Runs-exclusive_example :
    (changed.sys.running_thread ≡ some 2) × ((b : Ptr) → changed.act b ≡ executing → b ≡ 2)
Runs-exclusive_example = Runs-exclusive 2 changed-Runs refl

Runs-Parked_example : (changed.sys.running_thread ≡ some 1) ⊎ Parked changed 1
Runs-Parked_example = Runs-Parked 1 (1 ∷ []) changed-Runs refl

Runs-progress_example :
    CanStep changed
    ⊎ ((changed.sys.running_thread ≡ none)
        × ((p : Ptr) (ws : List Ptr)
            → changed.act p ≡ waits_on ws
            → (changed.sys.heap p).state ≡ ThreadState.waiting))
Runs-progress_example = Runs-progress changed-Runs

-- Thread 1 runs alone, with a quantum of 1.
abbrev alone : Sys
alone = record {
  heap = λ _. thread 3 ThreadState.running 1 no_event;
  log = [];
  pq = record { q = null_block; size = 0; capacity = 1 };
  threads = record { allocated = 1; cell = λ k. if k == 0 then some 1 else none };
  running_thread = some 1;
  time_quantum = 1;
  io = 4;
  n = 1;
}

alone-Inv : Inv alone [] (1 ∷ [])
alone-Inv = record {
  pq = record { cells = tt; size = refl; room = omega arith; memory = inl (refl, refl) };
  valid = record {
    base = record { sorted = tt; nodup = tt; queued = tt };
    cpu = record {
      state = refl;
      event = refl;
      thread = record { priority = omega arith; some_time = omega arith; within = omega arith };
      out = tt;
      first = tt;
    };
  };
  kept = record {
    positive = omega arith;
    devices = omega arith;
    cells = (refl, tt);
    count = refl;
    memory = refl;
  };
}

so_fork-posts_twice_example :
    Returns
      (λ (out : ℕ × Sys).
        (out.1.running_thread ≡ some 2)
        × (out.1.log
            ≡ sem_wait 1
              ∷ sem_wait 2
              ∷ sem_post 2
              ∷ sem_post 2
              ∷ pthread_create 2
              ∷ sem_init 2
              ∷ []))
      (so_fork 2 (some 71) (some 9) 5 alone)
so_fork-posts_twice_example =
    so_fork-posts_twice alone 1 2 71 9 5 alone-Inv
      (record { queue = tt; cpu = λ r e. ground arith }) (omega arith) refl refl (omega arith)
