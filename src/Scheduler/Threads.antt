-- ===== src/Scheduler/Threads.antt =====
-- Homeworks/Thread Scheduler/so_scheduler.c: the threads that run its calls, with their semaphores.
--
-- The programs are those in which no thread forks one above its own priority. Then a call posts a
-- semaphore at most once, in the first branch of `check_preempt`, and behind that changes neither the
-- scheduler nor a semaphore before its own `sem_wait`, so a call is one step up to its first wait. The
-- waits interleave with all that the other threads do. A fork above the caller's priority posts the new
-- thread in the middle of the call (line 69), and is no step here.
use so.Common.{ℕ, suc, ◌+◌, ◌≡◌, ◌≤◌, none, some, List, [], ◌∷◌, ◌++◌, ◌==◌, if◌then◌else◌}
use so.Scheduler.Types.{Ptr, Heap, so_max_prio}
use so.Scheduler.Ops.{
  Event, Sys, sem_init, sem_post, sem_wait, sem_destroy, pthread_create, pthread_join, free,
}
use so.Scheduler.Api.{
  Reply, returned, so_init, so_fork, so_wait, so_signal, so_exec, thread_task_end,
}
pub mod Turn
pub mod Arrival
pub mod Effects
pub mod Forks
pub mod Relay
pub mod Members
pub mod Steady
pub mod Moves
pub mod Exclusion
pub mod Progress
pub mod Shortest

abbrev pub set_at {ℓ} : {A : Type ℓ} → Ptr → A → (Ptr → A) → Ptr → A
set_at p a f q = if q == p then a else f q

-- What a thread has left to do: the semaphores it waits on before it executes, the next one first.
pub data Activity : Type 0 where
  absent ended : Activity
  waits_on : List Ptr → Activity

-- A thread that executes the code of its handler.
abbrev pub executing : Activity
executing = waits_on []

-- The values of the semaphores behind some events, the newest first, but for the waits.
abbrev pub signalled_by : List Event → (Ptr → ℕ) → Ptr → ℕ
signalled_by [] sem = sem
signalled_by (sem_init p ∷ es) sem = set_at p 0 (signalled_by es sem)
signalled_by (sem_post p ∷ es) sem = set_at p (signalled_by es sem p + 1) (signalled_by es sem)
signalled_by (sem_wait p ∷ es) sem = signalled_by es sem
signalled_by (sem_destroy p ∷ es) sem = signalled_by es sem
signalled_by (pthread_create p ∷ es) sem = signalled_by es sem
signalled_by (pthread_join p ∷ es) sem = signalled_by es sem
signalled_by (free p ∷ es) sem = signalled_by es sem

-- The waits among the events, the oldest first.
abbrev pub awaited : List Event → List Ptr
awaited [] = []
awaited (sem_init p ∷ es) = awaited es
awaited (sem_post p ∷ es) = awaited es
awaited (sem_wait p ∷ es) = awaited es ++ p ∷ []
awaited (sem_destroy p ∷ es) = awaited es
awaited (pthread_create p ∷ es) = awaited es
awaited (pthread_join p ∷ es) = awaited es
awaited (free p ∷ es) = awaited es

-- The scheduler, the values of the threads' semaphores and what each thread is at.
pub record Config : Type 0 where
  pub sys : Sys
  pub sem : Ptr → ℕ
  pub act : Ptr → Activity

-- A call of the running program that forks no thread.
pub data Call (s s' : Sys) : Type 0 where
  exec : so_exec s ≡ some s' → Call s s'
  wait : (io : ℕ) (reply : Reply) → so_wait io s ≡ some (reply, s') → Call s s'
  signal : (io : ℕ) (reply : Reply) → so_signal io s ≡ some (reply, s') → Call s s'

-- Thread `c` has come as far as the first wait of the call that led to `s'` and did `events`.
abbrev pub behind_call : Ptr → Activity → Sys → List Event → Config → Config
behind_call c a s' events k = record {
  sys = s';
  sem = signalled_by events k.sem;
  act = set_at c a k.act;
}

-- A new system thread `p`, which waits on its semaphore first.
abbrev pub created : Ptr → (Ptr → Activity) → Ptr → Activity
created p act = set_at p (waits_on (p ∷ [])) act

-- One step of one thread. A new thread has an address that no thread has had, and at most the priority
-- of the thread that forks it.
pub data Move (k : Config) : Config → Type 0 where
  call :
      (c : Ptr) (s' : Sys) (events : List Event)
      → k.act c ≡ executing
      → Call k.sys s'
      → s'.log ≡ events ++ k.sys.log
      → Move k (behind_call c (waits_on (awaited events)) s' events k)
  fork :
      (c p tid func priority id : ℕ) (s' : Sys) (events : List Event)
      → k.act c ≡ executing
      → k.act p ≡ absent
      → priority ≤ so_max_prio
      → priority ≤ (k.sys.heap c).priority
      → so_fork p (some tid) (some func) priority k.sys ≡ some (id, s')
      → s'.log ≡ events ++ k.sys.log
      → Move k
          (behind_call c (waits_on (awaited events)) s' events (record k { act = created p k.act }))
  pass :
      (c w : Ptr) (ws : List Ptr) (n : ℕ)
      → k.act c ≡ waits_on (w ∷ ws)
      → k.sem w ≡ suc n
      → Move k (record k { sem = set_at w n k.sem; act = set_at c (waits_on ws) k.act })
  finish :
      (c : Ptr) (s' : Sys) (events : List Event)
      → k.act c ≡ executing
      → thread_task_end c k.sys ≡ some s'
      → s'.log ≡ events ++ k.sys.log
      → Move k (behind_call c ended s' events k)

-- A run of a program whose main thread calls `so_init` and forks the first thread, `p`, and in which no
-- thread forks one above its own priority.
pub data Runs (time_quantum : ℕ) : Config → Type 0 where
  start :
      (heap : Heap) (io p tid func priority id : ℕ) (s s' : Sys) (events : List Event)
      → so_init heap time_quantum io none ≡ (returned 0, some s)
      → priority ≤ so_max_prio
      → so_fork p (some tid) (some func) priority s ≡ some (id, s')
      → s'.log ≡ events ++ s.log
      → Runs time_quantum
          (record { sys = s'; sem = signalled_by events (λ _. 0); act = created p (λ _. absent) })
  go_on : {k k' : Config} → Runs time_quantum k → Move k k' → Runs time_quantum k'
