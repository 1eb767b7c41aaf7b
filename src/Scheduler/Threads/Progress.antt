-- ===== src/Scheduler/Threads/Progress.antt =====
-- What each thread of a run can do: no thread is lost, and some thread can go on unless all wait.
use so.Common.{ℕ, ◌≡◌, ◌⊎◌, refl, none, some, List, [], ◌∷◌, ◌++◌, inl, inr, arith, Option-cases}
use mathlib.Core.Path.{subst}
use so.Scheduler.Types.{Ptr, ThreadState}
use so.Scheduler.Ops.{Event, sem_post, sem_wait}
use so.Scheduler.Spec.{View}
use so.Scheduler.Valid.{OnCpu}
use so.Scheduler.Calls.Presence.{InQueue, Memᴰ-At}
use so.Scheduler.Reach.{Served, served}
use so.Scheduler.Threads.{waits_on, awaited, Config, exec, Move, behind_call, call, pass, Runs}
use so.Scheduler.Threads.Turn.{Turn, stays, passes}
use so.Scheduler.Threads.Effects.{so_exec-Turned}
use so.Scheduler.Threads.Members.{All-at}
use so.Scheduler.Threads.Steady.{Asleep, OnTurn, Steady}
use so.Scheduler.Threads.Exclusion.{Runs-Steady}

Turn-events :
    {r : Ptr} {ys : List Ptr} {log : List Event} {w : View}
    → Turn r ys log w
    → (events : List Event) × (w.log ≡ events ++ log)
Turn-events (stays busy same all) = ([], same)
Turn-events {r} (passes x busy same all) = (sem_wait r ∷ sem_post x ∷ [], same)

-- The thread that runs can take a step.
abbrev pub CanStep : Config → Type 0
CanStep k =
    (r : Ptr) × (k.sys.running_thread ≡ some r) × OnTurn k.sem k.act r × (k' : Config) × Move k k'

turn-CanStep :
    {quantum : ℕ} {k : Config} (r : Ptr)
    → Steady quantum k
    → k.sys.running_thread ≡ some r
    → (k' : Config) × Move k k'
turn-CanStep {k = k} r st busy = elim (st.turn r busy) [
  | inl on ↦
      let (s', out, b) = so_exec-Turned k.sys r st.inv busy in
      let (events, wrote) = Turn-events b.turn in
      (
        behind_call r (waits_on (awaited events)) s' events k,
        call r s' events on.0 (exec out) wrote,
      )
  | inr on ↦ (_, pass r r [] 0 on.0 on.1)
]

-- In every run of a program in which no thread forks one above its own priority, either the thread in
-- `running_thread` can take a step, and executes or waits on its own semaphore, which has been posted;
-- or no thread runs, and each thread that has not ended waits for an event.
pub Runs-progress :
    {quantum : ℕ} {k : Config}
    → Runs quantum k
    → CanStep k
      ⊎ ((k.sys.running_thread ≡ none)
          × ((p : Ptr) (ws : List Ptr)
              → k.act p ≡ waits_on ws
              → (k.sys.heap p).state ≡ ThreadState.waiting))
Runs-progress {k = k} run =
    let st = Runs-Steady run in
    elim (Option-cases k.sys.running_thread) [
      | inr (r, busy) ↦
          let (k', move) = turn-CanStep r st busy in inl (r, busy, st.turn r busy, k', move)
      | inl free ↦
          let all = subst (OnCpu k.sys.time_quantum k.sys.heap st.queue) free st.inv.valid.cpu in
          inr (
            free,
            λ p ws e. elim (st.active p ws e) [
              | inl busy ↦ absurd (cc (free, busy))
              | inr m ↦ All-at (λ y. (k.sys.heap y).state ≡ ThreadState.waiting) p st.queue all m
            ],
          )
    ]

-- The thread stands in a cell of the queue, waits on its own semaphore, which nobody has posted, and
-- waits for an event or is outranked by the thread that runs.
abbrev pub Parked : Config → Ptr → Type 0
Parked k p = InQueue p k.sys × Asleep k.sem k.act p × Served k.sys p

-- No thread is lost: in every run of a program in which no thread forks one above its own priority, a
-- thread that was created and has not ended is the one in `running_thread`, or it stands in a cell of
-- the queue, waits on its own semaphore, which nobody has posted, and waits for an event or does not
-- have a higher priority than the thread that runs.
pub Runs-Parked :
    {quantum : ℕ} {k : Config} (p : Ptr) (ws : List Ptr)
    → Runs quantum k
    → k.act p ≡ waits_on ws
    → (k.sys.running_thread ≡ some p) ⊎ Parked k p
Runs-Parked {k = k} p ws run e =
    let st = Runs-Steady run in
    elim (st.active p ws e) [
      | inl busy ↦ inl busy
      | inr m ↦
          let (j, lt, at) = Memᴰ-At k.sys.pq.q.cell 0 p st.queue st.inv.pq.cells m in
          let all = served k.sys k.sys.running_thread st.queue refl st.inv.valid.cpu in
          inr (
            (j, omega (arith, lt, st.inv.pq.size), at),
            All-at (Asleep k.sem k.act) p st.queue st.asleep m,
            All-at (Served k.sys) p st.queue all m,
          )
    ]
