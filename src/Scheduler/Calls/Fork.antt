-- ===== src/Scheduler/Calls/Fork.antt =====
-- `so_fork`, with `create_thread` and `add_thread` of utils.c.
use so.Common.{
  ℕ, suc, ◌+◌, ◌≡◌, ◌≤◌, ◌<◌, ◌≢◌, ◌⊎◌, ◌-◌, refl, true, Option, none, some, List, [], ◌∷◌, ◌++◌,
  Returns, length, length-append, arith, ◌==◌, inl, inr, ltb, le→ltb, lt→ltb, if◌then◌else◌,
}
use so.Scheduler.Types.{Ptr, Thread, Block, write_thread, not_waiting_thread, so_max_prio}
use so.Scheduler.Queue.Spec.{At, first_ready}
use so.Scheduler.Queue.Cells.{At-frame}
use so.Scheduler.Queue.Shift.{store, write-some}
use so.Scheduler.Ops.{Sys, depth, check_preempt, schedule_thread, sem_init, pthread_create}
use so.Scheduler.Spec.{View, view, shown, Ends, join_queue, arrive}
use so.Scheduler.Refine.{schedule_lem, arrive_rest_lem}
use so.Scheduler.Valid.{
  NotIn, CanJoin, Valid, Base, OnCpu-write, Base-same, SameAt-write, join-Base, arrive-Valid,
}
use so.Scheduler.Api.{so_fork, fork_thread, create_thread, add_thread}
use so.Scheduler.Calls.Presence.{InQueue, arrive-InQueue}
use so.Scheduler.Calls.Inv.{Kept, Inv, IsSound, Inv-shown, Inv-Running, arrive-Keeps}

At-snoc :
    (c : ℕ → Option Ptr) (i : ℕ) (ts : List Ptr) (p : Ptr)
    → At c i ts
    → c (i + length ts) ≡ some p
    → At c i (ts ++ p ∷ [])
At-snoc c i [] p a e = (let z : i ≡ i + 0 = omega arith in rw z e, tt)
At-snoc c i (x ∷ ts) p a e = (
  a.0,
  At-snoc c (i + 1) ts p a.1
      (let z : i + 1 + length ts ≡ i + suc (length ts) = omega arith in rw z e),
)

-- The array of `add_thread` before the write.
abbrev grown : Sys → Block
grown s = if s.threads.allocated == 0 then record { allocated = 1; cell = λ _. none } else record {
  allocated = s.n + 1;
  cell = λ k. if ltb k s.threads.allocated then s.threads.cell k else none;
}

-- `add_thread` writes inside the allocation, and appends the thread to those that were forked.
pub add_thread_lem :
    (s : Sys) {ts : List Ptr} (p : Ptr)
    → Kept s.time_quantum s.io s.n s.threads ts
    → (b : Block) × (add_thread p s ≡ some (record s { threads = b; n = s.n + 1 }))
      × Kept s.time_quantum s.io (s.n + 1) b (ts ++ p ∷ [])
unfolding add_thread
add_thread_lem s {ts} p k =
    let last : ℕ = s.n + 1 - 1 in
    let b : Block = store (grown s) last p in
    (
      b,
      rw (write-some (grown s) last p (ground (arith, k.memory, k.count))),
      record {
        positive = k.positive;
        devices = k.devices;
        cells =
            At-snoc b.cell 0 ts p
              (At-frame s.threads.cell b.cell 0 ts (λ j _ lt. ground (arith, k.memory, k.count))
                k.cells)
              (ground (arith, k.count));
        count = omega (arith, k.count, length-append ts (p ∷ []));
        memory = ground (arith, k.memory, k.count, length-append ts (p ∷ []));
      },
    )

-- The thread that `so_fork` makes, once `pthread_create` has stored `tid`.
abbrev made : ℕ → ℕ → ℕ → Sys → Thread
made tid func priority s = record (create_thread func priority s.time_quantum) { t = tid }

-- The scheduler with the new thread, just before `schedule_thread`.
abbrev pub born : Ptr → ℕ → ℕ → ℕ → Block → Sys → Sys
born p tid func priority b s = record s {
  heap = write_thread s.heap p (record (create_thread func priority s.time_quantum) { t = tid });
  log = pthread_create p ∷ sem_init p ∷ s.log;
  threads = b;
  n = s.n + 1;
}

-- `malloc` does not return the address of a thread that is queued or that runs.
pub record Fresh (p : Ptr) (s : Sys) (xs : List Ptr) : Type 0 where
  pub queue : NotIn p xs
  pub cpu : (r : Ptr) → s.running_thread ≡ some r → r ≢ p

module _ (s : Sys) {xs ts : List Ptr} (p tid func priority : ℕ) (inv : Inv s xs ts)
    (fresh : Fresh p s xs) (b : Block) where
  born-Base : Base s.time_quantum (born p tid func priority b s).heap xs
  born-Base =
      Base-same s.time_quantum s.heap (born p tid func priority b s).heap xs
        (SameAt-write s.heap p (made tid func priority s) xs fresh.queue) inv.valid.base

  pub born-Valid : Valid (view (born p tid func priority b s) xs)
  born-Valid = record {
    base = born-Base;
    cpu =
        OnCpu-write s.time_quantum s.heap xs s.running_thread p (made tid func priority s)
          fresh.queue fresh.cpu inv.valid.cpu;
  }

  pub born-CanJoin :
      priority ≤ so_max_prio → CanJoin s.time_quantum ((born p tid func priority b s).heap p)
  unfolding create_thread
  born-CanJoin prio = record {
    thread = record {
      priority = ground arith;
      some_time = ground (arith, inv.kept);
      within = ground arith;
    };
    state = inl (ground arith, ground arith);
  }

  born-awake :
      (r : Ptr)
      → s.running_thread ≡ some r
      → not_waiting_thread ((join_queue p (view (born p tid func priority b s) xs)).heap r).state
        ≡ true
  unfolding join_queue
  born-awake r busy =
      let apart : r ≢ p = fresh.cpu r busy in ground (arith, (Inv-Running inv busy).state)

  -- `schedule_thread` on the new thread is its arrival.
  pub born-arrives :
      priority ≤ so_max_prio
      → Ends
          (born p tid func priority b s)
          (arrive p (view (born p tid func priority b s) xs))
          (schedule_thread p (born p tid func priority b s))
  unfolding schedule_thread check_preempt arrive
  born-arrives prio =
      let v : View = view (born p tid func priority b s) xs in
      schedule_lem (check_preempt depth) (born p tid func priority b s) p v s.pq (arrive p v) inv.pq
        (λ pq' hold'.
          arrive_rest_lem (check_preempt 0) (born p tid func priority b s) s.running_thread
            (first_ready (join_queue p v).heap (join_queue p v).queue) (join_queue p v) pq' hold'
            (unfold join_queue in refl)
            (unfold join_queue in (join-Base p v born-Base fresh.queue (born-CanJoin prio)).sorted)
            refl born-awake)

-- With a handler and a priority of at most SO_MAX_PRIO, `so_fork` does not fault and returns the thread
-- that `pthread_create` made; the thread then runs or stands in a cell of the queue, it is recorded
-- last among those forked, and the invariant holds.
pub so_fork-IsSound :
    (s : Sys) {xs ts : List Ptr} (p tid func priority : ℕ)
    → Inv s xs ts
    → Fresh p s xs
    → priority ≤ so_max_prio
    → Returns
        (λ (out : ℕ × Sys).
          (out.0 ≡ tid)
          × IsSound (ts ++ p ∷ []) out.1
          × ((out.1.running_thread ≡ some p) ⊎ InQueue p out.1))
        (so_fork p (some tid) (some func) priority s)
unfolding so_fork fork_thread
so_fork-IsSound s {xs} {ts} p tid func priority inv fresh prio =
    let s0 : Sys = record s {
      heap = write_thread s.heap p (made tid func priority s);
      log = pthread_create p ∷ sem_init p ∷ s.log;
    } in
    let (b, added, kept) = add_thread_lem s0 p inv.kept in
    let v : View = view (born p tid func priority b s) xs in
    let (pq, out, hold) = born-arrives s p tid func priority inv fresh b prio in
    (
      (tid, shown (born p tid func priority b s) (arrive p v) pq),
      rw (le→ltb so_max_prio priority prio, so_fork) (rw (added, fork_thread) (rw out)),
      (
        refl,
        (
          (arrive p v).queue,
          Inv-shown (born p tid func priority b s) (arrive p v) pq kept hold
              (arrive-Valid p v (born-Valid s p tid func priority inv fresh b) fresh.queue fresh.cpu
                (born-CanJoin s p tid func priority inv fresh b prio))
              (arrive-Keeps p v),
        ),
        arrive-InQueue (born p tid func priority b s) p v hold,
      ),
    )

-- Without a handler, or with a priority above SO_MAX_PRIO, `so_fork` returns INVALID_TID and changes
-- nothing.
so_fork-rejects :
    (s : Sys) (p : Ptr) (created func : Option ℕ) (priority : ℕ)
    → (func ≡ none) ⊎ (so_max_prio < priority)
    → so_fork p created func priority s ≡ some (0, s)
unfolding so_fork
so_fork-rejects s p created none priority why = refl
so_fork-rejects s p created (some func) priority (inl e) = absurd (cc)
so_fork-rejects s p created (some func) priority (inr high) =
    rw (lt→ltb so_max_prio priority high, so_fork)
