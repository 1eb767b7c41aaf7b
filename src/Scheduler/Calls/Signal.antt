-- ===== src/Scheduler/Calls/Signal.antt =====
-- `so_signal`.
use so.Common.{
  ℕ, zero, suc, ◌+◌, ◌≡◌, ◌≤◌, ◌<◌, ◌≢◌, ◌⊎◌, refl, sym, ap, ◌∙◌, true, Option, none, some, List,
  [], ◌∷◌, Returns, length, arith, ◌==◌, ◌>>=◌, inl, inr, Bool-cases, All, leb, lt→leb, le→leb,
  if◌then◌else◌,
}
use mathlib.Core.Path.{subst}
use so.Scheduler.Types.{
  Ptr, Heap, Thread, Block, write_thread, not_waiting_thread, so_max_num_events,
}
use so.Scheduler.Queue.Spec.{At, first_ready, IsSorted}
use so.Scheduler.Queue.Shift.{read-some}
use so.Scheduler.Queue.Dequeue.{size-le-allocated}
use so.Scheduler.Queue.Ready.{first_ready-not_waiting}
use so.Scheduler.Ops.{Sys, check_preempt, schedule_thread, sem_wait}
use so.Scheduler.Spec.{View, view, shown, Ends, dispatch, yield_cpu, join_queue, give, run, logged}
use so.Scheduler.Refine.{yield_cpu_lem}
use so.Scheduler.Valid.{
  NotIn, IsNodup, Queued, CanJoin, Running, Valid, Base, SameAt, SameAt-write, yield_cpu-Valid,
  All-map, All-map₂,
}
use so.Scheduler.Api.{
  so_signal, signal_guarded, signal_running, wake_loop, woken, Reply, failed, returned,
}
use so.Scheduler.Calls.Inv.{Inv, IsSound, Inv-shown, Valid-logged, Inv-Running, yield_cpu-Keeps}

-- How many queued threads wait for the event.
unfoldable pub waiters : ℕ → Heap → List Ptr → ℕ
waiters io h [] = 0
waiters io h (x ∷ xs) = (if (h x).event == io then 1 else 0) + waiters io h xs

-- The heap with every queued thread that waits for the event awake.
unfoldable pub wake : ℕ → List Ptr → Heap → Heap
wake io [] h = h
wake io (x ∷ xs) h = wake io xs (if (h x).event == io then write_thread h x (woken (h x)) else h)

wake-other : (io : ℕ) (xs : List Ptr) (h : Heap) (p : Ptr) → NotIn p xs → wake io xs h p ≡ h p
unfolding wake
wake-other io [] h p out = refl
wake-other io (x ∷ xs) h p out =
    wake-other io xs (if (h x).event == io then write_thread h x (woken (h x)) else h) p out.1
    ∙ (let apart : x ≢ p = out.0 in ground arith)

waiters-same :
    (io : ℕ) (h h' : Heap) (xs : List Ptr) → SameAt h h' xs → waiters io h' xs ≡ waiters io h xs
unfolding waiters
waiters-same io h h' [] same = refl
waiters-same io h h' (x ∷ xs) same = rw (same.0, waiters-same io h h' xs same.1)

wake_loop-wake :
    (io : ℕ) (xs : List Ptr) (n i : ℕ) (b : Block) (count : ℕ) (h : Heap)
    → n ≡ length xs
    → i + n ≤ b.allocated
    → At b.cell i xs
    → IsNodup xs
    → wake_loop io n i b count h ≡ some (count + waiters io h xs, wake io xs h)
unfolding wake_loop waiters wake
wake_loop-wake io [] zero i b count h l m a nd = ap (λ (c : ℕ). some (c, h)) (omega arith)
wake_loop-wake io [] (suc n) i b count h l m a nd = absurd (omega arith)
wake_loop-wake io (x ∷ xs) zero i b count h l m a nd = absurd (omega arith)
wake_loop-wake io (x ∷ xs) (suc n) i b count h l m a nd =
    rw (read-some b i x (omega arith) a.0) (elim (Bool-cases ((h x).event == io)) [
      | inl hit ↦
          rw (hit, ◌>>=◌)
            (wake_loop-wake io xs n (i + 1) b (count + 1) (write_thread h x (woken (h x)))
                (omega arith) (omega arith) a.1 nd.1
              ∙ ap (λ (c : ℕ). some (c, wake io xs (write_thread h x (woken (h x)))))
                  (omega (
                    arith,
                    waiters-same io h (write_thread h x (woken (h x))) xs
                        (SameAt-write h x (woken (h x)) xs nd.0),
                  )))
      | inr miss ↦
          rw (miss, ◌>>=◌)
            (wake_loop-wake io xs n (i + 1) b count h (omega arith) (omega arith) a.1 nd.1
              ∙ ap (λ (c : ℕ). some (c, wake io xs h)) (omega arith))
    ])

priority-wake :
    (io : ℕ) (xs : List Ptr) (h : Heap) (p : Ptr) → (wake io xs h p).priority ≡ (h p).priority
unfolding wake
priority-wake io [] h p = refl
priority-wake io (x ∷ xs) h p =
    priority-wake io xs (if (h x).event == io then write_thread h x (woken (h x)) else h) p
    ∙ ground arith

-- What becomes of a queued thread.
abbrev pub after : ℕ → Thread → Thread
after io th = if th.event == io then woken th else th

wake-after :
    (io : ℕ) (xs : List Ptr) (h : Heap) → IsNodup xs → All (λ y. wake io xs h y ≡ after io (h y)) xs
unfolding wake
wake-after io [] h nd = tt
wake-after io (x ∷ xs) h nd = (
  wake-other io xs h1 x nd.0 ∙ here,
  All-map₂ xs (λ y e w. w ∙ ap (after io) (one y e)) nd.0 (wake-after io xs h1 nd.1),
)
  where
    h1 : Heap
    h1 = if (h x).event == io then write_thread h x (woken (h x)) else h

    here : h1 x ≡ after io (h x)
    here = ground arith

    one : (y : Ptr) → y ≢ x → h1 y ≡ h y
    one y ne = ground arith

IsSorted-priority :
    (h h' : Heap) (xs : List Ptr)
    → ((p : Ptr) → (h' p).priority ≡ (h p).priority)
    → IsSorted h xs
    → IsSorted h' xs
IsSorted-priority h h' [] same s = tt
IsSorted-priority h h' (x ∷ xs) same s =
    (All-map xs (λ y le. omega (arith, same x, same y)) s.0, IsSorted-priority h h' xs same s.1)

after-Queued :
    (q io : ℕ) (th : Thread) → io < so_max_num_events → Queued q th → Queued q (after io th)
after-Queued q io th lt w = record {
  thread = record {
    priority = ground (arith, w.thread);
    some_time = ground (arith, w.thread);
    within = ground (arith, w.thread);
  };
  state = ground (arith, w.state);
}

wake-Base :
    (q io : ℕ) (h : Heap) (xs : List Ptr)
    → io < so_max_num_events
    → Base q h xs
    → Base q (wake io xs h) xs
wake-Base q io h xs lt b = record {
  sorted = IsSorted-priority h (wake io xs h) xs (priority-wake io xs h) b.sorted;
  nodup = b.nodup;
  queued =
      All-map₂ xs (λ y e w. subst (Queued q) (sym e) (after-Queued q io (h y) lt w))
        (wake-after io xs h b.nodup) b.queued;
}

-- The running thread as it gives way to those that it has woken, and the processor free.
abbrev pub signalled : ℕ → List Ptr → Sys → Sys
signalled io xs s = record s { heap = wake io xs s.heap; running_thread = none }

module _ (s : Sys) {xs ts : List Ptr} (io : ℕ) (r : Ptr) (inv : Inv s xs ts)
    (busy : s.running_thread ≡ some r) (lt : io < s.io) where
  cpu : Running s.time_quantum s.heap xs r
  cpu = Inv-Running inv busy

  pub signaller : wake io xs s.heap r ≡ s.heap r
  signaller = wake-other io xs s.heap r cpu.out

  pub signalled-Valid : Valid (yield_cpu r (view (signalled io xs s) xs))
  signalled-Valid =
      yield_cpu-Valid r (view (signalled io xs s) xs)
        (wake-Base s.time_quantum io s.heap xs (omega (arith, inv.kept.devices)) inv.valid.base)
        refl cpu.out
        (subst (CanJoin s.time_quantum) (sym signaller)
          (record { thread = cpu.thread; state = inl (ground (arith, cpu.state), cpu.event) }))

  pub schedule_signalled :
      Ends
        (signalled io xs s)
        (yield_cpu r (view (signalled io xs s) xs))
        (schedule_thread r (signalled io xs s))
  unfolding schedule_thread check_preempt
  schedule_signalled =
      yield_cpu_lem (check_preempt 2) (signalled io xs s) r (view (signalled io xs s) xs) s.pq
        inv.pq refl

  pub so_signal-running : so_signal io s ≡ signal_running io r s
  unfolding so_signal signal_guarded
  so_signal-running = rw (lt→leb s.io io lt, so_signal) (rw (busy, signal_guarded))

  pub woke :
      wake_loop io s.pq.size 0 s.pq.q 0 s.heap ≡ some (0 + waiters io s.heap xs, wake io xs s.heap)
  woke =
      wake_loop-wake io xs s.pq.size 0 s.pq.q 0 s.heap inv.pq.size
        (omega (arith, size-le-allocated inv.pq, inv.pq.size)) inv.pq.cells inv.valid.base.nodup

-- Neither the event of a thread nor whether it waits.
abbrev pub SameWait : Thread → Thread → Type 0
SameWait a b = (a.event ≡ b.event) × (not_waiting_thread a.state ≡ not_waiting_thread b.state)

give-SameWait :
    (o : Option Ptr) (v : View) (p : Ptr)
    → first_ready v.heap v.queue ≡ o
    → SameWait ((give o v).heap p) (v.heap p)
unfolding give run
give-SameWait none v p e = (refl, refl)
give-SameWait (some f) v p e =
    let free : not_waiting_thread (v.heap f).state ≡ true =
      first_ready-not_waiting v.heap f v.queue e in
    (ground arith, ground arith)

join-SameWait : (t : Ptr) (v : View) (p : Ptr) → SameWait ((join_queue t v).heap p) (v.heap p)
unfolding join_queue
join-SameWait t v p = (ground arith, ground arith)

yield_cpu-SameWait : (t : Ptr) (v : View) (p : Ptr) → SameWait ((yield_cpu t v).heap p) (v.heap p)
unfolding yield_cpu dispatch
yield_cpu-SameWait t v p =
    let a = join-SameWait t v p in
    let b =
      give-SameWait (first_ready (join_queue t v).heap (join_queue t v).queue) (join_queue t v) p
        refl in
    (b.0 ∙ a.0, b.1 ∙ a.1)

pub so_signal-wakes :
    (s : Sys) {xs ts : List Ptr} (io : ℕ) (r : Ptr)
    → Inv s xs ts
    → s.running_thread ≡ some r
    → io < s.io
    → Returns
        (λ (out : Reply × Sys).
          (out.0 ≡ returned (waiters io s.heap xs))
          × IsSound ts out.1
          × All (λ y. SameWait (out.1.heap y) (after io (s.heap y))) xs)
        (so_signal io s)
unfolding signal_running
so_signal-wakes s {xs} io r inv busy lt =
    let v : View = view (signalled io xs s) xs in
    let w : View = logged (sem_wait r) (yield_cpu r v) in
    let (pq, out, hold) = schedule_signalled s io r inv busy lt in
    (
      (returned (0 + waiters io s.heap xs), shown (signalled io xs s) w pq),
      so_signal-running s io r inv busy lt ∙ rw (woke s io r inv busy lt) (rw (out, ◌>>=◌)),
      (
        ap returned (omega arith),
        (
          w.queue,
          Inv-shown (signalled io xs s) w pq inv.kept hold
              (Valid-logged (sem_wait r) (yield_cpu r v) (signalled-Valid s io r inv busy lt))
              (yield_cpu-Keeps r v),
        ),
        All-map xs (λ y e. subst (SameWait ((yield_cpu r v).heap y)) e (yield_cpu-SameWait r v y))
            (wake-after io xs s.heap inv.valid.base.nodup),
      ),
    )

-- `so_signal` returns -1 and changes nothing if the event does not exist or no thread runs.
pub so_signal-failed :
    (s : Sys) (io : ℕ) → (s.io ≤ io) ⊎ (s.running_thread ≡ none) → so_signal io s ≡ some (failed, s)
unfolding so_signal
so_signal-failed s io (inl ge) = rw (le→leb s.io io ge, so_signal)
so_signal-failed s io (inr idle) = elim (Bool-cases (leb s.io io)) [
  | inl ge ↦ rw (ge, so_signal)
  | inr lt ↦ rw (lt, so_signal) (rw (idle, signal_guarded))
]
