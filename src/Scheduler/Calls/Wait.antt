-- ===== src/Scheduler/Calls/Wait.antt =====
-- `so_wait`.
use so.Common.{
  ℕ, ◌≡◌, ◌≤◌, ◌<◌, ◌≢◌, ◌⊎◌, refl, sym, ap, ◌∙◌, false, Option, none, some, List, [], ◌∷◌, Returns,
  length, arith, ◌==◌, ◌>>=◌, inl, inr, Bool-cases, leb, lt→leb, le→leb, ne→==,
}
use so.Scheduler.Types.{Ptr, Heap, ThreadState, write_thread, not_waiting_thread}
use so.Scheduler.Queue.{front}
use so.Scheduler.Queue.Spec.{first_ready, insert}
use so.Scheduler.Queue.Ready.{first_ready-same}
use so.Scheduler.Queue.Dequeue.{front-first_ready}
use so.Scheduler.Ops.{Sys, check_preempt, schedule_thread, sem_wait}
use so.Scheduler.Spec.{View, view, shown, Ends, dispatch, yield_cpu, join_queue, give, run, logged}
use so.Scheduler.Refine.{yield_cpu_lem}
use so.Scheduler.Valid.{
  CanJoin, Valid, Base-same, SameAt-write, yield_cpu-Valid, All-map, first_ready-All,
}
use so.Scheduler.Api.{so_wait, wait_guarded, wait_front, wait_running, Reply, failed, returned}
use so.Scheduler.Calls.Presence.{InQueue, yield_cpu-InQueue}
use so.Scheduler.Calls.Inv.{Inv, IsSound, Inv-shown, Valid-logged, Inv-Running, yield_cpu-Keeps}

-- The running thread as it starts to wait, and the processor free.
abbrev pub blocked : ℕ → Ptr → Sys → Sys
blocked io r s = record s {
  heap = write_thread s.heap r (record (s.heap r) { state = ThreadState.waiting; event = io });
  running_thread = none;
}

blocked-CanJoin :
    (s : Sys) {xs ts : List Ptr} (io : ℕ) (r : Ptr)
    → Inv s xs ts
    → s.running_thread ≡ some r
    → io < s.io
    → CanJoin s.time_quantum ((blocked io r s).heap r)
blocked-CanJoin s io r inv busy lt =
    let cpu = Inv-Running inv busy in
    record {
      thread = record {
        priority = ground (arith, cpu.thread);
        some_time = ground (arith, cpu.thread);
        within = ground (arith, cpu.thread);
      };
      state = inr (ground arith, ground (arith, inv.kept));
    }

pub schedule_blocked :
    (s : Sys) {xs ts : List Ptr} (io : ℕ) (r : Ptr)
    → Inv s xs ts
    → Ends
        (blocked io r s)
        (yield_cpu r (view (blocked io r s) xs))
        (schedule_thread r (blocked io r s))
unfolding schedule_thread check_preempt
schedule_blocked s {xs} io r inv =
    yield_cpu_lem (check_preempt 2) (blocked io r s) r (view (blocked io r s) xs) s.pq inv.pq refl

pub blocked-Valid :
    (s : Sys) {xs ts : List Ptr} (io : ℕ) (r : Ptr)
    → Inv s xs ts
    → s.running_thread ≡ some r
    → io < s.io
    → Valid (yield_cpu r (view (blocked io r s) xs))
blocked-Valid s {xs} io r inv busy lt =
    let cpu = Inv-Running inv busy in
    yield_cpu-Valid r (view (blocked io r s) xs)
      (Base-same s.time_quantum s.heap (blocked io r s).heap xs
        (SameAt-write s.heap r (record (s.heap r) { state = ThreadState.waiting; event = io }) xs
          cpu.out)
        inv.valid.base)
      refl cpu.out (blocked-CanJoin s io r inv busy lt)

-- A thread that waits changes nothing about who comes first.
pub first_ready-insert_waiting :
    (h : Heap) (r : Ptr) (xs : List Ptr)
    → not_waiting_thread (h r).state ≡ false
    → first_ready h (insert h r xs) ≡ first_ready h xs
unfolding first_ready insert
first_ready-insert_waiting h r [] w = rw w
first_ready-insert_waiting h r (x ∷ xs) w = ground (arith, first_ready-insert_waiting h r xs w)

-- What a thread that has started to wait leaves behind, if `f` was the first ready thread.
record Gave (io : ℕ) (r f : Ptr) (v : View) : Type 0 where
  running : v.running_thread ≡ some f
  state : (v.heap r).state ≡ ThreadState.waiting
  event : (v.heap r).event ≡ io

give-Gave :
    (o : Option Ptr) (io : ℕ) (r f : Ptr) (v : View)
    → o ≡ some f
    → f ≢ r
    → (v.heap r).state ≡ ThreadState.waiting
    → (v.heap r).event ≡ io
    → Gave io r f (give o v)
unfolding give run
give-Gave none io r f v e ne st ev = absurd (cc)
give-Gave (some g) io r f v e ne st ev =
    let same : g ≡ f = ground arith in
    record { running = e; state = ground arith; event = ground arith }

yield_cpu-Gave :
    (io : ℕ) (r f : Ptr) (v : View)
    → first_ready v.heap v.queue ≡ some f
    → f ≢ r
    → (v.heap r).state ≡ ThreadState.waiting
    → (v.heap r).event ≡ io
    → Gave io r f (yield_cpu r v)
unfolding yield_cpu dispatch join_queue
yield_cpu-Gave io r f v e ne st ev = rw st (
    give-Gave (first_ready v.heap (insert v.heap r v.queue)) io r f
      (record v { queue = insert v.heap r v.queue })
      (first_ready-insert_waiting v.heap r v.queue (rw st) ∙ e) ne st ev)

length-first_ready :
    (h : Heap) (f : Ptr) (xs : List Ptr) → first_ready h xs ≡ some f → 0 < length xs
unfolding first_ready
length-first_ready h f [] e = cc
length-first_ready h f (x ∷ xs) e = omega arith

-- The guard of `so_wait` passes.
pub so_wait-running :
    (s : Sys) {xs ts : List Ptr} (io : ℕ) (r f : Ptr)
    → Inv s xs ts
    → s.running_thread ≡ some r
    → io < s.io
    → first_ready s.heap xs ≡ some f
    → so_wait io s ≡ wait_running io r s
unfolding so_wait wait_guarded wait_front
so_wait-running s {xs} io r f inv busy lt first =
    rw (lt→leb s.io io lt, so_wait) (rw (busy, wait_guarded) (rw filled (rw (ready, ◌>>=◌))))
  where
    filled : (s.pq.size == 0) ≡ false
    filled = ne→== s.pq.size 0 (omega (arith, inv.pq.size, length-first_ready s.heap f xs first))

    ready : front s.heap s.pq ≡ some (some f)
    ready = front-first_ready s.heap inv.pq ∙ ap some first

pub unmoved :
    (s : Sys) {xs ts : List Ptr} (io : ℕ) (r f : Ptr)
    → Inv s xs ts
    → s.running_thread ≡ some r
    → first_ready s.heap xs ≡ some f
    → first_ready (blocked io r s).heap xs ≡ some f
unmoved s {xs} io r f inv busy first =
    sym (
      first_ready-same s.heap (blocked io r s).heap xs
        (All-map xs (λ y ne. ground arith) (Inv-Running inv busy).out))
    ∙ first

apart :
    (s : Sys) {xs ts : List Ptr} (r f : Ptr)
    → Inv s xs ts
    → s.running_thread ≡ some r
    → first_ready s.heap xs ≡ some f
    → f ≢ r
apart s {xs} r f inv busy first =
    first_ready-All (λ y. y ≢ r) s.heap f xs (Inv-Running inv busy).out first

-- With an event that exists and another thread that is ready, `so_wait` returns 0: the caller stands in
-- a cell of the queue, as waiting for the event, the first ready thread runs, and the invariant holds.
pub so_wait-blocks :
    (s : Sys) {xs ts : List Ptr} (io : ℕ) (r f : Ptr)
    → Inv s xs ts
    → s.running_thread ≡ some r
    → io < s.io
    → first_ready s.heap xs ≡ some f
    → Returns
        (λ (out : Reply × Sys).
          (out.0 ≡ returned 0)
          × IsSound ts out.1
          × (out.1.running_thread ≡ some f)
          × InQueue r out.1
          × ((out.1.heap r).state ≡ ThreadState.waiting)
          × ((out.1.heap r).event ≡ io))
        (so_wait io s)
unfolding wait_running
so_wait-blocks s {xs} io r f inv busy lt first =
    let v : View = view (blocked io r s) xs in
    let w : View = logged (sem_wait r) (yield_cpu r v) in
    let (pq, out, hold) = schedule_blocked s io r inv in
    let g =
      yield_cpu-Gave io r f v (unmoved s io r f inv busy first) (apart s r f inv busy first)
        (ground arith) (ground arith) in
    (
      (returned 0, shown (blocked io r s) w pq),
      so_wait-running s io r f inv busy lt first ∙ rw out,
      (
        refl,
        (
          w.queue,
          Inv-shown (blocked io r s) w pq inv.kept hold
              (Valid-logged (sem_wait r) (yield_cpu r v) (blocked-Valid s io r inv busy lt))
              (yield_cpu-Keeps r v),
        ),
        g.running,
        yield_cpu-InQueue (blocked io r s) r f v hold g.running (apart s r f inv busy first),
        g.state,
        g.event,
      ),
    )

-- `so_wait` returns -1 and changes nothing if the event does not exist, no thread runs, or no other
-- thread is ready.
pub so_wait-failed :
    (s : Sys) {xs ts : List Ptr} (io : ℕ)
    → Inv s xs ts
    → (s.io ≤ io) ⊎ (s.running_thread ≡ none) ⊎ (first_ready s.heap xs ≡ none)
    → so_wait io s ≡ some (failed, s)
unfolding so_wait
so_wait-failed s io inv (inl ge) = rw (le→leb s.io io ge, so_wait)
so_wait-failed s {xs} io inv (inr why) = elim (Bool-cases (leb s.io io)) [
  | inl ge ↦ rw (ge, so_wait)
  | inr lt ↦ rw (lt, so_wait) (guarded s.running_thread why)
]
  where
    starved : first_ready s.heap xs ≡ none → front s.heap s.pq ≡ some none
    starved e = front-first_ready s.heap inv.pq ∙ ap some e

    guarded :
        (o : Option Ptr)
        → (o ≡ none) ⊎ (first_ready s.heap xs ≡ none)
        → wait_guarded io o s ≡ some (failed, s)
    guarded none why = refl
    guarded (some r) (inl e) = absurd (cc)
    guarded (some r) (inr e) = elim (Bool-cases (s.pq.size == 0)) [
      | inl empty ↦ rw (empty, wait_guarded)
      | inr more ↦ rw (more, wait_guarded) (rw (starved e, ◌>>=◌))
    ]
