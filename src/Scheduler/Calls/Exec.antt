-- ===== src/Scheduler/Calls/Exec.antt =====
-- `so_exec` and the end of `thread_task`.
use so.Common.{
  ℕ, ◌≡◌, ◌≤◌, ◌<◌, ◌≢◌, ◌-◌, refl, sym, ap, ◌∙◌, false, none, some, List, [], ◌∷◌, Returns, arith,
  ◌==◌, Option-cases, inl, inr, ◌^◌, ne→==,
}
use so.Scheduler.Types.{Ptr, Heap, ThreadState, write_thread}
use so.Scheduler.Queue.Spec.{first_ready, insert, IsSorted}
use so.Scheduler.Queue.Ready.{
  first_ready-le, first_ready-same, IsSorted-same, SameKeys, SameKeys-of,
}
use so.Scheduler.Queue.Dequeue.{front-first_ready}
use so.Scheduler.Ops.{Sys, depth, check_preempt, exec_running, exec_rest, decrement, sem_wait}
use so.Scheduler.Spec.{
  View, view, shown, Ends, dispatch, tick, tick_rest, logged, run, join_queue, freed, yield_cpu,
  give,
}
use so.Scheduler.Refine.{Ends-from, dispatch_lem, tick_lem, fixed_join}
use so.Scheduler.Valid.{
  NotIn, All-map, first_ready-All, Busy, Base, Base-same, SameAt-write, tick-Valid, dispatch-Valid,
}
use so.Scheduler.Api.{so_exec, thread_task_end}
use so.Scheduler.Calls.Inv.{
  Inv, IsSound, Inv-shown, Inv-Ends, Inv-Running, tick-Keeps, dispatch-Keeps,
}

-- While no thread runs, `so_exec` does nothing.
pub so_exec-idle : (s : Sys) → s.running_thread ≡ none → so_exec s ≡ some s
unfolding so_exec
so_exec-idle s e = rw e

-- While `r` runs, `so_exec` is one tick of `r`.
pub so_exec-tick :
    (s : Sys) {xs ts : List Ptr} (r : Ptr)
    → Inv s xs ts
    → s.running_thread ≡ some r
    → Ends s (tick r (view s xs)) (so_exec s)
unfolding so_exec
so_exec-tick s {xs} r inv busy =
    Ends-from s (tick r (view s xs)) (rw busy)
      (tick_lem (check_preempt 2) s r (view s xs) s.pq inv.pq)

pub Inv-Busy :
    (s : Sys) {xs ts : List Ptr} (r : Ptr)
    → Inv s xs ts
    → s.running_thread ≡ some r
    → Busy r (view s xs)
Inv-Busy s r inv busy = record { base = inv.valid.base; cpu = Inv-Running inv busy }

-- `so_exec` never faults, needs no more fuel than it has, and keeps the invariant.
pub so_exec-IsSound : (s : Sys) {xs ts : List Ptr} → Inv s xs ts → Returns (IsSound ts) (so_exec s)
so_exec-IsSound s {xs} inv = elim (Option-cases s.running_thread) [
  | inl idle ↦ (s, so_exec-idle s idle, (xs, inv))
  | inr (r, busy) ↦
      Inv-Ends s (tick r (view s xs)) inv.kept (so_exec-tick s r inv busy)
        (tick-Valid r (view s xs) (Inv-Busy s r inv busy) busy) (tick-Keeps r (view s xs))
]

-- The running thread as its handler has returned, and the processor free.
abbrev pub finished : Ptr → Sys → Sys
finished r s = record s {
  heap = write_thread s.heap r (record (s.heap r) { state = ThreadState.terminated });
  running_thread = none;
}

pub finished-Base :
    (s : Sys) {xs ts : List Ptr} (r : Ptr)
    → Inv s xs ts
    → s.running_thread ≡ some r
    → Base s.time_quantum (finished r s).heap xs
finished-Base s {xs} r inv busy =
    Base-same s.time_quantum s.heap (finished r s).heap xs
      (SameAt-write s.heap r (record (s.heap r) { state = ThreadState.terminated }) xs
        (Inv-Running inv busy).out)
      inv.valid.base

-- The end of a thread gives the processor to the first ready thread.
pub thread_task_end-dispatch :
    (s : Sys) {xs ts : List Ptr} (r : Ptr)
    → Inv s xs ts
    → Ends (finished r s) (dispatch (view (finished r s) xs)) (thread_task_end r s)
unfolding thread_task_end check_preempt
thread_task_end-dispatch s {xs} r inv =
    rw (front-first_ready (finished r s).heap inv.pq)
      (dispatch_lem (check_preempt 2) (finished r s) (view (finished r s) xs) s.pq inv.pq refl)

-- The end of the running thread never faults and keeps the invariant.
pub thread_task_end-IsSound :
    (s : Sys) {xs ts : List Ptr} (r : Ptr)
    → Inv s xs ts
    → s.running_thread ≡ some r
    → Returns (IsSound ts) (thread_task_end r s)
thread_task_end-IsSound s {xs} r inv busy =
    let v : View = view (finished r s) xs in
    Inv-Ends (finished r s) (dispatch v) inv.kept (thread_task_end-dispatch s r inv)
      (dispatch-Valid v (finished-Base s r inv busy) refl) (dispatch-Keeps v)

so_exec-running :
    (s : Sys) (r : Ptr)
    → s.running_thread ≡ some r
    → so_exec s ≡ exec_running (check_preempt depth) r s
unfolding so_exec
so_exec-running s r busy = rw busy

-- While `r` has more than one unit of time left, `so_exec` only takes one from it: `r` runs on, and
-- the queue and the log stay as they are.
pub so_exec-counts :
    (s : Sys) {xs ts : List Ptr} (r : Ptr)
    → Inv s xs ts
    → s.running_thread ≡ some r
    → 1 < (s.heap r).time_quantum
    → s.time_quantum < 2 ^ 32
    → so_exec s
      ≡ some (record s {
        heap =
            write_thread s.heap r
              (record (s.heap r) { time_quantum = (s.heap r).time_quantum - 1 });
      })
unfolding exec_running exec_rest
so_exec-counts s r inv busy more word =
    let within = (Inv-Running inv busy).thread.within in
    let less : decrement (s.heap r).time_quantum ≡ (s.heap r).time_quantum - 1 = omega arith in
    let runs : ((s.heap r).time_quantum - 1 == 0) ≡ false = ne→== _ 0 (omega arith) in
    so_exec-running s r busy ∙ rw less (rw runs)

-- Behind a ready thread of at least its priority a newcomer does not come first.
first_ready-insert_behind :
    (h : Heap) (r f : Ptr) (xs : List Ptr)
    → IsSorted h xs
    → first_ready h xs ≡ some f
    → (h r).priority ≤ (h f).priority
    → first_ready h (insert h r xs) ≡ some f
unfolding first_ready insert
first_ready-insert_behind h r f [] s e le = absurd (cc)
first_ready-insert_behind h r f (x ∷ xs) s e le =
    ground (arith, first_ready-insert_behind h r f xs s.1, first_ready-le h (h x).priority f xs s.0)

-- At the end of the quantum of `r`, the first ready thread comes first in the queue with `r` as well.
pub rotate-next :
    (r f : Ptr) (v : View)
    → IsSorted v.heap v.queue
    → NotIn r v.queue
    → first_ready v.heap v.queue ≡ some f
    → (v.heap r).priority ≤ (v.heap f).priority
    → first_ready (join_queue r (freed r v)).heap (insert (freed r v).heap r v.queue) ≡ some f
rotate-next r f v sorted out first le =
    sym (
      first_ready-same h1 h2 (insert h1 r v.queue)
        (SameKeys-of h1 h2 (insert h1 r v.queue) (λ p. fixed_join r (freed r v) p)))
    ∙ first_ready-insert_behind h1 r f v.queue (IsSorted-same v.heap h1 v.queue same sorted)
        (sym (first_ready-same v.heap h1 v.queue same) ∙ first) (ground arith)
  where
    h1 : Heap
    h1 = (freed r v).heap

    h2 : Heap
    h2 = (join_queue r (freed r v)).heap

    same : SameKeys v.heap h1 v.queue
    same = All-map v.queue (λ y ne. (ground arith, ground arith)) out

    apart : f ≢ r
    apart = first_ready-All (λ y. y ≢ r) v.heap f v.queue out first

-- The thread that `r` gives way to, at the end of its quantum.
pub rotate :
    (r f : Ptr) (v : View)
    → IsSorted v.heap v.queue
    → NotIn r v.queue
    → first_ready v.heap v.queue ≡ some f
    → (v.heap r).priority ≤ (v.heap f).priority
    → (v.heap r).time_quantum ≡ 1
    → tick r v ≡ logged (sem_wait r) (run f (join_queue r (freed r v)))
unfolding tick tick_rest yield_cpu dispatch give
rotate r f v sorted out first le one =
    ap (λ (q : ℕ). tick_rest (decrement q == 0) r (decrement q) v) one
    ∙ ap (λ o. logged (sem_wait r) (give o (join_queue r (freed r v))))
        (unfold join_queue in rotate-next r f v sorted out first le)

rotated :
    (r f : Ptr) (v : View)
    → f ≢ r
    → let h = (run f (join_queue r (freed r v))).heap in
      ((h r).state ≡ ThreadState.ready) × ((h r).time_quantum ≡ v.time_quantum)
unfolding run join_queue
rotated r f v ne = (ground arith, ground arith)

-- Round robin: when `r` uses up its last unit of time and a ready thread has its priority, the first
-- ready thread runs next; `r` is ready and has a full quantum again, and the invariant holds.
pub so_exec-rotates :
    (s : Sys) {xs ts : List Ptr} (r f : Ptr)
    → Inv s xs ts
    → s.running_thread ≡ some r
    → (s.heap r).time_quantum ≡ 1
    → first_ready s.heap xs ≡ some f
    → (s.heap r).priority ≤ (s.heap f).priority
    → Returns
        (λ s'.
          (s'.running_thread ≡ some f)
          × ((s'.heap r).state ≡ ThreadState.ready)
          × ((s'.heap r).time_quantum ≡ s.time_quantum)
          × IsSound ts s')
        (so_exec s)
so_exec-rotates s {xs} r f inv busy one first le =
    let v : View = view s xs in
    let (pq, out, hold) = so_exec-tick s r inv busy in
    let cpu = Inv-Running inv busy in
    let e = rotate r f v inv.valid.base.sorted cpu.out first le one in
    let apart = first_ready-All (λ y. y ≢ r) s.heap f xs cpu.out first in
    (
      shown s (tick r v) pq,
      out,
      (
        ap (λ (w : View). w.running_thread) e ∙ (unfold run in refl),
        ap (λ (w : View). (w.heap r).state) e ∙ (rotated r f v apart).0,
        ap (λ (w : View). (w.heap r).time_quantum) e ∙ (rotated r f v apart).1,
        (
          (tick r v).queue,
          Inv-shown s (tick r v) pq inv.kept hold (tick-Valid r v (Inv-Busy s r inv busy) busy)
              (tick-Keeps r v),
        ),
      ),
    )
