-- ===== src/Scheduler/Threads/Effects.antt =====
-- What each call does to the semaphores and to the turn, in a sound scheduler.
use so.Common.{
  ℕ, ◌+◌, ◌≡◌, ◌<◌, refl, ap, ◌∙◌, true, some, List, Returns, arith, inl, inr, leb, leb→lt, leb→le,
  Bool-cases, Option-cases, ◌>>=◌,
}
use so.Scheduler.Types.{Ptr, ThreadState, not_waiting_thread}
use so.Scheduler.Queue.Spec.{first_ready, insert}
use so.Scheduler.Ops.{Event, Sys, sem_wait}
use so.Scheduler.Spec.{View, view, shown, logged, join_queue, yield_cpu, tick}
use so.Scheduler.Api.{
  Reply, failed, returned, so_wait, so_signal, so_exec, wait_running, signal_running,
}
use so.Scheduler.Calls.Inv.{Inv, Inv-shown, Inv-Running, Valid-logged, tick-Keeps, yield_cpu-Keeps}
use so.Scheduler.Calls.Exec.{so_exec-tick, Inv-Busy}
use so.Scheduler.Valid.{tick-Valid}
use so.Scheduler.Calls.Wait.{
  blocked, schedule_blocked, blocked-Valid, first_ready-insert_waiting, so_wait-running, unmoved,
  so_wait-failed,
}
use so.Scheduler.Calls.Signal.{
  signalled, schedule_signalled, signalled-Valid, so_signal-running, so_signal-failed, woke,
  waiters, signaller,
}
use so.Scheduler.Threads.Turn.{Turn, stays, yield_cpu-Turn, tick-Turn, ready-join}

-- A sound state behind a call, whose view satisfies `T`.
pub record Behind (T : View → Type 1) (ts : List Ptr) (quantum : ℕ) (s : Sys) : Type 1 where
  pub queue : List Ptr
  pub inv : Inv s queue ts
  pub turn : T (view s queue)
  pub same : s.time_quantum ≡ quantum

-- A sound state behind a call of the running thread `r`, with what the call has done.
abbrev pub Turned : Ptr → List Ptr → List Event → List Ptr → ℕ → Sys → Type 1
Turned r ys log ts quantum s = Behind (Turn r ys log) ts quantum s

unchanged :
    (s : Sys) {xs ts : List Ptr} (r : Ptr)
    → Inv s xs ts
    → s.running_thread ≡ some r
    → Turned r xs s.log ts s.time_quantum s
unchanged s {xs} r inv busy = record {
  queue = xs;
  inv = inv;
  turn = stays busy refl (λ P. (λ a. a, λ a. a));
  same = refl;
}

pub so_exec-Turned :
    (s : Sys) {xs ts : List Ptr} (r : Ptr)
    → Inv s xs ts
    → s.running_thread ≡ some r
    → Returns (Turned r xs s.log ts s.time_quantum) (so_exec s)
so_exec-Turned s {xs} r inv busy =
    let v : View = view s xs in
    let (pq, out, hold) = so_exec-tick s r inv busy in
    (
      shown s (tick r v) pq,
      out,
      record {
        queue = (tick r v).queue;
        inv =
            Inv-shown s (tick r v) pq inv.kept hold (tick-Valid r v (Inv-Busy s r inv busy) busy)
              (tick-Keeps r v);
        turn = tick-Turn r v busy;
        same = tick-Keeps r v;
      },
    )

-- A thread that starts to wait does not come first.
first-blocked :
    (r f : Ptr) (v : View)
    → (v.heap r).state ≡ ThreadState.waiting
    → first_ready v.heap v.queue ≡ some f
    → first_ready (join_queue r v).heap (insert v.heap r v.queue) ≡ some f
unfolding join_queue
first-blocked r f v waits first =
    rw waits (first_ready-insert_waiting v.heap r v.queue (rw waits) ∙ first)

so_wait-passes :
    (s : Sys) {xs ts : List Ptr} (io : ℕ) (r f : Ptr)
    → Inv s xs ts
    → s.running_thread ≡ some r
    → io < s.io
    → first_ready s.heap xs ≡ some f
    → Returns (λ (out : Reply × Sys). Turned r xs s.log ts s.time_quantum out.1) (so_wait io s)
unfolding wait_running
so_wait-passes s {xs} io r f inv busy lt first =
    let v : View = view (blocked io r s) xs in
    let w : View = logged (sem_wait r) (yield_cpu r v) in
    let (pq, out, hold) = schedule_blocked s io r inv in
    (
      (returned 0, shown (blocked io r s) w pq),
      so_wait-running s io r f inv busy lt first ∙ rw out,
      record {
        queue = w.queue;
        inv =
            Inv-shown (blocked io r s) w pq inv.kept hold
              (Valid-logged (sem_wait r) (yield_cpu r v) (blocked-Valid s io r inv busy lt))
              (yield_cpu-Keeps r v);
        turn =
            yield_cpu-Turn r f v
              (first-blocked r f v (ground arith) (unmoved s io r f inv busy first));
        same = yield_cpu-Keeps r v;
      },
    )

pub so_wait-Turned :
    (s : Sys) {xs ts : List Ptr} (io : ℕ) (r : Ptr)
    → Inv s xs ts
    → s.running_thread ≡ some r
    → Returns (λ (out : Reply × Sys). Turned r xs s.log ts s.time_quantum out.1) (so_wait io s)
so_wait-Turned s {xs} io r inv busy = elim (Bool-cases (leb s.io io)) [
  | inl ge ↦ ((failed, s), so_wait-failed s io inv (inl (leb→le _ _ ge)), unchanged s r inv busy)
  | inr lt ↦ elim (Option-cases (first_ready s.heap xs)) [
    | inl starved ↦
        ((failed, s), so_wait-failed s io inv (inr (inr starved)), unchanged s r inv busy)
    | inr (f, first) ↦ so_wait-passes s io r f inv busy (leb→lt _ _ lt) first
  ]
]

so_signal-passes :
    (s : Sys) {xs ts : List Ptr} (io : ℕ) (r : Ptr)
    → Inv s xs ts
    → s.running_thread ≡ some r
    → io < s.io
    → Returns (λ (out : Reply × Sys). Turned r xs s.log ts s.time_quantum out.1) (so_signal io s)
unfolding signal_running
so_signal-passes s {xs} io r inv busy lt =
    let v : View = view (signalled io xs s) xs in
    let w : View = logged (sem_wait r) (yield_cpu r v) in
    let (pq, out, hold) = schedule_signalled s io r inv busy lt in
    let awake : not_waiting_thread (v.heap r).state ≡ true =
      ap (λ th. not_waiting_thread th.state) (signaller s io r inv busy lt)
      ∙ ap not_waiting_thread (Inv-Running inv busy).state in
    let (x, first) = ready-join r v awake in
    (
      (returned (0 + waiters io s.heap xs), shown (signalled io xs s) w pq),
      so_signal-running s io r inv busy lt ∙ rw (woke s io r inv busy lt) (rw (out, ◌>>=◌)),
      record {
        queue = w.queue;
        inv =
            Inv-shown (signalled io xs s) w pq inv.kept hold
              (Valid-logged (sem_wait r) (yield_cpu r v) (signalled-Valid s io r inv busy lt))
              (yield_cpu-Keeps r v);
        turn = yield_cpu-Turn r x v first;
        same = yield_cpu-Keeps r v;
      },
    )

pub so_signal-Turned :
    (s : Sys) {xs ts : List Ptr} (io : ℕ) (r : Ptr)
    → Inv s xs ts
    → s.running_thread ≡ some r
    → Returns (λ (out : Reply × Sys). Turned r xs s.log ts s.time_quantum out.1) (so_signal io s)
so_signal-Turned s io r inv busy = elim (Bool-cases (leb s.io io)) [
  | inl ge ↦ ((failed, s), so_signal-failed s io (inl (leb→le _ _ ge)), unchanged s r inv busy)
  | inr lt ↦ so_signal-passes s io r inv busy (leb→lt _ _ lt)
]
