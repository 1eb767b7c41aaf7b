-- ===== src/Scheduler/Threads/Relay.antt =====
-- What the end of a thread and the first `so_fork` do, while the processor is free.
use so.Common.{
  ℕ, true, ◌≡◌, ◌≤◌, ◌↔◌, refl, sym, none, some, List, [], ◌∷◌, ◌++◌, All, Returns, arith,
  Option-cases, inl, inr,
}
use mathlib.Core.Path.{subst}
use so.Scheduler.Types.{Ptr, Heap, ThreadState, not_waiting_thread, so_max_prio}
use so.Scheduler.Queue.Spec.{first_ready, insert, erase_ready}
use so.Scheduler.Ops.{Event, Sys, set_state, sem_init, sem_post, pthread_create}
use so.Scheduler.Spec.{View, view, shown, run, give, dispatch, join_queue, arrive, arrive_rest}
use so.Scheduler.Valid.{dispatch-Valid}
use so.Scheduler.Api.{so_fork, create_thread, thread_task_end}
use so.Scheduler.Calls.Inv.{Inv, Inv-shown, dispatch-Keeps}
use so.Scheduler.Calls.Exec.{finished, finished-Base, thread_task_end-dispatch}
use so.Scheduler.Calls.Fork.{born}
use so.Scheduler.Threads.Turn.{erase_ready-All}
use so.Scheduler.Threads.Effects.{Behind}
use so.Scheduler.Threads.Forks.{so_fork-Behind}

-- The processor stays free, or its new thread is posted. The threads in `ys` are those that are queued
-- then, and the new one.
pub data Relay (ys : List Ptr) (log : List Event) (w : View) : Type 1 where
  idles :
      w.running_thread ≡ none
      → w.log ≡ log
      → ((P : Ptr → Type 0) → All P ys ↔ All P w.queue)
      → Relay ys log w
  posts :
      (x : Ptr)
      → w.running_thread ≡ some x
      → w.log ≡ sem_post x ∷ log
      → ((P : Ptr → Type 0) → All P ys ↔ (P x × All P w.queue))
      → Relay ys log w

dispatch-Relay : (v : View) → v.running_thread ≡ none → Relay v.queue v.log (dispatch v)
unfolding dispatch
dispatch-Relay v free = elim (Option-cases (first_ready v.heap v.queue)) [
  | inl e ↦
      subst (λ o. Relay v.queue v.log (give o v)) (sym e)
        (unfold give in idles free refl (λ P. (λ a. a, λ a. a)))
  | inr (x, e) ↦
      subst (λ o. Relay v.queue v.log (give o v)) (sym e)
        (unfold give in unfold run in posts x refl refl (λ P. erase_ready-All P v.heap x v.queue e))
]

-- The end of the running thread `r`.
pub thread_task_end-Relay :
    (s : Sys) {xs ts : List Ptr} (r : Ptr)
    → Inv s xs ts
    → s.running_thread ≡ some r
    → Returns (Behind (Relay xs s.log) ts s.time_quantum) (thread_task_end r s)
thread_task_end-Relay s {xs} r inv busy =
    let v : View = view (finished r s) xs in
    let (pq, out, hold) = thread_task_end-dispatch s r inv in
    (
      shown (finished r s) (dispatch v) pq,
      out,
      record {
        queue = (dispatch v).queue;
        inv =
            Inv-shown (finished r s) (dispatch v) pq inv.kept hold
              (dispatch-Valid v (finished-Base s r inv busy) refl) (dispatch-Keeps v);
        turn = dispatch-Relay v refl;
        same = dispatch-Keeps v;
      },
    )

-- The thread `p` has arrived and runs, and no other thread is queued.
pub record Alone (p : Ptr) (log : List Event) (w : View) : Type 1 where
  pub busy : w.running_thread ≡ some p
  pub posted : w.log ≡ sem_post p ∷ log
  pub alone : w.queue ≡ []

gone : (h : Heap) (p : Ptr) → erase_ready (set_state h p ThreadState.ready) (p ∷ []) ≡ []
unfolding erase_ready
gone h p = ground arith

arrive-first :
    (p : Ptr) (v : View)
    → v.running_thread ≡ none
    → v.queue ≡ []
    → not_waiting_thread (v.heap p).state ≡ true
    → Alone p v.log (arrive p v)
unfolding arrive arrive_rest join_queue give run first_ready insert
arrive-first p v free empty awake =
    let made : (set_state v.heap p ThreadState.ready p).state ≡ ThreadState.ready = ground arith in
    rw (free, empty, awake) (rw made (record { busy = refl; posted = refl; alone = gone v.heap p }))

-- The first `so_fork`, when the scheduler has no threads.
pub so_fork-first :
    (s : Sys) {ts : List Ptr} (p tid func priority : ℕ)
    → Inv s [] ts
    → s.running_thread ≡ none
    → priority ≤ so_max_prio
    → Returns
        (λ (out : ℕ × Sys).
          Behind
            (Alone p (pthread_create p ∷ sem_init p ∷ s.log))
            (ts ++ p ∷ [])
            s.time_quantum
            out.1)
        (so_fork p (some tid) (some func) priority s)
unfolding create_thread
so_fork-first s p tid func priority inv free prio =
    so_fork-Behind (Alone p (pthread_create p ∷ sem_init p ∷ s.log)) s p tid func priority inv
      (record { queue = tt; cpu = λ r busy. absurd (cc (free, busy)) }) prio
      (λ b. arrive-first p (view (born p tid func priority b s) []) free refl (ground arith))
