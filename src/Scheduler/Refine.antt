-- ===== src/Scheduler/Refine.antt =====
-- The scheduling core does what `Scheduler.Spec` says: no fault, and enough fuel.
use so.Common.{
  ℕ, ◌≡◌, ◌≤◌, refl, ap, sym, ◌∙◌, Bool, true, false, Option, none, some, List, ◌∷◌, inl, inr, ◌⊎◌,
  ltb, ◌==◌, ◌>>=◌, arith, le→ltb,
}
use so.Scheduler.Types.{Ptr, Heap, not_waiting_thread, Pq}
use so.Scheduler.Queue.Spec.{first_ready, erase_ready, IsSorted, Holds}
use so.Scheduler.Queue.Enqueue.{enqueue-insert}
use so.Scheduler.Queue.Dequeue.{front-first_ready, dequeue-erase_ready}
use so.Scheduler.Queue.Ready.{
  SameKey, SameKeys-of, first_ready-same, first_ready-insert, first_ready-not_waiting, second-le,
}
use so.Scheduler.Ops.{
  Event, Sys, decrement, sem_wait, schedule_thread_with, exec_running, exec_rest, so_exec_with,
  hand_over, challenge, check_preempt_with,
}
use so.Scheduler.Spec.{
  View, shown, Ends, logged, run, dispatch, join_queue, yield_cpu, tick, tick_rest, freed, contest,
  arrive_rest, give,
}

abbrev Check : Type 0
Check = Option Ptr → Sys → Option Sys

pub hand_over_lem :
    (s : Sys) (t : Ptr) (v : View) (pq : Pq)
    → Holds pq v.queue
    → first_ready v.heap v.queue ≡ some t
    → Ends s (run t v) (hand_over t (shown s v pq))
unfolding hand_over run
hand_over_lem s t v pq hold e =
    let (pq', out, hold') = dequeue-erase_ready v.heap hold in (pq', rw out, hold')

pub Ends-from : (s : Sys) (v : View) {r r' : Option Sys} → r ≡ r' → Ends s v r' → Ends s v r
Ends-from s v e (pq, out, hold) = (pq, e ∙ out, hold)

-- What `sem_wait` at the end of a call adds.
Ends-logged :
    (s : Sys) (v : View) {r : Option Sys} (e : Event)
    → Ends s v r
    → Ends s (logged e v) (do s' ← r; some (record s' { log = e ∷ s'.log }))
Ends-logged s v e (pq, out, hold) = (pq, rw out, hold)

give_lem :
    (check : Check) (s : Sys) (o : Option Ptr) (v : View) (pq : Pq)
    → Holds pq v.queue
    → v.running_thread ≡ none
    → first_ready v.heap v.queue ≡ o
    → Ends s (give o v) (check_preempt_with check o (shown s v pq))
unfolding check_preempt_with give
give_lem check s none v pq hold idle e = (pq, refl, hold)
give_lem check s (some t) v pq hold idle e =
    Ends-from s (run t v) (rw idle) (hand_over_lem s t v pq hold e)

pub dispatch_lem :
    (check : Check) (s : Sys) (v : View) (pq : Pq)
    → Holds pq v.queue
    → v.running_thread ≡ none
    → Ends s (dispatch v) (check_preempt_with check (first_ready v.heap v.queue) (shown s v pq))
unfolding dispatch
dispatch_lem check s v pq hold idle =
    give_lem check s (first_ready v.heap v.queue) v pq hold idle refl

-- `schedule_thread` up to its call of `check_preempt`.
pub schedule_lem :
    (check : Check) (s : Sys) (t : Ptr) (v : View) (pq : Pq) (w : View)
    → Holds pq v.queue
    → ((pq' : Pq)
        → Holds pq' (join_queue t v).queue
        → Ends s w (
            check
              (first_ready (join_queue t v).heap (join_queue t v).queue)
              (shown s (join_queue t v) pq')))
    → Ends s w (schedule_thread_with check t (shown s v pq))
unfolding schedule_thread_with join_queue
schedule_lem check s t v pq w hold next =
    let (pq1, in_, hold1) = enqueue-insert v.heap t hold in
    rw in_ (rw (front-first_ready (join_queue t v).heap hold1, ◌>>=◌) (next pq1 hold1))

pub yield_cpu_lem :
    (check : Check) (s : Sys) (t : Ptr) (v : View) (pq : Pq)
    → Holds pq v.queue
    → v.running_thread ≡ none
    → Ends s (yield_cpu t v) (schedule_thread_with (check_preempt_with check) t (shown s v pq))
unfolding yield_cpu
yield_cpu_lem check s t v pq hold idle =
    schedule_lem (check_preempt_with check) s t v pq (yield_cpu t v) hold
      (λ pq' hold'. dispatch_lem check s (join_queue t v) pq' hold' (unfold join_queue in idle))

tick_rest_lem :
    (over : Bool) (check : Check) (s : Sys) (r : Ptr) (q : ℕ) (v : View) (pq : Pq)
    → Holds pq v.queue
    → Ends s (tick_rest over r q v) (exec_rest over (check_preempt_with check) r q (shown s v pq))
unfolding tick_rest exec_rest
tick_rest_lem true check s r q v pq hold =
    Ends-logged s (yield_cpu r (freed r v)) (sem_wait r)
      (yield_cpu_lem check s r (freed r v) pq hold refl)
tick_rest_lem false check s r q v pq hold = (pq, refl, hold)

pub tick_lem :
    (check : Check) (s : Sys) (r : Ptr) (v : View) (pq : Pq)
    → Holds pq v.queue
    → Ends s (tick r v) (exec_running (check_preempt_with check) r (shown s v pq))
unfolding tick exec_running
tick_lem check s r v pq hold =
    let q = decrement (v.heap r).time_quantum in tick_rest_lem (q == 0) check s r q v pq hold

-- While `r` runs and no ready thread has a higher priority, `check_preempt` charges `r` one unit.
settle_lem :
    (c : Check) (s : Sys) (r g : Ptr) (v : View) (pq : Pq)
    → Holds pq v.queue
    → v.running_thread ≡ some r
    → (v.heap g).priority ≤ (v.heap r).priority
    → Ends s (tick r v) (check_preempt_with (check_preempt_with c) (some g) (shown s v pq))
unfolding check_preempt_with challenge so_exec_with
settle_lem c s r g v pq hold busy le =
    Ends-from s (tick r v) (enter ∙ ignore) (tick_lem c s r v pq hold)
  where
    enter :
        check_preempt_with (check_preempt_with c) (some g) (shown s v pq)
        ≡ challenge false (check_preempt_with c) g r (shown s v pq)
    enter = rw (busy, le→ltb _ _ le)

    ignore :
        challenge false (check_preempt_with c) g r (shown s v pq)
        ≡ exec_running (check_preempt_with c) r (shown s v pq)
    ignore = rw busy

-- Neither a take-over nor queueing up changes what the queue reads of a thread.
fixed_run :
    (f : Ptr) (v : View) (p : Ptr)
    → not_waiting_thread (v.heap f).state ≡ true
    → SameKey v.heap (run f v).heap p
unfolding run
fixed_run f v p free = ground arith

pub fixed_join : (r : Ptr) (v : View) (p : Ptr) → SameKey v.heap (join_queue r v).heap p
unfolding join_queue
fixed_join r v p = ground arith

priority-take_over :
    (f r : Ptr) (v : View) (p : Ptr)
    → ((join_queue r (run f v)).heap p).priority ≡ (v.heap p).priority
unfolding join_queue run
priority-take_over f r v p = ground arith

rival-le :
    (f r : Ptr) (v : View)
    → IsSorted v.heap v.queue
    → first_ready v.heap v.queue ≡ some f
    → (v.heap r).priority ≤ (v.heap f).priority
    → (g : Ptr) (h1 : Heap) → (g ≡ r) ⊎ (first_ready h1 (erase_ready v.heap v.queue) ≡ some g)
    → first_ready v.heap (erase_ready v.heap v.queue) ≡ first_ready h1 (erase_ready v.heap v.queue)
    → ((join_queue r (run f v)).heap g).priority ≤ ((join_queue r (run f v)).heap f).priority
rival-le f r v sorted first le g h1 (inl e) old =
    omega (
      arith,
      priority-take_over f r v g,
      priority-take_over f r v f,
      ap (λ p. (v.heap p).priority) e,
    )
rival-le f r v sorted first le g h1 (inr e) old = omega (
  arith,
  priority-take_over f r v g,
  priority-take_over f r v f,
  second-le v.heap f g v.queue sorted first (old ∙ e),
)

-- After `f` has taken over from `r`, some thread is ready, and none has a higher priority than `f`.
rival :
    (f r : Ptr) (v : View)
    → IsSorted v.heap v.queue
    → first_ready v.heap v.queue ≡ some f
    → not_waiting_thread (v.heap r).state ≡ true
    → (v.heap r).priority ≤ (v.heap f).priority
    → let w = join_queue r (run f v) in
      (g : Ptr) × (first_ready w.heap w.queue ≡ some g)
      × ((w.heap g).priority ≤ (w.heap f).priority)
unfolding join_queue run
rival f r v sorted first awake le =
    let h0 : Heap = v.heap in
    let h1 : Heap = (run f v).heap in
    let w : View = join_queue r (run f v) in
    let ys : List Ptr = erase_ready h0 v.queue in
    let (g, next, which) = first_ready-insert h1 r ys (ground (arith, fixed_run f v r free)) in
    let old : first_ready h0 ys ≡ first_ready h1 ys =
      first_ready-same h0 h1 ys (SameKeys-of h0 h1 ys (λ p. fixed_run f v p free)) in
    (
      g,
      sym (
            first_ready-same h1 w.heap w.queue
              (SameKeys-of h1 w.heap w.queue (λ p. fixed_join r (run f v) p)))
          ∙ next,
      rival-le f r v sorted first le g h1 which old,
    )
  where
    free : not_waiting_thread (v.heap f).state ≡ true
    free = first_ready-not_waiting v.heap f v.queue first

contest_lem :
    (lower : Bool) (c : Check) (s : Sys) (f r : Ptr) (v : View) (pq : Pq)
    → Holds pq v.queue
    → v.running_thread ≡ some r
    → IsSorted v.heap v.queue
    → first_ready v.heap v.queue ≡ some f
    → not_waiting_thread (v.heap r).state ≡ true
    → lower ≡ ltb (v.heap r).priority (v.heap f).priority
    → Ends s
        (contest lower f r v)
        (challenge lower (check_preempt_with (check_preempt_with c)) f r (shown s v pq))
unfolding contest challenge so_exec_with
contest_lem true c s f r v pq hold busy sorted first awake e =
    let (pq1, out, hold1) = hand_over_lem s f v pq hold first in
    let w : View = join_queue r (run f v) in
    let (g, next, le) = rival f r v sorted first awake (ground arith) in
    Ends-from s (contest true f r v) (rw out) (
      Ends-logged s (tick f w) (sem_wait r) (
        schedule_lem (check_preempt_with (check_preempt_with c)) s r (run f v) pq1 (tick f w) hold1
          (λ pq' hold'.
            rw next (settle_lem c s f g w pq' hold' (unfold join_queue run in refl) le))))
contest_lem false c s f r v pq hold busy sorted first awake e =
    Ends-from s (tick r v) (rw busy) (tick_lem (check_preempt_with c) s r v pq hold)

pub arrive_rest_lem :
    (c : Check) (s : Sys) (o f : Option Ptr) (v : View) (pq : Pq)
    → Holds pq v.queue
    → v.running_thread ≡ o
    → IsSorted v.heap v.queue
    → first_ready v.heap v.queue ≡ f
    → ((r : Ptr) → o ≡ some r → not_waiting_thread (v.heap r).state ≡ true)
    → Ends s
        (arrive_rest o f v)
        (check_preempt_with (check_preempt_with (check_preempt_with c)) f (shown s v pq))
unfolding arrive_rest check_preempt_with
arrive_rest_lem c s none f v pq hold busy sorted first awake =
    give_lem (check_preempt_with (check_preempt_with c)) s f v pq hold busy first
arrive_rest_lem c s (some r) none v pq hold busy sorted first awake = (pq, refl, hold)
arrive_rest_lem c s (some r) (some f) v pq hold busy sorted first awake =
    Ends-from s (contest (ltb (v.heap r).priority (v.heap f).priority) f r v) (rw busy) (
      contest_lem (ltb (v.heap r).priority (v.heap f).priority) c s f r v pq hold busy sorted first
        (awake r refl) refl)
