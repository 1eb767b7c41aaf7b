-- ===== src/Scheduler/Threads/Turn.antt =====
-- What a call of the running thread does to the semaphores and to the turn.
use so.Common.{
  ℕ, ◌≡◌, ◌↔◌, refl, sym, ◌∙◌, Bool, true, false, some, List, [], ◌∷◌, All, arith, ◌==◌, inl, inr,
  ltb, Bool-cases,
}
use mathlib.Core.Logic.Iff
use mathlib.Core.Path.{subst}
use so.Scheduler.Types.{Ptr, Heap, not_waiting_thread}
use so.Scheduler.Queue.Spec.{first_ready, insert, erase_ready}
use so.Scheduler.Queue.Ready.{first_ready-insert, first_ready-same, SameKeys-of}
use so.Scheduler.Ops.{Event, sem_post, sem_wait, decrement}
use so.Scheduler.Spec.{
  View, logged, run, give, dispatch, join_queue, yield_cpu, freed, tick, tick_rest,
}
use so.Scheduler.Refine.{fixed_join}
use so.Scheduler.Valid.{All-insert, All-erase_ready, first_ready-All}

-- The thread `r` runs on, or posts the semaphore of the thread `x` that runs now, and then waits on its
-- own. The threads in `ys`, and `r` if it waits, are those that are queued then, and `x`.
pub data Turn (r : Ptr) (ys : List Ptr) (log : List Event) (w : View) : Type 1 where
  stays :
      w.running_thread ≡ some r
      → w.log ≡ log
      → ((P : Ptr → Type 0) → All P ys ↔ All P w.queue)
      → Turn r ys log w
  passes :
      (x : Ptr)
      → w.running_thread ≡ some x
      → w.log ≡ sem_wait r ∷ sem_post x ∷ log
      → ((P : Ptr → Type 0) → (P r × All P ys) ↔ (P x × All P w.queue))
      → Turn r ys log w

insert-All-back :
    (P : Ptr → Type 0) (h : Heap) (r : Ptr) (xs : List Ptr) → All P (insert h r xs) → P r × All P xs
unfolding insert
insert-All-back P h r [] a = a
insert-All-back P h r (x ∷ xs) a = elim (Bool-cases (ltb (h x).priority (h r).priority)) [
  | inl lower ↦ rw lower at a
  | inr not ↦
      let b : P x × All P (insert h r xs) = (rw not at a) in
      let rest = insert-All-back P h r xs b.1 in (rest.0, (b.0, rest.1))
]

-- A property holds of a newcomer and of the queue if and only if it holds behind the insertion.
pub insert-All :
    (P : Ptr → Type 0) (h : Heap) (r : Ptr) (xs : List Ptr)
    → (P r × All P xs) ↔ All P (insert h r xs)
insert-All P h r xs = ((λ a. All-insert P h r xs a.0 a.1), insert-All-back P h r xs)

erased-All :
    (P : Ptr → Type 0) (h : Heap) (x : Ptr) (xs : List Ptr)
    → first_ready h xs ≡ some x
    → P x
    → All P (erase_ready h xs)
    → All P xs
unfolding first_ready erase_ready
erased-All P h x [] e p a = tt
erased-All P h x (y ∷ xs) e p a = elim (Bool-cases (not_waiting_thread (h y).state)) [
  | inl free ↦
      let same : y ≡ x = ground arith in
      let b : All P xs = (rw free at a) in (subst P (sym same) p, b)
  | inr waits ↦
      let b : P y × All P (erase_ready h xs) = (rw waits at a) in
      let next : first_ready h xs ≡ some x = ground arith in (b.0, erased-All P h x xs next p b.1)
]

-- It holds of the queue if and only if it holds of the first ready thread and of the others.
pub erase_ready-All :
    (P : Ptr → Type 0) (h : Heap) (x : Ptr) (xs : List Ptr)
    → first_ready h xs ≡ some x
    → All P xs ↔ (P x × All P (erase_ready h xs))
erase_ready-All P h x xs e = (
  (λ a. (first_ready-All P h x xs a e, All-erase_ready P h xs a)),
  (λ a. erased-All P h x xs e a.0 a.1),
)

-- A thread that queues up and does not wait leaves a ready thread in the queue.
pub ready-join :
    (r : Ptr) (v : View)
    → not_waiting_thread (v.heap r).state ≡ true
    → (x : Ptr) × (first_ready (join_queue r v).heap (insert v.heap r v.queue) ≡ some x)
ready-join r v free =
    let (x, next, which) = first_ready-insert v.heap r v.queue free in
    (
      x,
      sym (
            first_ready-same v.heap (join_queue r v).heap (insert v.heap r v.queue) (
              SameKeys-of v.heap (join_queue r v).heap (insert v.heap r v.queue)
                (λ p. fixed_join r v p)))
          ∙ next,
    )

pub yield_cpu-Turn :
    (r x : Ptr) (v : View)
    → first_ready (join_queue r v).heap (insert v.heap r v.queue) ≡ some x
    → Turn r v.queue v.log (logged (sem_wait r) (yield_cpu r v))
unfolding yield_cpu dispatch join_queue
yield_cpu-Turn r x v first =
    subst (λ o. Turn r v.queue v.log (logged (sem_wait r) (give o (join_queue r v)))) (sym first)
      (unfold give in
        unfold run in
        passes x refl refl (λ P.
          Iff.trans (insert-All P v.heap r v.queue)
            (erase_ready-All P (join_queue r v).heap x (insert v.heap r v.queue) first)))

tick_rest-Turn :
    (over : Bool) (r : Ptr) (q : ℕ) (v : View)
    → v.running_thread ≡ some r
    → Turn r v.queue v.log (tick_rest over r q v)
unfolding tick_rest
tick_rest-Turn true r q v busy =
    let (x, first) = ready-join r (freed r v) (ground arith) in yield_cpu-Turn r x (freed r v) first
tick_rest-Turn false r q v busy = stays busy refl (λ P. (λ a. a, λ a. a))

pub tick-Turn : (r : Ptr) (v : View) → v.running_thread ≡ some r → Turn r v.queue v.log (tick r v)
unfolding tick
tick-Turn r v busy = let q = decrement (v.heap r).time_quantum in tick_rest-Turn (q == 0) r q v busy
