-- ===== src/Scheduler/Queue/Top.antt =====
-- A thread that outranks every ready one: in and out of the queue again.
use so.Common.{
  ◌≡◌, ◌<◌, ◌⊎◌, ap, true, false, some, List, [], ◌∷◌, inl, inr, ltb, Bool-cases, All, ◌>>=◌,
  lt→ltb,
}
use so.Scheduler.Types.{Ptr, Heap, Pq, ThreadState, not_waiting_thread}
use so.Scheduler.Queue.{enqueue, dequeue}
use so.Scheduler.Queue.Spec.{Holds, insert, first_ready, erase_ready}
use so.Scheduler.Queue.Enqueue.{enqueue-insert}
use so.Scheduler.Queue.Dequeue.{dequeue-erase_ready}

-- Each thread waits or has a lower priority than `p`.
abbrev pub Below : Heap → Ptr → List Ptr → Type 0
Below h p = All (λ y. ((h y).state ≡ ThreadState.waiting) ⊎ ((h y).priority < (h p).priority))

-- The newcomer comes first, and the queue behind it is as it was.
pub insert-Below :
    (h : Heap) (p : Ptr) (xs : List Ptr)
    → not_waiting_thread (h p).state ≡ true
    → Below h p xs
    → (first_ready h (insert h p xs) ≡ some p) × (erase_ready h (insert h p xs) ≡ xs)
unfolding insert first_ready erase_ready
insert-Below h p [] free b = (rw free, rw free)
insert-Below h p (x ∷ xs) free b = elim (Bool-cases (ltb (h x).priority (h p).priority)) [
  | inl lower ↦ (rw lower (rw free), rw lower (rw free))
  | inr not ↦
      let waits : not_waiting_thread (h x).state ≡ false = elim b.0 [
        | inl w ↦ ap not_waiting_thread w
        | inr lt ↦ absurd (cc (lt→ltb (h x).priority (h p).priority lt, not))
      ] in
      let (first, left) = insert-Below h p xs free b.1 in
      (rw not (rw waits first), rw not (rw waits (ap (λ ys. x ∷ ys) left)))
]

-- A thread that does not wait and has a higher priority than every queued thread that does not wait: if
-- `enqueue` puts it into the queue, `dequeue` takes it out next, and the queue holds what it held, in
-- the same order.
pub dequeue-enqueue :
    (h : Heap) (p : Ptr) {pq : Pq} {xs : List Ptr}
    → Holds pq xs
    → not_waiting_thread (h p).state ≡ true
    → Below h p xs
    → (pq' : Pq) × ((do into ← enqueue h p pq; dequeue h into) ≡ some (some p, pq')) × Holds pq' xs
dequeue-enqueue h p {pq} {xs} hold free below =
    let (into, put, held) = enqueue-insert h p hold in
    let (pq', taken, left) = dequeue-erase_ready h held in
    let (first, same) = insert-Below h p xs free below in
    (pq', rw (put, ◌>>=◌) (rw first at taken), (rw same at left))
