-- ===== src/Scheduler/Queue/Dequeue.antt =====
-- `front` and `dequeue` of priority_queue.c: no access out of bounds, and which thread they take.
use so.Common.{
  ℕ, zero, suc, ◌+◌, ◌-◌, ◌≡◌, ◌≤◌, ◌<◌, refl, ◌∙◌, some, List, [], ◌∷◌, inl, inr, ◌>>=◌, arith,
  length, Bool-cases,
}
use so.Scheduler.Types.{Ptr, Heap, Block, Pq, not_waiting_thread}
use so.Scheduler.Queue.Spec.{At, Holds, first_ready, erase_ready}
use so.Scheduler.Queue.Shift.{read-some, shift_left_lem}
use so.Scheduler.Queue.Cells.{At-down, At-Written}
use so.Scheduler.Queue.{front_loop, front, dequeue_loop, dequeue, shift_left}

pub size-le-allocated : {pq : Pq} {xs : List Ptr} → Holds pq xs → length xs ≤ pq.q.allocated
size-le-allocated v = ground (arith, v.memory)

front_loop_lem :
    (h : Heap) (xs : List Ptr) (n i : ℕ) (b : Block)
    → n ≡ length xs
    → i + n ≤ b.allocated
    → At b.cell i xs
    → front_loop h n i b ≡ some (first_ready h xs)
unfolding front_loop first_ready
front_loop_lem h [] zero i b l m a = refl
front_loop_lem h [] (suc n) i b l m a = absurd (omega arith)
front_loop_lem h (x ∷ xs) zero i b l m a = absurd (omega arith)
front_loop_lem h (x ∷ xs) (suc n) i b l m a =
    rw (read-some b i x (omega arith) a.0) (elim (Bool-cases (not_waiting_thread (h x).state)) [
      | inl free ↦ rw (free, ◌>>=◌)
      | inr waits ↦
          rw (waits, ◌>>=◌) (front_loop_lem h xs n (i + 1) b (omega arith) (omega arith) a.1)
    ])

-- `front` never faults, and returns the first thread that does not wait for an event, if any.
pub front-first_ready :
    (h : Heap) {pq : Pq} {xs : List Ptr} → Holds pq xs → front h pq ≡ some (first_ready h xs)
unfolding front
front-first_ready h {pq} {xs} v =
    front_loop_lem h xs pq.size 0 pq.q v.size (omega (arith, size-le-allocated v, v.size)) v.cells

-- What the loop of `dequeue` has done when it stops, started at index `i`.
record Taken (i : ℕ) (ys : List Ptr) (pq pq' : Pq) : Type 0 where
  allocated : pq'.q.allocated ≡ pq.q.allocated
  capacity : pq'.capacity ≡ pq.capacity
  below : (k : ℕ) → k < i → pq'.q.cell k ≡ pq.q.cell k
  cells : At pq'.q.cell i ys
  size : pq'.size ≡ i + length ys

abbrev shrink : Pq → Block → Pq
shrink pq b = record { q = b; size = pq.size - 1; capacity = pq.capacity }

take_here :
    (pq : Pq) (x : Ptr) (xs : List Ptr) (i : ℕ)
    → pq.size ≡ i + suc (length xs)
    → pq.size ≤ pq.q.allocated
    → At pq.q.cell i (x ∷ xs)
    → (b : Block) × (shift_left (pq.size - 1 - i) i pq.q ≡ some b) × Taken i xs pq (shrink pq b)
take_here pq x xs i e m a =
    let (b, run, sh) =
      shift_left_lem (pq.size - 1 - i) (pq.size - 1) i pq.q (omega arith) (omega arith)
        (At-Written pq.q.cell (i + 1) xs (pq.size - 1 + 1) a.1 (omega arith)) in
    (
      b,
      run,
      record {
        allocated = sh.allocated;
        capacity = refl;
        below = λ k p. ground (arith, sh.cells k);
        cells = At-down pq.q.cell b.cell i xs (λ k p q. ground (arith, sh.cells k)) a.1;
        size = omega arith;
      },
    )

dequeue_loop_lem :
    (h : Heap) (pq : Pq) (xs : List Ptr) (n i : ℕ)
    → n ≡ length xs
    → pq.size ≡ i + n
    → pq.size ≤ pq.q.allocated
    → At pq.q.cell i xs
    → (pq' : Pq) × (dequeue_loop h pq n i ≡ some (first_ready h xs, pq'))
      × Taken i (erase_ready h xs) pq pq'
unfolding dequeue_loop first_ready erase_ready
dequeue_loop_lem h pq [] zero i l e m a = (
  pq,
  refl,
  record { allocated = refl; capacity = refl; below = λ k p. refl; cells = tt; size = e },
)
dequeue_loop_lem h pq [] (suc n) i l e m a = absurd (omega arith)
dequeue_loop_lem h pq (x ∷ xs) zero i l e m a = absurd (omega arith)
dequeue_loop_lem h pq (x ∷ xs) (suc n) i l e m a =
    elim (Bool-cases (not_waiting_thread (h x).state)) [
      | inl free ↦
          let (b, run, t) = take_here pq x xs i (omega arith) m a in
          (
            shrink pq b,
            rw (read-some pq.q i x (omega arith) a.0) (rw (free, ◌>>=◌) (rw (run, ◌>>=◌))),
            rw free t,
          )
      | inr waits ↦
          let (pq', run, t) =
            dequeue_loop_lem h pq xs n (i + 1) (omega arith) (omega arith) m a.1 in
          (
            pq',
            rw (read-some pq.q i x (omega arith) a.0) (rw (waits, ◌>>=◌) run),
            record {
              allocated = t.allocated;
              capacity = t.capacity;
              below = λ k p. t.below k (omega arith);
              cells = rw waits (t.below i (omega arith) ∙ a.0, t.cells);
              size = rw waits (omega (arith, t.size));
            },
          )
    ]

pub length-erase_ready : (h : Heap) (xs : List Ptr) → length (erase_ready h xs) ≤ length xs
unfolding erase_ready
length-erase_ready h [] = omega arith
length-erase_ready h (x ∷ xs) = ground (arith, length-erase_ready h xs)

-- `dequeue` never faults; it returns the thread that `front` returns, takes it out of the queue, and
-- keeps the order of the others and the representation.
pub dequeue-erase_ready :
    (h : Heap) {pq : Pq} {xs : List Ptr}
    → Holds pq xs
    → (pq' : Pq) × (dequeue h pq ≡ some (first_ready h xs, pq')) × Holds pq' (erase_ready h xs)
unfolding dequeue
dequeue-erase_ready h {pq} {xs} v =
    let (pq', run, t) =
      dequeue_loop_lem h pq xs pq.size 0 v.size (omega arith)
        (omega (arith, size-le-allocated v, v.size)) v.cells in
    (
      pq',
      run,
      record {
        cells = t.cells;
        size = omega (arith, t.size);
        room = omega (arith, t.size, t.capacity, length-erase_ready h xs, v.room, v.size);
        memory = ground (arith, v.memory, t.allocated, t.capacity);
      },
    )
