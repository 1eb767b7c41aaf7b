-- ===== src/Scheduler/Queue/Order.antt =====
-- The queue stays sorted by priority, and first come is first served within one priority.
use so.Common.{
  ℕ, ◌≡◌, ◌≤◌, ◌<◌, refl, List, [], ◌∷◌, ◌++◌, inl, inr, if◌then◌else◌, ltb, ◌==◌, arith,
  Bool-cases, All, Returns, ltb→lt, ltb→le,
}
use mathlib.Core.List.{Perm}
use mathlib.Core.List.Perm
use so.Scheduler.Types.{Ptr, Heap, Pq, not_waiting_thread}
use so.Scheduler.Queue.{enqueue}
use so.Scheduler.Queue.Enqueue.{enqueue-insert}
use so.Scheduler.Queue.Spec.{Holds, insert, erase_ready, IsSorted}

-- The threads of one priority, in the order in which the queue has them.
pub of_priority : Heap → ℕ → List Ptr → List Ptr
of_priority h p [] = []
of_priority h p (x ∷ xs) =
    if (h x).priority == p then x ∷ of_priority h p xs else of_priority h p xs

abbrev pub AllLe : Heap → ℕ → List Ptr → Type 0
AllLe h p = All (λ y. (h y).priority ≤ p)

pub AllLe-mono : (h : Heap) (p q : ℕ) (xs : List Ptr) → p ≤ q → AllLe h p xs → AllLe h q xs
AllLe-mono h p q [] le a = tt
AllLe-mono h p q (x ∷ xs) le a = (omega arith, AllLe-mono h p q xs le a.1)

pub AllLe-insert :
    (h : Heap) (t : Ptr) (p : ℕ) (xs : List Ptr)
    → (h t).priority ≤ p
    → AllLe h p xs
    → AllLe h p (insert h t xs)
unfolding insert
AllLe-insert h t p [] le a = (le, tt)
AllLe-insert h t p (x ∷ xs) le a = elim (Bool-cases (ltb (h x).priority (h t).priority)) [
  | inl lower ↦ rw lower (le, a)
  | inr not ↦ rw not (a.0, AllLe-insert h t p xs le a.1)
]

pub AllLe-erase_ready :
    (h : Heap) (p : ℕ) (xs : List Ptr) → AllLe h p xs → AllLe h p (erase_ready h xs)
unfolding erase_ready
AllLe-erase_ready h p [] a = tt
AllLe-erase_ready h p (x ∷ xs) a = elim (Bool-cases (not_waiting_thread (h x).state)) [
  | inl free ↦ rw free a.1
  | inr waits ↦ rw waits (a.0, AllLe-erase_ready h p xs a.1)
]

-- Inserting a thread into a sorted queue leaves it sorted.
pub insert-IsSorted :
    (h : Heap) (t : Ptr) (xs : List Ptr) → IsSorted h xs → IsSorted h (insert h t xs)
unfolding insert
insert-IsSorted h t [] s = (tt, tt)
insert-IsSorted h t (x ∷ xs) s = elim (Bool-cases (ltb (h x).priority (h t).priority)) [
  | inl lower ↦ rw lower (
    (
      omega (arith, ltb→lt _ _ lower),
      AllLe-mono h (h x).priority (h t).priority xs (omega (arith, ltb→lt _ _ lower)) s.0,
    ),
    s,
  )
  | inr not ↦
      rw not (AllLe-insert h t (h x).priority xs (ltb→le _ _ not) s.0, insert-IsSorted h t xs s.1)
]

-- Taking the first ready thread out of a sorted queue leaves it sorted.
pub erase_ready-IsSorted :
    (h : Heap) (xs : List Ptr) → IsSorted h xs → IsSorted h (erase_ready h xs)
unfolding erase_ready
erase_ready-IsSorted h [] s = tt
erase_ready-IsSorted h (x ∷ xs) s = elim (Bool-cases (not_waiting_thread (h x).state)) [
  | inl free ↦ rw free s.1
  | inr waits ↦ rw waits (AllLe-erase_ready h (h x).priority xs s.0, erase_ready-IsSorted h xs s.1)
]

-- The queue after an insertion holds the newcomer and what it held, each as often.
pub insert-perm : (h : Heap) (t : Ptr) (xs : List Ptr) → Perm (insert h t xs) (t ∷ xs)
unfolding insert
insert-perm h t [] = Perm.refl (t ∷ [])
insert-perm h t (x ∷ xs) = elim (Bool-cases (ltb (h x).priority (h t).priority)) [
  | inl lower ↦ rw lower (Perm.refl (t ∷ x ∷ xs))
  | inr not ↦ rw not (Perm.trans (Perm.cons x (insert-perm h t xs)) (Perm.swap t x xs))
]

of_priority-nil :
    (h : Heap) (p : ℕ) (xs : List Ptr) → AllLe h p xs → (q : ℕ) → p < q → of_priority h q xs ≡ []
unfolding of_priority
of_priority-nil h p [] a q lt = refl
of_priority-nil h p (x ∷ xs) a q lt = ground (arith, of_priority-nil h p xs a.1 q lt)

-- In a sorted queue the newcomer stands last among the threads of its priority, and the threads of
-- each other priority keep their order.
pub of_priority-insert :
    (h : Heap) (t : Ptr) (p : ℕ) (xs : List Ptr)
    → IsSorted h xs
    → of_priority h p (insert h t xs)
      ≡ (if (h t).priority == p then of_priority h p xs ++ t ∷ [] else of_priority h p xs)
unfolding insert of_priority
of_priority-insert h t p [] s = refl
of_priority-insert h t p (x ∷ xs) s =
    ground (arith, of_priority-insert h t p xs s.1, of_priority-nil h (h x).priority xs s.0 p)

-- `enqueue` never faults, and a queue that is sorted by priority stays sorted: the new array holds the
-- newcomer and what it held, the newcomer last among the threads of its own priority, and the threads
-- of every priority in the order in which they were.
pub enqueue-fifo :
    (h : Heap) (t : Ptr) (p : ℕ) {pq : Pq} {xs : List Ptr}
    → Holds pq xs
    → IsSorted h xs
    → Returns
        (λ pq'.
          (ys : List Ptr) × Holds pq' ys
          × IsSorted h ys
          × Perm ys (t ∷ xs)
          × (of_priority h p ys
              ≡ (if (h t).priority == p then of_priority h p xs ++ t ∷ [] else of_priority h p xs)))
        (enqueue h t pq)
enqueue-fifo h t p {pq} {xs} hold sorted =
    let (pq', out, hold') = enqueue-insert h t hold in
    (
      pq',
      out,
      (
        insert h t xs,
        hold',
        insert-IsSorted h t xs sorted,
        insert-perm h t xs,
        of_priority-insert h t p xs sorted,
      ),
    )
