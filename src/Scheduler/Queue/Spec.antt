-- ===== src/Scheduler/Queue/Spec.antt =====
-- What priority_queue.c promises, over plain lists of threads.
use so.Common.{
  ℕ, ◌+◌, ◌≡◌, ◌≤◌, ◌<◌, ◌⊎◌, Option, none, some, List, [], ◌∷◌, if◌then◌else◌, ltb, length, All,
}
use so.Scheduler.Types.{Ptr, Heap, Pq, not_waiting_thread}

-- A newcomer goes behind the threads of its own and of higher priority.
unfoldable pub insert : Heap → Ptr → List Ptr → List Ptr
insert h t [] = t ∷ []
insert h t (x ∷ xs) = if ltb (h x).priority (h t).priority then t ∷ x ∷ xs else x ∷ insert h t xs

-- The first thread that waits for no event.
unfoldable pub first_ready : Heap → List Ptr → Option Ptr
first_ready h [] = none
first_ready h (x ∷ xs) = if not_waiting_thread (h x).state then some x else first_ready h xs

-- The queue without its first thread that waits for no event.
unfoldable pub erase_ready : Heap → List Ptr → List Ptr
erase_ready h [] = []
erase_ready h (x ∷ xs) = if not_waiting_thread (h x).state then xs else x ∷ erase_ready h xs

-- The cells from index `i` on hold the list.
abbrev pub At : (ℕ → Option Ptr) → ℕ → List Ptr → Type 0
At c i [] = Unit
At c i (x ∷ xs) = (c i ≡ some x) × At c (i + 1) xs

-- The representation invariant of `pq_t`, with the list that it stands for: there is room for one
-- more thread than `capacity` says is full. After the first `malloc`, of one cell, `capacity` is 2.
pub record Holds (pq : Pq) (xs : List Ptr) : Type 0 where
  pub cells : At pq.q.cell 0 xs
  pub size : pq.size ≡ length xs
  pub room : pq.size < pq.capacity
  pub memory :
      ((pq.q.allocated ≡ 0) × (pq.capacity ≡ 1))
      ⊎ ((pq.q.allocated ≡ 1) × (pq.capacity ≡ 2))
      ⊎ ((pq.q.allocated ≡ pq.capacity) × (2 ≤ pq.capacity))

-- Highest priority first.
abbrev pub IsSorted : Heap → List Ptr → Type 0
IsSorted h [] = Unit
IsSorted h (x ∷ xs) = All (λ y. (h y).priority ≤ (h x).priority) xs × IsSorted h xs
