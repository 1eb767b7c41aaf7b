-- ===== src/Scheduler/Queue/Ready.antt =====
-- Which thread comes first, after a change of the threads or of the queue.
use so.Common.{
  ℕ, ◌≡◌, ◌≤◌, refl, true, some, List, [], ◌∷◌, inl, inr, ◌⊎◌, ltb, arith, Bool-cases, All,
}
use so.Scheduler.Types.{Ptr, Heap, not_waiting_thread}
use so.Scheduler.Queue.Spec.{insert, first_ready, erase_ready, IsSorted}
use so.Scheduler.Queue.Order.{AllLe}

-- What the queue reads of a thread is the same in both heaps.
abbrev pub SameKey : Heap → Heap → Ptr → Type 0
SameKey h h' p =
    ((h p).priority ≡ (h' p).priority)
    × (not_waiting_thread (h p).state ≡ not_waiting_thread (h' p).state)

abbrev pub SameKeys : Heap → Heap → List Ptr → Type 0
SameKeys h h' = All (SameKey h h')

pub SameKeys-of : (h h' : Heap) (xs : List Ptr) → ((p : Ptr) → SameKey h h' p) → SameKeys h h' xs
SameKeys-of h h' [] all = tt
SameKeys-of h h' (x ∷ xs) all = (all x, SameKeys-of h h' xs all)

pub first_ready-same :
    (h h' : Heap) (xs : List Ptr) → SameKeys h h' xs → first_ready h xs ≡ first_ready h' xs
unfolding first_ready
first_ready-same h h' [] s = refl
first_ready-same h h' (x ∷ xs) s = rw (s.0.1, first_ready-same h h' xs s.1)

pub AllLe-same :
    (h h' : Heap) (p q : ℕ) (xs : List Ptr)
    → SameKeys h h' xs
    → p ≤ q
    → AllLe h p xs
    → AllLe h' q xs
AllLe-same h h' p q [] s le a = tt
AllLe-same h h' p q (x ∷ xs) s le a = (omega (arith, s.0.0), AllLe-same h h' p q xs s.1 le a.1)

pub IsSorted-same :
    (h h' : Heap) (xs : List Ptr) → SameKeys h h' xs → IsSorted h xs → IsSorted h' xs
IsSorted-same h h' [] s o = tt
IsSorted-same h h' (x ∷ xs) s o = (
  AllLe-same h h' (h x).priority (h' x).priority xs s.1 (omega (arith, s.0.0)) o.0,
  IsSorted-same h h' xs s.1 o.1,
)

-- A newcomer that does not wait comes first, or the thread that came first before.
pub first_ready-insert :
    (h : Heap) (r : Ptr) (ys : List Ptr)
    → not_waiting_thread (h r).state ≡ true
    → (g : Ptr) × (first_ready h (insert h r ys) ≡ some g) × ((g ≡ r) ⊎ (first_ready h ys ≡ some g))
unfolding first_ready insert
first_ready-insert h r [] free = (r, rw free, inl refl)
first_ready-insert h r (x ∷ xs) free = elim (Bool-cases (ltb (h x).priority (h r).priority)) [
  | inl lower ↦ (r, rw lower (rw free), inl refl)
  | inr not ↦ elim (Bool-cases (not_waiting_thread (h x).state)) [
    | inl ready ↦ (x, rw not (rw ready), inr (rw ready))
    | inr waits ↦
        let (g, first, which) = first_ready-insert h r xs free in
        (g, rw not (rw waits first), rw waits which)
  ]
]

pub first_ready-le :
    (h : Heap) (p : ℕ) (g : Ptr) (xs : List Ptr)
    → AllLe h p xs
    → first_ready h xs ≡ some g
    → (h g).priority ≤ p
unfolding first_ready
first_ready-le h p g [] a e = cc
first_ready-le h p g (x ∷ xs) a e = ground (arith, first_ready-le h p g xs a.1)

-- The thread that comes second does not have a higher priority than the first.
pub second-le :
    (h : Heap) (f g : Ptr) (xs : List Ptr)
    → IsSorted h xs
    → first_ready h xs ≡ some f
    → first_ready h (erase_ready h xs) ≡ some g
    → (h g).priority ≤ (h f).priority
unfolding first_ready erase_ready
second-le h f g [] s e d = cc
second-le h f g (x ∷ xs) s e d =
    ground (arith, second-le h f g xs s.1, first_ready-le h (h x).priority g xs s.0)

-- A thread that comes first does not wait.
pub first_ready-not_waiting :
    (h : Heap) (f : Ptr) (xs : List Ptr)
    → first_ready h xs ≡ some f
    → not_waiting_thread (h f).state ≡ true
unfolding first_ready
first_ready-not_waiting h f [] e = cc
first_ready-not_waiting h f (x ∷ xs) e = ground (arith, first_ready-not_waiting h f xs)
