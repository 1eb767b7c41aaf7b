-- ===== src/Scheduler/Queue/Positions.antt =====
-- A ready thread `p` in the queue, with the threads `before` it.
use so.Common.{
  suc, ◌≡◌, ◌≢◌, ◌≤◌, refl, sym, ap, true, some, List, [], ◌∷◌, ◌++◌, inl, inr, arith, Bool-cases,
  All, length, le→ltb,
}
use mathlib.Core.Option.{some_inj}
use so.Scheduler.Types.{Ptr, Heap, not_waiting_thread}
use so.Scheduler.Queue.Spec.{insert, first_ready, erase_ready, IsSorted}

-- No thread in front of `p` has a lower priority than `p`.
pub IsSorted-before :
    (h : Heap) (p : Ptr) (before behind : List Ptr)
    → IsSorted h (before ++ p ∷ behind)
    → All (λ y. (h p).priority ≤ (h y).priority) before
IsSorted-before h p [] behind s = tt
IsSorted-before h p (x ∷ xs) behind s = (at xs s.0, IsSorted-before h p xs behind s.1)
  where
    at :
        (ys : List Ptr)
        → All (λ y. (h y).priority ≤ (h x).priority) (ys ++ p ∷ behind)
        → (h p).priority ≤ (h x).priority
    at [] a = a.0
    at (y ∷ ys) a = at ys a.1

pub All-middle {ℓ} :
    (P : Ptr → Type ℓ) (p : Ptr) (before behind : List Ptr) → All P (before ++ p ∷ behind) → P p
All-middle P p [] behind a = a.0
All-middle P p (x ∷ xs) behind a = All-middle P p xs behind a.1

-- A newcomer of at most the priority of `p` goes behind `p`.
pub insert-behind :
    (h : Heap) (r p : Ptr) (before behind : List Ptr)
    → All (λ y. (h r).priority ≤ (h y).priority) before
    → (h r).priority ≤ (h p).priority
    → insert h r (before ++ p ∷ behind) ≡ before ++ p ∷ insert h r behind
unfolding insert
insert-behind h r p [] behind a le = rw (le→ltb (h p).priority (h r).priority le)
insert-behind h r p (x ∷ xs) behind a le =
    rw (le→ltb (h x).priority (h r).priority a.0)
      (ap (λ ys. x ∷ ys) (insert-behind h r p xs behind a.1 le))

-- If `p` is ready, then some thread is, and the first one has at least the priority of `p`.
pub first_ready-before :
    (h : Heap) (p : Ptr) (before behind : List Ptr)
    → not_waiting_thread (h p).state ≡ true
    → All (λ y. (h p).priority ≤ (h y).priority) before
    → (f : Ptr) × (first_ready h (before ++ p ∷ behind) ≡ some f)
      × ((h p).priority ≤ (h f).priority)
unfolding first_ready
first_ready-before h p [] behind free a = (p, rw free, omega arith)
first_ready-before h p (x ∷ xs) behind free a = elim (Bool-cases (not_waiting_thread (h x).state)) [
  | inl ready ↦ (x, rw ready, a.0)
  | inr waits ↦
      let (f, first, le) = first_ready-before h p xs behind free a.1 in (f, rw waits first, le)
]

-- If another thread comes first, it is in front of `p`.
pub erase_ready-before :
    (h : Heap) (f p : Ptr) (before behind : List Ptr)
    → not_waiting_thread (h p).state ≡ true
    → first_ready h (before ++ p ∷ behind) ≡ some f
    → f ≢ p
    → (left : List Ptr) × (erase_ready h (before ++ p ∷ behind) ≡ left ++ p ∷ behind)
      × (length before ≡ suc (length left))
unfolding first_ready erase_ready
erase_ready-before h f p [] behind free first ne =
    let same : some p ≡ some f = (rw free at first) in absurd (ne (some_inj.0 (sym same)))
erase_ready-before h f p (x ∷ xs) behind free first ne =
    elim (Bool-cases (not_waiting_thread (h x).state)) [
      | inl ready ↦ (xs, rw ready, refl)
      | inr waits ↦
          let next : first_ready h (xs ++ p ∷ behind) ≡ some f = (rw waits at first) in
          let (left, out, shorter) = erase_ready-before h f p xs behind free next ne in
          (x ∷ left, rw waits (ap (λ ys. x ∷ ys) out), omega (arith, shorter))
    ]
