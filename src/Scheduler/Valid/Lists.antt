-- ===== src/Scheduler/Valid/Lists.antt =====
-- What insertion into the queue and removal from it do to the parts of the invariant.
use so.Common.{
  ℕ, ◌≡◌, ◌≤◌, ◌≢◌, inl, inr, sym, false, none, some, List, [], ◌∷◌, All, ltb, arith, Bool-cases,
}
use so.Scheduler.Types.{Ptr, Heap, ThreadState, not_waiting_thread}
use so.Scheduler.Queue.Spec.{IsSorted, insert, first_ready, erase_ready}
use so.Scheduler.Valid.Defs.{NotIn, IsNodup, YieldsTo}

pub All-map {ℓ κ} :
    {P : Ptr → Type ℓ} {Q : Ptr → Type κ} (xs : List Ptr)
    → ((y : Ptr) → P y → Q y)
    → All P xs
    → All Q xs
All-map [] f a = tt
All-map (x ∷ xs) f a = (f x a.0, All-map xs f a.1)

pub All-map₂ {ℓ κ ι} :
    {P : Ptr → Type ℓ} {R : Ptr → Type κ} {Q : Ptr → Type ι} (xs : List Ptr)
    → ((y : Ptr) → P y → R y → Q y)
    → All P xs
    → All R xs
    → All Q xs
All-map₂ [] f a b = tt
All-map₂ (x ∷ xs) f a b = (f x a.0 b.0, All-map₂ xs f a.1 b.1)

pub All-insert {ℓ} :
    (P : Ptr → Type ℓ) (h : Heap) (t : Ptr) (xs : List Ptr) → P t → All P xs → All P (insert h t xs)
unfolding insert
All-insert P h t [] p a = (p, tt)
All-insert P h t (x ∷ xs) p a = elim (Bool-cases (ltb (h x).priority (h t).priority)) [
  | inl lower ↦ rw lower (p, a)
  | inr not ↦ rw not (a.0, All-insert P h t xs p a.1)
]

pub All-erase_ready {ℓ} :
    (P : Ptr → Type ℓ) (h : Heap) (xs : List Ptr) → All P xs → All P (erase_ready h xs)
unfolding erase_ready
All-erase_ready P h [] a = tt
All-erase_ready P h (x ∷ xs) a = elim (Bool-cases (not_waiting_thread (h x).state)) [
  | inl free ↦ rw free a.1
  | inr waits ↦ rw waits (a.0, All-erase_ready P h xs a.1)
]

pub IsNodup-insert :
    (h : Heap) (t : Ptr) (xs : List Ptr) → NotIn t xs → IsNodup xs → IsNodup (insert h t xs)
unfolding insert
IsNodup-insert h t [] out n = (tt, tt)
IsNodup-insert h t (x ∷ xs) out n = elim (Bool-cases (ltb (h x).priority (h t).priority)) [
  | inl lower ↦ rw lower (out, n)
  | inr not ↦
      rw not
        (All-insert (λ y. y ≢ x) h t xs (λ e. out.0 (sym e)) n.0, IsNodup-insert h t xs out.1 n.1)
]

pub IsNodup-erase_ready : (h : Heap) (xs : List Ptr) → IsNodup xs → IsNodup (erase_ready h xs)
unfolding erase_ready
IsNodup-erase_ready h [] n = tt
IsNodup-erase_ready h (x ∷ xs) n = elim (Bool-cases (not_waiting_thread (h x).state)) [
  | inl free ↦ rw free n.1
  | inr waits ↦ rw waits (All-erase_ready (λ y. y ≢ x) h xs n.0, IsNodup-erase_ready h xs n.1)
]

-- A property of every queued thread holds of the first ready one.
pub first_ready-All {ℓ} :
    (P : Ptr → Type ℓ) (h : Heap) (f : Ptr) (xs : List Ptr)
    → All P xs
    → first_ready h xs ≡ some f
    → P f
unfolding first_ready
first_ready-All P h f [] a e = absurd (cc)
first_ready-All P h f (x ∷ xs) a e = elim (Bool-cases (not_waiting_thread (h x).state)) [
  | inl free ↦ let same : x ≡ f = ground arith in rw same at a.0
  | inr waits ↦ first_ready-All P h f xs a.1 (ground arith)
]

-- Once taken out, the first ready thread is not in the queue.
pub first_ready-NotIn :
    (h : Heap) (f : Ptr) (xs : List Ptr)
    → IsNodup xs
    → first_ready h xs ≡ some f
    → NotIn f (erase_ready h xs)
unfolding first_ready erase_ready
first_ready-NotIn h f [] n e = tt
first_ready-NotIn h f (x ∷ xs) n e = elim (Bool-cases (not_waiting_thread (h x).state)) [
  | inl free ↦ rw free (let same : x ≡ f = ground arith in rw same at n.0)
  | inr waits ↦
      let later : first_ready h xs ≡ some f = ground arith in
      rw waits (
        (λ e. first_ready-All (λ y. y ≢ x) h f xs n.0 later (sym e)),
        first_ready-NotIn h f xs n.1 later,
      )
]

pub waiting_of_test : (st : ThreadState) → not_waiting_thread st ≡ false → st ≡ ThreadState.waiting
waiting_of_test st h = ground arith

-- The threads behind the first ready one wait or do not have a higher priority.
pub first_ready-YieldsTo :
    (h : Heap) (f : Ptr) (xs : List Ptr)
    → IsSorted h xs
    → first_ready h xs ≡ some f
    → All (YieldsTo h (h f).priority) (erase_ready h xs)
unfolding first_ready erase_ready
first_ready-YieldsTo h f [] s e = tt
first_ready-YieldsTo h f (x ∷ xs) s e = elim (Bool-cases (not_waiting_thread (h x).state)) [
  | inl free ↦
      let same : x ≡ f = ground arith in rw free (All-map xs (λ y le. inr (rw same at le)) s.0)
  | inr waits ↦
      rw waits (inl (waiting_of_test _ waits), first_ready-YieldsTo h f xs s.1 (ground arith))
]

pub YieldsTo-mono :
    (h : Heap) (p q : ℕ) (xs : List Ptr) → p ≤ q → All (YieldsTo h p) xs → All (YieldsTo h q) xs
YieldsTo-mono h p q xs le a = All-map xs (λ y w. ground arith) a

-- No ready thread of a sorted queue has a higher priority than the first one.
pub first_ready-first :
    (h : Heap) (f : Ptr) (xs : List Ptr)
    → IsSorted h xs
    → first_ready h xs ≡ some f
    → All (YieldsTo h (h f).priority) xs
unfolding first_ready
first_ready-first h f [] s e = tt
first_ready-first h f (x ∷ xs) s e = elim (Bool-cases (not_waiting_thread (h x).state)) [
  | inl free ↦
      let same : x ≡ f = ground arith in
      (inr (rw same (omega arith)), All-map xs (λ y le. inr (rw same at le)) s.0)
  | inr waits ↦ (inl (waiting_of_test _ waits), first_ready-first h f xs s.1 (ground arith))
]

-- If no queued thread is ready, every one waits.
pub first_ready-none :
    (h : Heap) (xs : List Ptr)
    → first_ready h xs ≡ none
    → All (λ y. (h y).state ≡ ThreadState.waiting) xs
unfolding first_ready
first_ready-none h [] e = tt
first_ready-none h (x ∷ xs) e = elim (Bool-cases (not_waiting_thread (h x).state)) [
  | inl free ↦ absurd (ground arith)
  | inr waits ↦ (waiting_of_test _ waits, first_ready-none h xs (ground arith))
]
