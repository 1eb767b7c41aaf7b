-- ===== src/Scheduler/Queue/Cells.antt =====
-- Lists that stand in consecutive cells, and how they follow their cells.
use so.Common.{ℕ, ◌+◌, ◌≡◌, ◌≤◌, ◌<◌, Option, List, [], ◌∷◌, arith, length, dec_lt, ◌∙◌}
use so.Scheduler.Types.{Ptr}
use so.Scheduler.Queue.Spec.{At}
use so.Scheduler.Queue.Shift.{Written}

pub At-frame :
    (c c' : ℕ → Option Ptr) (i : ℕ) (xs : List Ptr)
    → ((k : ℕ) → i ≤ k → k < i + length xs → c' k ≡ c k)
    → At c i xs
    → At c' i xs
At-frame c c' i [] same a = tt
At-frame c c' i (x ∷ xs) same a = (
  same i (omega arith) (omega arith) ∙ a.0,
  At-frame c c' (i + 1) xs (λ k p q. same k (omega arith) (omega arith)) a.1,
)

pub At-up :
    (c c' : ℕ → Option Ptr) (i : ℕ) (xs : List Ptr)
    → ((k : ℕ) → i ≤ k → k < i + length xs → c' (k + 1) ≡ c k)
    → At c i xs
    → At c' (i + 1) xs
At-up c c' i [] same a = tt
At-up c c' i (x ∷ xs) same a = (
  same i (omega arith) (omega arith) ∙ a.0,
  At-up c c' (i + 1) xs (λ k p q. same k (omega arith) (omega arith)) a.1,
)

pub At-down :
    (c c' : ℕ → Option Ptr) (i : ℕ) (xs : List Ptr)
    → ((k : ℕ) → i ≤ k → k < i + length xs → c' k ≡ c (k + 1))
    → At c (i + 1) xs
    → At c' i xs
At-down c c' i [] same a = tt
At-down c c' i (x ∷ xs) same a = (
  same i (omega arith) (omega arith) ∙ a.0,
  At-down c c' (i + 1) xs (λ k p q. same k (omega arith) (omega arith)) a.1,
)

pub At-Written :
    (c : ℕ → Option Ptr) (i : ℕ) (xs : List Ptr) (hi : ℕ)
    → At c i xs
    → hi ≤ i + length xs
    → Written c i hi
At-Written c i [] hi a h k p q = absurd (omega arith)
At-Written c i (x ∷ xs) hi a h k p q = elim (dec_lt i k) [
  | yes later ↦ At-Written c (i + 1) xs hi a.1 (omega arith) k (omega arith) q
  | no here ↦ (x, let e : k ≡ i = omega arith in rw e a.0)
]
