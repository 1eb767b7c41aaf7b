-- ===== src/Scheduler/Queue/Shift.antt =====
-- The two loops of priority_queue.c that move cells by one place.
use so.Common.{
  ℕ, zero, suc, ◌+◌, ◌-◌, ◌≡◌, ◌≤◌, ◌<◌, refl, Option, some, ◌&&◌, if◌then◌else◌, ltb, leb, lt→ltb,
  ◌==◌, arith,
}
use so.Scheduler.Types.{Ptr, Block, read, write}
use so.Scheduler.Queue.{shift_right, shift_left}

-- Every cell of `lo ≤ k < hi` was written.
abbrev pub Written : (ℕ → Option Ptr) → ℕ → ℕ → Type 0
Written c lo hi = (k : ℕ) → lo ≤ k → k < hi → (v : Ptr) × (c k ≡ some v)

abbrev pub store : Block → ℕ → Ptr → Block
store b i v = record b { cell = λ k. if k == i then some v else b.cell k }

pub read-some : (b : Block) (i v : ℕ) → i < b.allocated → b.cell i ≡ some v → read b i ≡ some v
read-some b i v h e = rw (lt→ltb i b.allocated h, e)

pub write-some : (b : Block) (i v : ℕ) → i < b.allocated → write b i v ≡ some (store b i v)
write-some b i v h = rw (lt→ltb i b.allocated h)

pub record Shifted (b b' : Block) (moved : ℕ → Option Ptr) : Type 0 where
  pub allocated : b'.allocated ≡ b.allocated
  pub cells : (k : ℕ) → b'.cell k ≡ moved k

pub shift_right_lem :
    (n lo j : ℕ) (b : Block)
    → lo + n ≡ j
    → j < b.allocated
    → Written b.cell lo j
    → (b' : Block) × (shift_right n j b ≡ some b')
      × Shifted b b' (λ k. if ltb lo k && leb k j then b.cell (k - 1) else b.cell k)
unfolding shift_right
shift_right_lem zero lo j b e a w =
    (b, refl, record { allocated = refl; cells = λ k. ground arith })
shift_right_lem (suc n) lo j b e a w =
    let (v, ev) = w (j - 1) (omega arith) (omega arith) in
    let b1 : Block = store b j v in
    let (b', run, sh) =
      shift_right_lem n lo (j - 1) b1 (omega arith) (omega arith)
        (λ k p q. let (u, eu) = w k p (omega arith) in (u, ground arith)) in
    (
      b',
      rw (read-some b (j - 1) v (omega arith) ev, write-some b j v a) run,
      record { allocated = sh.allocated; cells = λ k. ground (arith, sh.cells k) },
    )

pub shift_left_lem :
    (n hi j : ℕ) (b : Block)
    → j + n ≡ hi
    → hi < b.allocated
    → Written b.cell (j + 1) (hi + 1)
    → (b' : Block) × (shift_left n j b ≡ some b')
      × Shifted b b' (λ k. if leb j k && ltb k hi then b.cell (k + 1) else b.cell k)
unfolding shift_left
shift_left_lem zero hi j b e a w = (b, refl, record { allocated = refl; cells = λ k. ground arith })
shift_left_lem (suc n) hi j b e a w =
    let (v, ev) = w (j + 1) (omega arith) (omega arith) in
    let b1 : Block = store b j v in
    let (b', run, sh) =
      shift_left_lem n hi (j + 1) b1 (omega arith) (omega arith)
        (λ k p q. let (u, eu) = w k (omega arith) q in (u, ground arith)) in
    (
      b',
      rw (read-some b (j + 1) v (omega arith) ev, write-some b j v (omega arith)) run,
      record { allocated = sh.allocated; cells = λ k. ground (arith, sh.cells k) },
    )
