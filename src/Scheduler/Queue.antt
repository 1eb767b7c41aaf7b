-- ===== src/Scheduler/Queue.antt =====
-- Homeworks/Thread Scheduler/priority_queue.c: an array of thread pointers, highest priority first.
-- A loop is a function of its own, by recursion on the rounds that it has left.
pub mod Spec
pub mod Shift
pub mod Cells
pub mod Enqueue
pub mod Ready
pub mod Dequeue
pub mod Order
pub mod Positions
pub mod Top
use so.Common.{
  ℕ, zero, suc, ◌+◌, ◌-◌, ◌*◌, true, false, Option, none, some, ◌==◌, if◌then◌else◌, ◌>>=◌, ltb,
}
use so.Scheduler.Types.{
  Ptr, Heap, Block, null_block, read, write, Pq, not_waiting_thread, compare_priorities,
}

unfoldable pub pq_create : Pq
pq_create = record { q = null_block; size = 0; capacity = 1 }

-- `realloc` keeps the cells, and the new ones are not written. The first `malloc` is of one cell.
unfoldable pub alloc_memory_for_pq : Pq → Pq
alloc_memory_for_pq pq =
    let capacity = pq.capacity * 2 in
    if pq.q.allocated == 0
    then record pq { capacity = capacity; q = record { allocated = 1; cell = λ _. none } }
    else record pq {
      capacity = capacity;
      q = record {
        allocated = capacity;
        cell = λ k. if ltb k pq.q.allocated then pq.q.cell k else none;
      };
    }

-- `for (j = ...; j > i; j--) q[j] = q[j - 1]`, with `j - i` rounds left
unfoldable pub shift_right : ℕ → ℕ → Block → Option Block
shift_right zero j b = some b
shift_right (suc n) j b = do v ← read b (j - 1); b' ← write b j v; shift_right n (j - 1) b'

-- The outer loop of `enqueue` from index `i` on, with `n` rounds left; `last` is `size - 1`.
unfoldable pub place : Heap → Ptr → ℕ → ℕ → ℕ → Block → Option Block
unfolding shift_right
place h t last zero i b = some b
place h t last (suc n) i b = do
  x ← read b i
  elim (compare_priorities (h t).priority (h x).priority) [
    | true ↦ (do b' ← shift_right (last - i) last b; write b' i t)
    | false ↦ place h t last n (i + 1) b
  ]

-- The queue with room for one more.
unfoldable pub grow : Pq → Pq
unfolding alloc_memory_for_pq
grow pq =
    let pq' : Pq = record pq { size = pq.size + 1 } in
    if pq'.size == pq'.capacity then alloc_memory_for_pq pq' else pq'

unfoldable pub enqueue : Heap → Ptr → Pq → Option Pq
unfolding grow place
enqueue h t pq = do
  let g = grow pq
  b ← write g.q (g.size - 1) t
  b' ← place h t (g.size - 1) (g.size - 1) 0 b
  some (record g { q = b' })

-- The inner `Option` is NULL.
unfoldable pub front_loop : Heap → ℕ → ℕ → Block → Option (Option Ptr)
front_loop h zero i b = some none
front_loop h (suc n) i b = do
  x ← read b i
  elim (not_waiting_thread (h x).state) [ true ↦ some (some x) | false ↦ front_loop h n (i + 1) b ]

unfoldable pub front : Heap → Pq → Option (Option Ptr)
unfolding front_loop
front h pq = front_loop h pq.size 0 pq.q

-- `for (j = i; j < size - 1; j++) q[j] = q[j + 1]`, with `size - 1 - j` rounds left
unfoldable pub shift_left : ℕ → ℕ → Block → Option Block
shift_left zero j b = some b
shift_left (suc n) j b = do v ← read b (j + 1); b' ← write b j v; shift_left n (j + 1) b'

-- The loop of `dequeue` from index `i` on, with `n` rounds left.
unfoldable pub dequeue_loop : Heap → Pq → ℕ → ℕ → Option (Option Ptr × Pq)
dequeue_loop h pq zero i = some (none, pq)
dequeue_loop h pq (suc n) i = do
  x ← read pq.q i
  elim (not_waiting_thread (h x).state) [
    | true ↦ (do
      b ← shift_left (pq.size - 1 - i) i pq.q
      some (some x, record { q = b; size = pq.size - 1; capacity = pq.capacity }))
    | false ↦ dequeue_loop h pq n (i + 1)
  ]

unfoldable pub dequeue : Heap → Pq → Option (Option Ptr × Pq)
unfolding dequeue_loop shift_left
dequeue h pq = dequeue_loop h pq pq.size 0
