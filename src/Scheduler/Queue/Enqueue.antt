-- ===== src/Scheduler/Queue/Enqueue.antt =====
-- `enqueue` of priority_queue.c: no access out of bounds, and the newcomer stands where it should.
use so.Common.{
  ℕ, zero, suc, ◌+◌, ◌-◌, ◌≡◌, ◌≤◌, ◌<◌, refl, ◌∙◌, some, List, [], ◌∷◌, inl, inr, ◌⊎◌, ltb, ◌>>=◌,
  arith, length, Bool-cases,
}
use so.Scheduler.Types.{Ptr, Heap, Block, write, Pq}
use so.Scheduler.Queue.Spec.{At, Holds, insert}
use so.Scheduler.Queue.Shift.{store, read-some, write-some, shift_right_lem}
use so.Scheduler.Queue.Cells.{At-frame, At-up, At-Written}
use so.Scheduler.Queue.{place, grow, enqueue, shift_right}

pub length-insert : (h : Heap) (t : Ptr) (xs : List Ptr) → length (insert h t xs) ≡ length xs + 1
unfolding insert
length-insert h t [] = omega arith
length-insert h t (x ∷ xs) = ground (arith, length-insert h t xs)

-- What the outer loop has done when it stops, started at index `i`.
record Placed (i : ℕ) (ys : List Ptr) (b b' : Block) : Type 0 where
  allocated : b'.allocated ≡ b.allocated
  below : (k : ℕ) → k < i → b'.cell k ≡ b.cell k
  cells : At b'.cell i ys

-- The round that finds a thread of lower priority.
place_here :
    (t last i : ℕ) (x : Ptr) (xs : List Ptr) (b : Block)
    → i + suc (length xs) ≡ last
    → last < b.allocated
    → At b.cell i (x ∷ xs)
    → (b' : Block) × ((do b' ← shift_right (last - i) last b; write b' i t) ≡ some b')
      × Placed i (t ∷ x ∷ xs) b b'
place_here t last i x xs b e m a =
    let (b1, run, sh) =
      shift_right_lem (last - i) i last b (omega arith) m
        (At-Written b.cell i (x ∷ xs) last a (omega arith)) in
    (
      store b1 i t,
      rw run (write-some b1 i t (omega (arith, sh.allocated))),
      record {
        allocated = sh.allocated;
        below = λ k p. ground (arith, sh.cells k);
        cells = (
          ground arith,
          At-up b.cell (store b1 i t).cell i (x ∷ xs) (λ k p q. ground (arith, sh.cells (k + 1))) a,
        );
      },
    )

place_lem :
    (h : Heap) (t last : ℕ) (xs : List Ptr) (n i : ℕ) (b : Block)
    → n ≡ length xs
    → i + n ≡ last
    → last < b.allocated
    → At b.cell i xs
    → b.cell last ≡ some t
    → (b' : Block) × (place h t last n i b ≡ some b') × Placed i (insert h t xs) b b'
unfolding place insert
place_lem h t last [] zero i b l e m a el = (
  b,
  refl,
  record {
    allocated = refl;
    below = λ k p. refl;
    cells = (let e' : i ≡ last = omega arith in rw e' el, tt);
  },
)
place_lem h t last [] (suc n) i b l e m a el = absurd (omega arith)
place_lem h t last (x ∷ xs) zero i b l e m a el = absurd (omega arith)
place_lem h t last (x ∷ xs) (suc n) i b l e m a el =
    elim (Bool-cases (ltb (h x).priority (h t).priority)) [
      | inl lower ↦
          let (b', run, p) = place_here t last i x xs b (omega arith) m a in
          (b', rw (read-some b i x (omega arith) a.0) (rw (lower, ◌>>=◌) run), rw lower p)
      | inr not ↦
          let (b', run, p) =
            place_lem h t last xs n (i + 1) b (omega arith) (omega arith) m a.1 el in
          (
            b',
            rw (read-some b i x (omega arith) a.0) (rw (not, ◌>>=◌) run),
            record {
              allocated = p.allocated;
              below = λ k q. p.below k (omega arith);
              cells = rw not (p.below i (omega arith) ∙ a.0, p.cells);
            },
          )
    ]

-- The queue after `size++` and the growth.
record Grown (g : Pq) (xs : List Ptr) : Type 0 where
  cells : At g.q.cell 0 xs
  size : g.size ≡ length xs + 1
  room : g.size < g.capacity
  inside : length xs < g.q.allocated
  memory :
      ((g.q.allocated ≡ 1) × (g.capacity ≡ 2)) ⊎ ((g.q.allocated ≡ g.capacity) × (2 ≤ g.capacity))

grow_lem : {pq : Pq} {xs : List Ptr} → Holds pq xs → Grown (grow pq) xs
unfolding grow
grow_lem {pq} {xs} v = record {
  cells = At-frame pq.q.cell (grow pq).q.cell 0 xs (λ k p q. ground arith) v.cells;
  size = ground arith;
  room = ground arith;
  inside = ground arith;
  memory = ground arith;
}

-- `enqueue` never faults, keeps the representation, and inserts the thread behind those of its own
-- and of higher priority.
pub enqueue-insert :
    (h : Heap) (t : Ptr) {pq : Pq} {xs : List Ptr}
    → Holds pq xs
    → (pq' : Pq) × (enqueue h t pq ≡ some pq') × Holds pq' (insert h t xs)
unfolding enqueue
enqueue-insert h t {pq} {xs} v =
    let gr = grow_lem v in
    let g : Pq = grow pq in
    let last : ℕ = g.size - 1 in
    let b : Block = store g.q last t in
    let (b', run, p) =
      place_lem h t last xs last 0 b (omega arith) (omega arith) (omega arith)
        (At-frame g.q.cell b.cell 0 xs (λ k q r. ground arith) gr.cells) (ground arith) in
    (
      record g { q = b' },
      rw (write-some g.q last t (omega arith)) (rw (run, ◌>>=◌)),
      record {
        cells = p.cells;
        size = omega (arith, length-insert h t xs);
        room = gr.room;
        memory = ground (arith, gr.memory, p.allocated);
      },
    )
