-- ===== src/Scheduler/Calls/Presence.antt =====
-- Where a thread that has joined the queue is afterwards: it runs, or it stands in a cell of the queue.
use so.Common.{
  ℕ, ◌+◌, ◌≡◌, ◌≢◌, ◌<◌, ◌⊎◌, refl, sym, ap, ◌∙◌, Bool, true, false, Option, none, some, List, [],
  ◌∷◌, inl, inr, length, arith, ltb, ◌==◌, Bool-cases,
}
use mathlib.Core.Path.{subst}
use mathlib.Core.List.{Memᴰ}
use so.Scheduler.Types.{Ptr, Heap, Pq, not_waiting_thread}
use so.Scheduler.Queue.Spec.{insert, first_ready, erase_ready, At, Holds}
use so.Scheduler.Ops.{Sys, decrement}
use so.Scheduler.Spec.{
  View, shown, run, give, dispatch, join_queue, freed, yield_cpu, tick_rest, tick, contest,
  arrive_rest, arrive,
}

-- The thread stands in a cell of the queue.
abbrev pub InQueue : Ptr → Sys → Type 0
InQueue p s = (j : ℕ) × (j < s.pq.size) × (s.pq.q.cell j ≡ some p)

-- The thread runs, or stands in the queue.
abbrev Here : Ptr → View → Type 0
Here p v = (v.running_thread ≡ some p) ⊎ Memᴰ p v.queue

pub Memᴰ-At :
    (c : ℕ → Option Ptr) (i : ℕ) (p : Ptr) (xs : List Ptr)
    → At c i xs
    → Memᴰ p xs
    → (j : ℕ) × (j < i + length xs) × (c j ≡ some p)
Memᴰ-At c i p [] a m = elim m [ ]
Memᴰ-At c i p (x ∷ xs) a (Memᴰ.head e) = (i, omega arith, a.0 ∙ ap some (sym e))
Memᴰ-At c i p (x ∷ xs) a (Memᴰ.tail m) =
    let (j, lt, at) = Memᴰ-At c (i + 1) p xs a.1 m in (j, omega (arith, lt), at)

pub Memᴰ-InQueue :
    (s : Sys) (v : View) {pq : Pq} (p : Ptr)
    → Holds pq v.queue
    → Memᴰ p v.queue
    → InQueue p (shown s v pq)
Memᴰ-InQueue s v {pq} p hold m =
    let (j, lt, at) = Memᴰ-At pq.q.cell 0 p v.queue hold.cells m in
    (j, omega (arith, lt, hold.size), at)

Memᴰ-insert_new : (h : Heap) (t : Ptr) (xs : List Ptr) → Memᴰ t (insert h t xs)
unfolding insert
Memᴰ-insert_new h t [] = Memᴰ.head refl
Memᴰ-insert_new h t (x ∷ xs) = elim (Bool-cases (ltb (h x).priority (h t).priority)) [
  | inl above ↦ rw above (Memᴰ.head refl)
  | inr below ↦ rw below (Memᴰ.tail (Memᴰ-insert_new h t xs))
]

Memᴰ-insert_old : (h : Heap) (t p : Ptr) (xs : List Ptr) → Memᴰ p xs → Memᴰ p (insert h t xs)
unfolding insert
Memᴰ-insert_old h t p [] m = elim m [ ]
Memᴰ-insert_old h t p (x ∷ xs) (Memᴰ.head e) =
    elim (Bool-cases (ltb (h x).priority (h t).priority)) [
      | inl above ↦ rw above (Memᴰ.tail (Memᴰ.head e))
      | inr below ↦ rw below (Memᴰ.head e)
    ]
Memᴰ-insert_old h t p (x ∷ xs) (Memᴰ.tail m) =
    elim (Bool-cases (ltb (h x).priority (h t).priority)) [
      | inl above ↦ rw above (Memᴰ.tail (Memᴰ.tail m))
      | inr below ↦ rw below (Memᴰ.tail (Memᴰ-insert_old h t p xs m))
    ]

-- The dispatched thread leaves the queue, and no other.
Memᴰ-erase_ready :
    (h : Heap) (f p : Ptr) (xs : List Ptr)
    → first_ready h xs ≡ some f
    → Memᴰ p xs
    → (f ≡ p) ⊎ Memᴰ p (erase_ready h xs)
unfolding first_ready erase_ready
Memᴰ-erase_ready h f p [] e m = absurd (cc)
Memᴰ-erase_ready h f p (x ∷ xs) e (Memᴰ.head same) =
    elim (Bool-cases (not_waiting_thread (h x).state)) [
      | inl ready ↦ inl (ground (arith, ready, same, e))
      | inr waits ↦ inr (rw waits (Memᴰ.head same))
    ]
Memᴰ-erase_ready h f p (x ∷ xs) e (Memᴰ.tail m) =
    elim (Bool-cases (not_waiting_thread (h x).state)) [
      | inl ready ↦ inr (rw ready m)
      | inr waits ↦ elim (Memᴰ-erase_ready h f p xs (ground (arith, waits, e)) m) [
        | inl same ↦ inl same
        | inr n ↦ inr (rw waits (Memᴰ.tail n))
      ]
    ]

run-Here :
    (f p : Ptr) (v : View) → first_ready v.heap v.queue ≡ some f → Memᴰ p v.queue → Here p (run f v)
unfolding run
run-Here f p v e m = elim (Memᴰ-erase_ready v.heap f p v.queue e m) [
  | inl same ↦ inl (ap some same)
  | inr n ↦ inr n
]

give-Here :
    (o : Option Ptr) (p : Ptr) (v : View)
    → first_ready v.heap v.queue ≡ o
    → Memᴰ p v.queue
    → Here p (give o v)
unfolding give
give-Here none p v e m = inr m
give-Here (some f) p v e m = run-Here f p v e m

join_queue-Here : (t p : Ptr) (v : View) → Here p v → Here p (join_queue t v)
unfolding join_queue
join_queue-Here t p v (inl busy) = inl busy
join_queue-Here t p v (inr m) = inr (Memᴰ-insert_old v.heap t p v.queue m)

join_queue-Memᴰ : (r p : Ptr) (v : View) → (r ≡ p) ⊎ Memᴰ p v.queue → Memᴰ p (join_queue r v).queue
unfolding join_queue
join_queue-Memᴰ r p v (inl same) =
    subst (λ t. Memᴰ t (insert v.heap r v.queue)) same (Memᴰ-insert_new v.heap r v.queue)
join_queue-Memᴰ r p v (inr m) = Memᴰ-insert_old v.heap r p v.queue m

yield_cpu-Here : (r p : Ptr) (v : View) → (r ≡ p) ⊎ Memᴰ p v.queue → Here p (yield_cpu r v)
unfolding yield_cpu dispatch
yield_cpu-Here r p v at =
    give-Here (first_ready (join_queue r v).heap (join_queue r v).queue) p (join_queue r v) refl
      (join_queue-Memᴰ r p v at)

-- The thread that runs, or a thread of the queue.
holder : (r p : Ptr) (v : View) → v.running_thread ≡ some r → Here p v → (r ≡ p) ⊎ Memᴰ p v.queue
holder r p v busy (inl here) = inl (ground arith)
holder r p v busy (inr m) = inr m

tick-Here : (r p : Ptr) (v : View) → v.running_thread ≡ some r → Here p v → Here p (tick r v)
unfolding tick
tick-Here r p v busy here = rest (decrement (v.heap r).time_quantum == 0)
  where
    rest : (b : Bool) → Here p (tick_rest b r (decrement (v.heap r).time_quantum) v)
    rest true = unfold tick_rest in yield_cpu-Here r p (freed r v) (holder r p v busy here)
    rest false = unfold tick_rest in here

contest-Here :
    (b : Bool) (f r p : Ptr) (v : View)
    → v.running_thread ≡ some r
    → first_ready v.heap v.queue ≡ some f
    → Memᴰ p v.queue
    → Here p (contest b f r v)
unfolding contest
contest-Here true f r p v busy e m =
    tick-Here f p (join_queue r (run f v)) (unfold join_queue run in refl)
      (join_queue-Here r p (run f v) (run-Here f p v e m))
contest-Here false f r p v busy e m = tick-Here r p v busy (inr m)

arrive_rest-Here :
    (o f : Option Ptr) (p : Ptr) (v : View)
    → v.running_thread ≡ o
    → first_ready v.heap v.queue ≡ f
    → Memᴰ p v.queue
    → Here p (arrive_rest o f v)
unfolding arrive_rest
arrive_rest-Here none f p v busy e m = give-Here f p v e m
arrive_rest-Here (some r) none p v busy e m = inr m
arrive_rest-Here (some r) (some f) p v busy e m =
    contest-Here (ltb (v.heap r).priority (v.heap f).priority) f r p v busy e m

-- A thread that has arrived runs or stands in the queue.
arrive-Here : (p : Ptr) (v : View) → Here p (arrive p v)
unfolding arrive
arrive-Here p v =
    let w : View = join_queue p v in
    arrive_rest-Here w.running_thread (first_ready w.heap w.queue) p w refl refl
      (join_queue-Memᴰ p p v (inl refl))

pub arrive-InQueue :
    (s : Sys) {pq : Pq} (p : Ptr) (v : View)
    → Holds pq (arrive p v).queue
    → ((arrive p v).running_thread ≡ some p) ⊎ InQueue p (shown s (arrive p v) pq)
arrive-InQueue s p v hold = elim (arrive-Here p v) [
  | inl runs ↦ inl runs
  | inr m ↦ inr (Memᴰ-InQueue s (arrive p v) p hold m)
]

-- A thread that gives way to another stands in the queue.
pub yield_cpu-InQueue :
    (s : Sys) {pq : Pq} (r f : Ptr) (v : View)
    → Holds pq (yield_cpu r v).queue
    → (yield_cpu r v).running_thread ≡ some f
    → f ≢ r
    → InQueue r (shown s (yield_cpu r v) pq)
yield_cpu-InQueue s r f v hold runs ne = elim (yield_cpu-Here r r v (inl refl)) [
  | inl same ↦ absurd (ne (ground (arith, runs, same)))
  | inr m ↦ Memᴰ-InQueue s (yield_cpu r v) r hold m
]
