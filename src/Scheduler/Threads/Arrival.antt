-- ===== src/Scheduler/Threads/Arrival.antt =====
-- What `so_fork` does to the semaphores and to the turn, while a thread runs.
use so.Common.{
  Bool-cases, ◌≤◌, ltb→lt, ◌≡◌, ◌↔◌, sym, ◌∙◌, true, false, some, List, ◌∷◌, All, arith, inl, inr,
  ltb,
}
use mathlib.Core.Logic.Iff
use mathlib.Core.Path.{subst}
use mathlib.Core.Option.{some_inj}
use so.Scheduler.Types.{Ptr, not_waiting_thread}
use so.Scheduler.Queue.Spec.{first_ready, insert}
use so.Scheduler.Queue.Ready.{
  first_ready-insert, first_ready-same, first_ready-not_waiting, SameKeys-of,
}
use so.Scheduler.Ops.{Event}
use so.Scheduler.Spec.{View, join_queue, tick, contest, arrive_rest, arrive}
use so.Scheduler.Refine.{fixed_join}
use so.Scheduler.Valid.{YieldsTo, first_ready-All}
use so.Scheduler.Threads.Turn.{Turn, stays, passes, tick-Turn, ready-join, insert-All}

Turn-queue :
    (r : Ptr) (ys zs : List Ptr) (log : List Event) (w : View)
    → ((P : Ptr → Type 0) → All P zs ↔ All P ys)
    → Turn r ys log w
    → Turn r zs log w
Turn-queue r ys zs log w more (stays busy same all) =
    stays busy same (λ P. Iff.trans (more P) (all P))
Turn-queue r ys zs log w more (passes x busy same all) = passes x busy same (λ P.
    ((λ a. (all P).0 (a.0, (more P).0 a.1)), (λ a. let b = (all P).1 a in (b.0, (more P).1 b.1))))

-- Only the newcomer can outrank the thread that runs.
newcomer :
    (p f r : Ptr) (v : View)
    → All (YieldsTo v.heap (v.heap r).priority) v.queue
    → not_waiting_thread (v.heap p).state ≡ true
    → first_ready (join_queue p v).heap (insert v.heap p v.queue) ≡ some f
    → ltb ((join_queue p v).heap r).priority ((join_queue p v).heap f).priority ≡ true
    → f ≡ p
newcomer p f r v yields free first lower =
    let (g, next, which) = first_ready-insert v.heap p v.queue free in
    let moved = first_ready-same v.heap (join_queue p v).heap (insert v.heap p v.queue) (
      SameKeys-of v.heap (join_queue p v).heap (insert v.heap p v.queue) (λ y. fixed_join p v y)) in
    let same : f ≡ g = some_inj.0 (sym first ∙ sym moved ∙ next) in
    elim which [
      | inl e ↦ same ∙ e
      | inr old ↦
          let below =
            first_ready-All (YieldsTo v.heap (v.heap r).priority) v.heap g v.queue yields old in
          let awake = first_ready-not_waiting v.heap g v.queue old in
          absurd (ground (arith, below, awake, (fixed_join p v r).0, (fixed_join p v f).0, same))
    ]

joined-time :
    (p : Ptr) (v : View) → ((join_queue p v).heap p).time_quantum ≡ (v.heap p).time_quantum
unfolding join_queue
joined-time p v = ground arith

-- The arrival of the thread `p` while `r` runs, if neither `p` nor a ready thread has a higher priority
-- than `r`.
pub arrive-Turn :
    (p r : Ptr) (v : View)
    → v.running_thread ≡ some r
    → All (YieldsTo v.heap (v.heap r).priority) v.queue
    → not_waiting_thread (v.heap p).state ≡ true
    → (v.heap p).priority ≤ (v.heap r).priority
    → Turn r (p ∷ v.queue) v.log (arrive p v)
unfolding arrive arrive_rest
arrive-Turn p r v busy yields free low =
    let w = join_queue p v in
    let (f, first) = ready-join p v free in
    let first' : first_ready w.heap w.queue ≡ some f = (unfold join_queue in first) in
    let below : ltb (w.heap r).priority (w.heap f).priority ≡ false =
      elim (Bool-cases (ltb (w.heap r).priority (w.heap f).priority)) [
        | inr le ↦ le
        | inl lower ↦
            let same = newcomer p f r v yields free first lower in
            let less = ltb→lt _ _ lower in
            absurd (ground (arith, less, same, low, (fixed_join p v r).0, (fixed_join p v f).0))
      ] in
    let rest : Turn r w.queue w.log (tick r w) = tick-Turn r w (unfold join_queue in busy) in
    subst (λ o. Turn r (p ∷ v.queue) v.log (arrive_rest o (first_ready w.heap w.queue) w))
      (unfold join_queue in sym busy)
      (subst (λ g. Turn r (p ∷ v.queue) v.log (arrive_rest (some r) g w)) (sym first')
        (subst (λ b. Turn r (p ∷ v.queue) v.log (contest b f r w)) (sym below)
          (unfold contest in
            unfold join_queue in
            Turn-queue r (insert v.heap p v.queue) (p ∷ v.queue) v.log (tick r w)
              (λ P. insert-All P v.heap p v.queue) rest)))
