-- ===== src/Scheduler/Threads/Shortest.antt =====
-- The preemption by `so_fork` with a quantum of 1.
use so.Common.{
  ℕ, ◌≡◌, ◌≤◌, ◌<◌, ◌≢◌, ◌⊎◌, refl, sym, ap, ◌∙◌, true, some, List, [], ◌∷◌, inl, inr, ltb, arith,
  All, lt→ltb, ◌==◌, Returns,
}
use mathlib.Core.Path.{subst}
use so.Scheduler.Types.{Ptr, Heap, ThreadState, not_waiting_thread, so_max_prio}
use so.Scheduler.Queue.Spec.{insert, first_ready, erase_ready}
use so.Scheduler.Queue.Ready.{SameKeys, SameKeys-of, first_ready-same}
use so.Scheduler.Queue.Top.{Below, insert-Below}
use so.Scheduler.Ops.{Event, Sys, sem_init, sem_post, sem_wait, pthread_create, decrement}
use so.Scheduler.Spec.{
  View, view, run, give, dispatch, join_queue, yield_cpu, freed, tick, tick_rest, contest,
  arrive_rest, arrive,
}
use so.Scheduler.Refine.{fixed_join}
use so.Scheduler.Valid.{NotIn, All-map₂, All-insert}
use so.Scheduler.Api.{so_fork, create_thread}
use so.Scheduler.Calls.Inv.{Inv, Inv-Running}
use so.Scheduler.Calls.Fork.{Fresh, born}
use so.Scheduler.Threads.Forks.{so_fork-Behind}

-- The thread `p` runs, and the log is this one.
record Posted (p : Ptr) (log : List Event) (w : View) : Type 1 where
  busy : w.running_thread ≡ some p
  wrote : w.log ≡ log

erase_ready-same :
    (h h' : Heap) (xs : List Ptr) → SameKeys h h' xs → erase_ready h xs ≡ erase_ready h' xs
unfolding erase_ready
erase_ready-same h h' [] s = refl
erase_ready-same h h' (x ∷ xs) s = rw (s.0.1, erase_ready-same h h' xs s.1)

module _ (p : Ptr) (v : View) (free : not_waiting_thread (v.heap p).state ≡ true)
    (below : Below v.heap p v.queue) where
  joined-keys : SameKeys v.heap (join_queue p v).heap (insert v.heap p v.queue)
  joined-keys =
      SameKeys-of v.heap (join_queue p v).heap (insert v.heap p v.queue) (λ y. fixed_join p v y)

  joined-first : first_ready (join_queue p v).heap (insert v.heap p v.queue) ≡ some p
  joined-first =
      sym (first_ready-same v.heap (join_queue p v).heap (insert v.heap p v.queue) joined-keys)
      ∙ (insert-Below v.heap p v.queue free below).0

  joined-left : erase_ready (join_queue p v).heap (insert v.heap p v.queue) ≡ v.queue
  joined-left =
      sym (erase_ready-same v.heap (join_queue p v).heap (insert v.heap p v.queue) joined-keys)
      ∙ (insert-Below v.heap p v.queue free below).1

  -- It gets the processor back at once.
  yield_cpu-Posted : Posted p (sem_post p ∷ v.log) (yield_cpu p v)
  unfolding yield_cpu dispatch join_queue
  yield_cpu-Posted =
      subst (λ o. Posted p (sem_post p ∷ v.log) (give o (join_queue p v))) (sym joined-first)
        (unfold give in unfold run in record { busy = refl; wrote = refl })

-- Its only unit of time is charged: it posts itself, and the caller waits on its semaphore.
tick-Posted :
    (p : Ptr) (v : View)
    → NotIn p v.queue
    → Below v.heap p v.queue
    → (v.heap p).time_quantum ≡ 1
    → Posted p (sem_wait p ∷ sem_post p ∷ v.log) (tick p v)
unfolding tick tick_rest
tick-Posted p v out below one =
    let again = yield_cpu-Posted p (freed p v) (ground arith) (
      All-map₂ v.queue
        (λ y ne b. elim b [
          | inl waits ↦ inl (ground (arith, waits, ne))
          | inr lt ↦ inr (ground (arith, lt, ne))
        ])
        out below) in
    subst
      (λ q.
        Posted p (sem_wait p ∷ sem_post p ∷ v.log) (tick_rest (decrement q == 0) p (decrement q) v))
      (sym one) (record { busy = again.busy; wrote = ap (λ l. sem_wait p ∷ l) again.wrote })

module _ (p r : Ptr) (v : View) (ne : r ≢ p) (free : not_waiting_thread (v.heap p).state ≡ true)
    (out : NotIn p v.queue) (below : Below v.heap p v.queue)
    (lower : (v.heap r).priority < (v.heap p).priority) where
  taken : View
  taken = run p (join_queue p v)

  taken-queue : taken.queue ≡ v.queue
  unfolding taken run join_queue
  taken-queue = unfold join_queue in joined-left p v free below

  -- The threads that are queued when `p` has taken over from `r`.
  swapped-out : NotIn p (join_queue r taken).queue
  unfolding join_queue
  swapped-out =
      All-insert (λ y. y ≢ p) taken.heap r taken.queue ne (subst (NotIn p) (sym taken-queue) out)

  swapped-keeps : (y : Ptr) → ((join_queue r taken).heap y).priority ≡ (v.heap y).priority
  unfolding join_queue taken run
  swapped-keeps y = ground arith

  swapped-waits :
      (y : Ptr)
      → y ≢ p
      → (v.heap y).state ≡ ThreadState.waiting
      → ((join_queue r taken).heap y).state ≡ ThreadState.waiting
  unfolding join_queue taken run
  swapped-waits y apart waits = ground arith

  swapped-lower :
      (y : Ptr)
      → (v.heap y).priority < (v.heap p).priority
      → ((join_queue r taken).heap y).priority < ((join_queue r taken).heap p).priority
  swapped-lower y lt = omega (arith, lt, swapped-keeps y, swapped-keeps p)

  swapped-Below : Below (join_queue r taken).heap p (join_queue r taken).queue
  swapped-Below =
      let h : Heap = (join_queue r taken).heap in
      let under : Ptr → Type 0 =
        λ y. ((h y).state ≡ ThreadState.waiting) ⊎ ((h y).priority < (h p).priority) in
      let others : All under v.queue =
        All-map₂ v.queue
          (λ y apart b. elim b [
            | inl waits ↦ inl (swapped-waits y apart waits)
            | inr lt ↦ inr (swapped-lower y lt)
          ])
          out below in
      let joined : All under (insert taken.heap r taken.queue) =
        All-insert under taken.heap r taken.queue (inr (swapped-lower r lower))
          (subst (All under) (sym taken-queue) others) in
      unfold join_queue in joined

  swapped-time : ((join_queue r taken).heap p).time_quantum ≡ (v.heap p).time_quantum
  unfolding join_queue taken run
  swapped-time = ground arith

  swapped-log : (join_queue r taken).log ≡ sem_post p ∷ v.log
  unfolding join_queue taken run
  swapped-log = refl

  contest-Posted :
      (v.heap p).time_quantum ≡ 1
      → Posted p
          (sem_wait r ∷ sem_wait p ∷ sem_post p ∷ sem_post p ∷ v.log)
          (contest true p r (join_queue p v))
  unfolding contest
  contest-Posted one =
      let t = tick-Posted p (join_queue r taken) swapped-out swapped-Below (swapped-time ∙ one) in
      record {
        busy = unfold taken in t.busy;
        wrote =
            unfold taken in
            (ap (λ l. sem_wait r ∷ l)
              (t.wrote ∙ ap (λ l. sem_wait p ∷ sem_post p ∷ l) swapped-log));
      }

-- The thread `p` arrives, above the running thread `r`.
arrive-Posted :
    (p r : Ptr) (v : View)
    → v.running_thread ≡ some r
    → r ≢ p
    → not_waiting_thread (v.heap p).state ≡ true
    → NotIn p v.queue
    → Below v.heap p v.queue
    → (v.heap r).priority < (v.heap p).priority
    → (v.heap p).time_quantum ≡ 1
    → Posted p (sem_wait r ∷ sem_wait p ∷ sem_post p ∷ sem_post p ∷ v.log) (arrive p v)
unfolding arrive arrive_rest
arrive-Posted p r v busy ne free out below lower one =
    let w : View = join_queue p v in
    let log : List Event = sem_wait r ∷ sem_wait p ∷ sem_post p ∷ sem_post p ∷ v.log in
    let above : ltb (w.heap r).priority (w.heap p).priority ≡ true =
      lt→ltb _ _ (omega (arith, lower, (fixed_join p v r).0, (fixed_join p v p).0)) in
    subst (λ o. Posted p log (arrive_rest o (first_ready w.heap w.queue) w))
      (unfold join_queue in sym busy)
      (subst (λ f. Posted p log (arrive_rest (some r) f w))
        (unfold join_queue in sym (joined-first p v free below))
        (subst (λ b. Posted p log (contest b p r w)) (sym above)
          (contest-Posted p r v ne free out below lower one)))

-- In a scheduler that satisfies the invariant, with a quantum of 1: a thread at a new address, with a
-- priority above that of the running thread `r` and at most SO_MAX_PRIO, gets the processor when it is
-- forked, its semaphore is posted twice, and `r` waits on that semaphore before it waits on its own.
pub so_fork-posts_twice :
    (s : Sys) {xs ts : List Ptr} (r p tid func priority : ℕ)
    → Inv s xs ts
    → Fresh p s xs
    → priority ≤ so_max_prio
    → s.running_thread ≡ some r
    → s.time_quantum ≡ 1
    → (s.heap r).priority < priority
    → Returns
        (λ (out : ℕ × Sys).
          (out.1.running_thread ≡ some p)
          × (out.1.log
              ≡ sem_wait r
                ∷ sem_wait p
                ∷ sem_post p
                ∷ sem_post p
                ∷ pthread_create p
                ∷ sem_init p
                ∷ s.log))
        (so_fork p (some tid) (some func) priority s)
unfolding create_thread
so_fork-posts_twice s {xs} r p tid func priority inv fresh prio busy one lower =
    let log : List Event =
      sem_wait r ∷ sem_wait p ∷ sem_post p ∷ sem_post p ∷ pthread_create p ∷ sem_init p ∷ s.log in
    let apart : r ≢ p = fresh.cpu r busy in
    let first = (Inv-Running inv busy).first in
    let (out, run, b) = so_fork-Behind (Posted p log) s p tid func priority inv fresh prio (λ b.
      arrive-Posted p r (view (born p tid func priority b s) xs) busy apart (ground arith)
        fresh.queue
        (All-map₂ xs
          (λ y ne f. elim f [
            | inl waits ↦ inl (ground (arith, waits, ne))
            | inr le ↦ inr (ground (arith, le, ne, lower, prio))
          ])
          fresh.queue first)
        (ground (arith, lower, prio, apart)) (ground (arith, one))) in
    (out, run, (b.turn.busy, b.turn.wrote))
