-- ===== src/Scheduler/Valid/Arrival.antt =====
-- The invariant when a thread arrives.
use so.Common.{
  ℕ, ◌≡◌, ◌≤◌, ◌≢◌, inl, inr, refl, sym, ap, ◌∙◌, Bool, true, false, Option, none, some, All, ltb,
  arith,
}
use so.Scheduler.Types.{Ptr, Thread, ThreadState, no_event}
use mathlib.Core.Path.{subst}
use so.Scheduler.Refine.{fixed_join}
use so.Scheduler.Queue.Spec.{insert, first_ready, erase_ready}
use so.Scheduler.Spec.{View, run, join_queue, contest, arrive_rest, arrive}
use so.Scheduler.Valid.Defs.{NotIn, IsThread, CanJoin, Base, YieldsTo, Running, OnCpu, Valid}
use so.Scheduler.Valid.Lists.{
  All-map, All-insert, All-erase_ready, first_ready-All, first_ready-none, first_ready-first,
  YieldsTo-mono,
}
use so.Scheduler.Valid.Queue.{join-other, join-Base, run-Base}
use so.Scheduler.Valid.Moves.{YieldsTo-same, run-Running, give-Valid}
use so.Scheduler.Valid.Turns.{Busy, tick-Valid}

-- `r` runs, and may have to give way.
record Present (r : Ptr) (v : View) : Type 0 where
  state : (v.heap r).state ≡ ThreadState.running
  event : (v.heap r).event ≡ no_event
  thread : IsThread v.time_quantum (v.heap r)
  out : NotIn r v.queue

run-other : (f p : Ptr) (v : View) → p ≢ f → (run f v).heap p ≡ v.heap p
unfolding run
run-other f p v ne = ground arith

run-priority : (f : Ptr) (v : View) (p : Ptr) → ((run f v).heap p).priority ≡ (v.heap p).priority
unfolding run
run-priority f v p = ground arith

module _ (f r : Ptr) (v : View) (base : Base v.time_quantum v.heap v.queue) (here : Present r v)
    (first : first_ready v.heap v.queue ≡ some f) where
  apart : f ≢ r
  apart = first_ready-All (λ y. y ≢ r) v.heap f v.queue here.out first

  out : NotIn r (erase_ready v.heap v.queue)
  out = All-erase_ready (λ y. y ≢ r) v.heap v.queue here.out

  same_r : (run f v).heap r ≡ v.heap r
  same_r = run-other f r v (λ e. apart (sym e))

  run-CanJoin : CanJoin v.time_quantum ((run f v).heap r)
  run-CanJoin =
      rw same_r
        (record { thread = here.thread; state = inl (ground (arith, here.state), here.event) })

  run-f : Running v.time_quantum (run f v).heap (erase_ready v.heap v.queue) f
  run-f = run-Running f v base first

  same_f : (join_queue r (run f v)).heap f ≡ (run f v).heap f
  same_f = join-other r f (run f v) apart

  take_over-first :
      (v.heap r).priority ≤ (v.heap f).priority
      → All
          (YieldsTo (join_queue r (run f v)).heap ((run f v).heap f).priority)
          (insert (run f v).heap r (erase_ready v.heap v.queue))
  take_over-first le =
      All-insert (YieldsTo (join_queue r (run f v)).heap ((run f v).heap f).priority) (run f v).heap
        r (erase_ready v.heap v.queue)
        (inr (
          omega (
            arith,
            (fixed_join r (run f v) r).0,
            ap (λ th. Thread.priority th) same_r,
            run-priority f v f,
          )))
        (YieldsTo-same (run f v).heap (join_queue r (run f v)).heap ((run f v).heap f).priority
          (erase_ready v.heap v.queue)
          (All-map (erase_ready v.heap v.queue) (λ y ne. join-other r y (run f v) ne) out)
          run-f.first)

  -- `r` has made way for `f`, and queues up.
  take_over-Busy : (v.heap r).priority ≤ (v.heap f).priority → Busy f (join_queue r (run f v))
  unfolding run join_queue
  take_over-Busy le = record {
    base = join-Base r (run f v) (run-Base f v base first) out run-CanJoin;
    cpu = record {
      state = ap (λ th. Thread.state th) same_f ∙ run-f.state;
      event = ap (λ th. Thread.event th) same_f ∙ run-f.event;
      thread = subst (IsThread v.time_quantum) (sym same_f) run-f.thread;
      out =
          All-insert (λ y. y ≢ f) (run f v).heap r (erase_ready v.heap v.queue) (λ e. apart (sym e))
            run-f.out;
      first =
          subst
            (λ (p : ℕ).
              All (YieldsTo (join_queue r (run f v)).heap p)
                (insert (run f v).heap r (erase_ready v.heap v.queue)))
            (ap (λ th. Thread.priority th) (sym same_f)) (take_over-first le);
    };
  }

  settled-Busy : (v.heap f).priority ≤ (v.heap r).priority → Busy r v
  settled-Busy le = record {
    base = base;
    cpu = record {
      state = here.state;
      event = here.event;
      thread = here.thread;
      out = here.out;
      first =
          YieldsTo-mono v.heap (v.heap f).priority (v.heap r).priority v.queue le
            (first_ready-first v.heap f v.queue base.sorted first);
    };
  }

contest-Valid :
    (lower : Bool) (f r : Ptr) (v : View)
    → Base v.time_quantum v.heap v.queue
    → Present r v
    → v.running_thread ≡ some r
    → first_ready v.heap v.queue ≡ some f
    → lower ≡ ltb (v.heap r).priority (v.heap f).priority
    → Valid (contest lower f r v)
unfolding contest
contest-Valid true f r v base here busy first e =
    let w =
      tick-Valid f (join_queue r (run f v)) (take_over-Busy f r v base here first (ground arith))
        (unfold run join_queue in refl) in
    record { base = w.base; cpu = w.cpu }
contest-Valid false f r v base here busy first e =
    tick-Valid r v (settled-Busy f r v base here first (ground arith)) busy

arrive_rest-Valid :
    (o f : Option Ptr) (v : View)
    → Base v.time_quantum v.heap v.queue
    → ((r : Ptr) → o ≡ some r → Present r v)
    → v.running_thread ≡ o
    → first_ready v.heap v.queue ≡ f
    → Valid (arrive_rest o f v)
unfolding arrive_rest
arrive_rest-Valid none f v base here busy first = give-Valid f v base busy first
arrive_rest-Valid (some r) none v base here busy first = record {
  base = base;
  cpu =
      let p : Present r v = here r refl in
      rw busy (record {
        state = p.state;
        event = p.event;
        thread = p.thread;
        out = p.out;
        first = All-map v.queue (λ y w. inl w) (first_ready-none v.heap v.queue first);
      });
}
arrive_rest-Valid (some r) (some f) v base here busy first =
    contest-Valid (ltb (v.heap r).priority (v.heap f).priority) f r v base (here r refl) busy first
      refl

-- A thread that arrives in a valid state leaves a valid state behind.
pub arrive-Valid :
    (t : Ptr) (v : View)
    → Valid v
    → NotIn t v.queue
    → ((r : Ptr) → v.running_thread ≡ some r → r ≢ t)
    → CanJoin v.time_quantum (v.heap t)
    → Valid (arrive t v)
unfolding arrive
arrive-Valid t v valid out apart can =
    arrive_rest-Valid v.running_thread (first_ready (join_queue t v).heap (join_queue t v).queue)
      (join_queue t v) (unfold join_queue in join-Base t v valid.base out can)
      (λ r busy. stays r busy (valid_cpu v r busy valid)) (unfold join_queue in refl) refl
  where
    valid_cpu :
        (v : View) (r : Ptr)
        → v.running_thread ≡ some r
        → Valid v
        → Running v.time_quantum v.heap v.queue r
    valid_cpu v r busy valid = subst (OnCpu v.time_quantum v.heap v.queue) busy valid.cpu

    stays :
        (r : Ptr)
        → v.running_thread ≡ some r
        → Running v.time_quantum v.heap v.queue r
        → Present r (join_queue t v)
    stays r busy cpu =
        let same : (join_queue t v).heap r ≡ v.heap r = join-other t r v (apart r busy) in
        record {
          state = ap (λ th. Thread.state th) same ∙ cpu.state;
          event = ap (λ th. Thread.event th) same ∙ cpu.event;
          thread = subst (IsThread v.time_quantum) (sym same) (unfold join_queue in cpu.thread);
          out =
              unfold join_queue in
              All-insert (λ y. y ≢ r) v.heap t v.queue (λ e. apart r busy (sym e)) cpu.out;
        }
