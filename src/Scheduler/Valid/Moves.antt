-- ===== src/Scheduler/Valid/Moves.antt =====
-- Each move of `Scheduler.Spec` ends in a valid state.
use so.Common.{ℕ, ◌≡◌, refl, true, Option, none, some, List, All, arith}
use so.Scheduler.Types.{Ptr, Heap, ThreadState, not_waiting_thread}
use so.Scheduler.Queue.Spec.{first_ready, erase_ready}
use so.Scheduler.Queue.Ready.{first_ready-not_waiting}
use so.Scheduler.Spec.{View, run, give, dispatch, join_queue, yield_cpu}
use so.Scheduler.Valid.Defs.{NotIn, Queued, CanJoin, Base, YieldsTo, Running, Valid}
use so.Scheduler.Valid.Lists.{
  All-map₂, first_ready-All, first_ready-NotIn, first_ready-YieldsTo, first_ready-none,
}
use so.Scheduler.Valid.Queue.{SameAt, SameAt-write, join-Base, run-Base}

-- `YieldsTo` reads only the queued threads.
pub YieldsTo-same :
    (h h' : Heap) (p : ℕ) (xs : List Ptr)
    → SameAt h h' xs
    → All (YieldsTo h p) xs
    → All (YieldsTo h' p) xs
YieldsTo-same h h' p xs same a = All-map₂ xs (λ y e w. ground (arith, e)) same a

-- The thread that gets the processor, as `Running` wants it.
pub run-Running :
    (f : Ptr) (v : View)
    → Base v.time_quantum v.heap v.queue
    → first_ready v.heap v.queue ≡ some f
    → Running v.time_quantum (run f v).heap (erase_ready v.heap v.queue) f
unfolding run
run-Running f v b e = record {
  state = ground arith;
  event = ground (arith, queued, free);
  thread = record {
    priority = ground (arith, queued);
    some_time = ground (arith, queued);
    within = ground (arith, queued);
  };
  out = out;
  first =
      let h' : Heap = (run f v).heap in
      let same : (h' f).priority ≡ (v.heap f).priority = ground arith in
      rw same (
        YieldsTo-same v.heap h' (v.heap f).priority (erase_ready v.heap v.queue)
          (SameAt-write v.heap f (record (v.heap f) { state = ThreadState.running })
            (erase_ready v.heap v.queue) out)
          (first_ready-YieldsTo v.heap f v.queue b.sorted e));
}
  where
    queued : Queued v.time_quantum (v.heap f)
    queued = first_ready-All (λ y. Queued v.time_quantum (v.heap y)) v.heap f v.queue b.queued e

    free : not_waiting_thread (v.heap f).state ≡ true
    free = first_ready-not_waiting v.heap f v.queue e

    out : NotIn f (erase_ready v.heap v.queue)
    out = first_ready-NotIn v.heap f v.queue b.nodup e

run-Valid :
    (f : Ptr) (v : View)
    → Base v.time_quantum v.heap v.queue
    → first_ready v.heap v.queue ≡ some f
    → Valid (run f v)
run-Valid f v b e = unfold run in record { base = run-Base f v b e; cpu = run-Running f v b e }

pub give-Valid :
    (o : Option Ptr) (v : View)
    → Base v.time_quantum v.heap v.queue
    → v.running_thread ≡ none
    → first_ready v.heap v.queue ≡ o
    → Valid (give o v)
unfolding give
give-Valid none v b idle e = record { base = b; cpu = rw idle (first_ready-none v.heap v.queue e) }
give-Valid (some f) v b idle e = run-Valid f v b e

-- A processor that is free is given away well.
pub dispatch-Valid :
    (v : View) → Base v.time_quantum v.heap v.queue → v.running_thread ≡ none → Valid (dispatch v)
unfolding dispatch
dispatch-Valid v b idle = give-Valid (first_ready v.heap v.queue) v b idle refl

pub yield_cpu-Valid :
    (t : Ptr) (v : View)
    → Base v.time_quantum v.heap v.queue
    → v.running_thread ≡ none
    → NotIn t v.queue
    → CanJoin v.time_quantum (v.heap t)
    → Valid (yield_cpu t v)
unfolding yield_cpu
yield_cpu-Valid t v b idle out can =
    dispatch-Valid (join_queue t v) (unfold join_queue in join-Base t v b out can)
      (unfold join_queue in idle)
