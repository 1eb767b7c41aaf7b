-- ===== src/Scheduler/Valid/Turns.antt =====
-- The invariant when time passes and when a thread arrives.
use so.Common.{
  ℕ, ◌≡◌, ◌≢◌, inl, refl, sym, ap, ◌∙◌, Bool, true, false, Option, none, some, List, All, ◌==◌,
  arith,
}
use so.Scheduler.Types.{Ptr, Heap, Thread, ThreadState, write_thread}
use mathlib.Core.Path.{subst}
use so.Scheduler.Ops.{decrement}
use so.Scheduler.Spec.{View, freed, tick_rest, tick}
use so.Scheduler.Valid.Defs.{NotIn, IsThread, CanJoin, Base, YieldsTo, Running, OnCpu, Valid}
use so.Scheduler.Valid.Lists.{All-map₂}
use so.Scheduler.Valid.Queue.{SameAt, SameAt-write, Base-same}
use so.Scheduler.Valid.Moves.{YieldsTo-same, yield_cpu-Valid}

-- The invariant of a state in which `r` runs.
pub record Busy (r : Ptr) (v : View) : Type 0 where
  pub base : Base v.time_quantum v.heap v.queue
  pub cpu : Running v.time_quantum v.heap v.queue r

freed-Base : (r : Ptr) (v : View) → Busy r v → Base v.time_quantum (freed r v).heap v.queue
freed-Base r v b =
    Base-same v.time_quantum v.heap (freed r v).heap v.queue
      (SameAt-write v.heap r
        (record (v.heap r) { time_quantum = v.time_quantum; state = ThreadState.ready }) v.queue
        b.cpu.out)
      b.base

freed-CanJoin : (r : Ptr) (v : View) → Busy r v → CanJoin v.time_quantum ((freed r v).heap r)
freed-CanJoin r v b = record {
  thread = record {
    priority = ground (arith, b.cpu.thread);
    some_time = ground (arith, b.cpu.thread);
    within = ground arith;
  };
  state = inl (ground arith, ground (arith, b.cpu.event));
}

tick_rest-Valid :
    (over : Bool) (r : Ptr) (v : View) (q : ℕ)
    → Busy r v
    → v.running_thread ≡ some r
    → q ≡ decrement (v.heap r).time_quantum
    → over ≡ (q == 0)
    → Valid (tick_rest over r q v)
unfolding tick_rest
tick_rest-Valid true r v q b busy eq e =
    let w = yield_cpu-Valid r (freed r v) (freed-Base r v b) refl b.cpu.out (freed-CanJoin r v b) in
    record { base = w.base; cpu = w.cpu }
tick_rest-Valid false r v q b busy eq e = record {
  base = Base-same v.time_quantum v.heap h' v.queue same b.base;
  cpu = rw busy (record {
    state = ground (arith, b.cpu.state);
    event = ground (arith, b.cpu.event);
    thread = record {
      priority = ground (arith, b.cpu.thread);
      some_time = ground (arith, b.cpu.thread);
      within = ground (arith, b.cpu.thread);
    };
    out = b.cpu.out;
    first =
        let keep : (h' r).priority ≡ (v.heap r).priority = ground arith in
        rw keep (YieldsTo-same v.heap h' (v.heap r).priority v.queue same b.cpu.first);
  });
}
  where
    h' : Heap
    h' = write_thread v.heap r (record (v.heap r) { time_quantum = q })

    same : SameAt v.heap h' v.queue
    same = SameAt-write v.heap r (record (v.heap r) { time_quantum = q }) v.queue b.cpu.out

-- A unit of time of the running thread keeps the invariant, whether or not its quantum is used up.
pub tick-Valid : (r : Ptr) (v : View) → Busy r v → v.running_thread ≡ some r → Valid (tick r v)
unfolding tick
tick-Valid r v b busy =
    let q = decrement (v.heap r).time_quantum in tick_rest-Valid (q == 0) r v q b busy refl refl

-- A write to a thread that neither is queued nor runs.
pub OnCpu-write :
    (q : ℕ) (h : Heap) (xs : List Ptr) (o : Option Ptr) (t : Ptr) (th : Thread)
    → NotIn t xs
    → ((r : Ptr) → o ≡ some r → r ≢ t)
    → OnCpu q h xs o
    → OnCpu q (write_thread h t th) xs o
OnCpu-write q h xs none t th out ne c =
    All-map₂ xs (λ y e w. ap (λ u. Thread.state u) e ∙ w) (SameAt-write h t th xs out) c
OnCpu-write q h xs (some r) t th out ne c = record {
  state = ap (λ u. Thread.state u) same ∙ c.state;
  event = ap (λ u. Thread.event u) same ∙ c.event;
  thread = subst (IsThread q) (sym same) c.thread;
  out = c.out;
  first =
      subst (λ (p : ℕ). All (YieldsTo (write_thread h t th) p) xs)
        (ap (λ u. Thread.priority u) (sym same))
        (YieldsTo-same h (write_thread h t th) (h r).priority xs (SameAt-write h t th xs out)
          c.first);
}
  where
    same : write_thread h t th r ≡ h r
    same = let apart : r ≢ t = ne r refl in ground arith
