-- ===== src/Scheduler/Spec.antt =====
-- What the scheduling core promises: the same decisions over a plain list of threads, without the
-- mutual recursion and the fuel.
use so.Common.{ℕ, ◌≡◌, Bool, true, false, Option, none, some, List, ◌∷◌, ◌==◌, if◌then◌else◌, ltb}
use so.Scheduler.Types.{Ptr, Heap, ThreadState, write_thread, not_waiting_thread, Pq}
use so.Scheduler.Queue.Spec.{insert, first_ready, erase_ready, Holds}
use so.Scheduler.Ops.{Event, Sys, set_state, decrement, sem_post, sem_wait}

pub record View : Type 0 where
  pub heap : Heap
  pub log : List Event
  pub queue : List Ptr
  pub running_thread : Option Ptr
  pub time_quantum : ℕ

abbrev pub view : Sys → List Ptr → View
view s xs = record {
  heap = s.heap;
  log = s.log;
  queue = xs;
  running_thread = s.running_thread;
  time_quantum = s.time_quantum;
}

-- The state that shows `v` through the array `pq`; the rest is that of `s`.
abbrev pub shown : Sys → View → Pq → Sys
shown s v pq = record s {
  heap = v.heap;
  log = v.log;
  pq = pq;
  running_thread = v.running_thread;
  time_quantum = v.time_quantum;
}

-- `r` is a run that does not fault and ends in a state that shows `v`, the rest unchanged.
abbrev pub Ends : Sys → View → Option Sys → Type 0
Ends s v r = (pq : Pq) × (r ≡ some (shown s v pq)) × Holds pq v.queue

abbrev pub logged : Event → View → View
logged e v = record v { log = e ∷ v.log }

-- The thread `t` gets the processor.
unfoldable pub run : Ptr → View → View
run t v = record v {
  running_thread = some t;
  queue = erase_ready v.heap v.queue;
  heap = set_state v.heap t ThreadState.running;
  log = sem_post t ∷ v.log;
}

unfoldable pub give : Option Ptr → View → View
unfolding run
give none v = v
give (some t) v = run t v

-- The processor is free: the first ready thread gets it, if there is one.
unfoldable pub dispatch : View → View
unfolding give
dispatch v = give (first_ready v.heap v.queue) v

unfoldable pub join_queue : Ptr → View → View
join_queue t v = record v {
  queue = insert v.heap t v.queue;
  heap =
      if not_waiting_thread (v.heap t).state then set_state v.heap t ThreadState.ready else v.heap;
}

-- The thread `t` queues up and the processor, which is free, is given away.
unfoldable pub yield_cpu : Ptr → View → View
unfolding dispatch join_queue
yield_cpu t v = dispatch (join_queue t v)

-- The running thread `r` gives up the processor, with a full quantum for its next turn.
abbrev pub freed : Ptr → View → View
freed r v = record v {
  heap =
      write_thread v.heap r
        (record (v.heap r) { time_quantum = v.time_quantum; state = ThreadState.ready });
  running_thread = none;
}

unfoldable pub tick_rest : Bool → Ptr → ℕ → View → View
unfolding yield_cpu
tick_rest true r q v = logged (sem_wait r) (yield_cpu r (freed r v))
tick_rest false r q v = record v {
  heap = write_thread v.heap r (record (v.heap r) { time_quantum = q });
}

-- The running thread `r` has used one unit of its time, and gives way if it was the last.
unfoldable pub tick : Ptr → View → View
unfolding tick_rest
tick r v = let q = decrement (v.heap r).time_quantum in tick_rest (q == 0) r q v

-- While `r` runs, `f` is the first ready thread: `f` takes over from a thread of lower priority (the
-- test), and in either case the thread that runs then is charged one unit.
unfoldable pub contest : Bool → Ptr → Ptr → View → View
unfolding tick run join_queue
contest true f r v = logged (sem_wait r) (tick f (join_queue r (run f v)))
contest false f r v = tick r v

-- What a thread that has joined the queue brings about: `o` is the thread that runs, if any, and `f`
-- the first ready one.
unfoldable pub arrive_rest : Option Ptr → Option Ptr → View → View
unfolding give contest
arrive_rest none f v = give f v
arrive_rest (some r) none v = v
arrive_rest (some r) (some f) v = contest (ltb (v.heap r).priority (v.heap f).priority) f r v

-- A new thread arrives.
unfoldable pub arrive : Ptr → View → View
unfolding join_queue arrive_rest
arrive t v =
    let v' = join_queue t v in arrive_rest v.running_thread (first_ready v'.heap v'.queue) v'
