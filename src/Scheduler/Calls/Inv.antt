-- ===== src/Scheduler/Calls/Inv.antt =====
-- The invariant of the whole scheduler, and how a run of the core keeps it.
use so.Common.{
  ℕ, ◌≡◌, ◌≤◌, ◌<◌, refl, sym, Bool, true, false, Option, none, some, List, Returns, length, ◌==◌,
}
use mathlib.Core.Path.{subst}
use so.Scheduler.Types.{Ptr, Block, Pq, so_max_num_events}
use so.Scheduler.Queue.Spec.{At, Holds, first_ready}
use so.Scheduler.Ops.{Sys, Event, decrement}
use so.Scheduler.Spec.{
  View, view, shown, Ends, run, give, dispatch, join_queue, yield_cpu, freed, tick_rest, tick,
  contest, arrive_rest, arrive, logged,
}
use so.Scheduler.Valid.{Valid, OnCpu, Running}

-- What no call but `so_fork` changes; `ts` is every thread that was ever forked.
pub record Kept (quantum io n : ℕ) (threads : Block) (ts : List Ptr) : Type 0 where
  pub positive : 0 < quantum
  pub devices : io ≤ so_max_num_events
  pub cells : At threads.cell 0 ts
  pub count : n ≡ length ts
  pub memory : threads.allocated ≡ length ts

-- `xs` is what is queued.
pub record Inv (s : Sys) (xs ts : List Ptr) : Type 0 where
  pub pq : Holds s.pq xs
  pub valid : Valid (view s xs)
  pub kept : Kept s.time_quantum s.io s.n s.threads ts

-- A scheduler that satisfies the invariant.
abbrev pub IsSound : List Ptr → Sys → Type 0
IsSound ts s = (xs : List Ptr) × Inv s xs ts

pub Inv-Running :
    {s : Sys} {xs ts : List Ptr} {r : Ptr}
    → Inv s xs ts
    → s.running_thread ≡ some r
    → Running s.time_quantum s.heap xs r
Inv-Running {s} {xs} inv busy = subst (OnCpu s.time_quantum s.heap xs) busy inv.valid.cpu

-- What `v` leaves alone.
abbrev pub Keeps : View → View → Type 0
Keeps v w = w.time_quantum ≡ v.time_quantum

give-Keeps : (o : Option Ptr) (v : View) → Keeps v (give o v)
unfolding give run
give-Keeps none v = refl
give-Keeps (some t) v = refl

pub dispatch-Keeps : (v : View) → Keeps v (dispatch v)
unfolding dispatch
dispatch-Keeps v = give-Keeps (first_ready v.heap v.queue) v

pub yield_cpu-Keeps : (t : Ptr) (v : View) → Keeps v (yield_cpu t v)
unfolding yield_cpu join_queue
yield_cpu-Keeps t v = dispatch-Keeps (join_queue t v)

tick_rest-Keeps : (over : Bool) (r : Ptr) (q : ℕ) (v : View) → Keeps v (tick_rest over r q v)
unfolding tick_rest
tick_rest-Keeps true r q v = yield_cpu-Keeps r (freed r v)
tick_rest-Keeps false r q v = refl

pub tick-Keeps : (r : Ptr) (v : View) → Keeps v (tick r v)
unfolding tick
tick-Keeps r v = let q = decrement (v.heap r).time_quantum in tick_rest-Keeps (q == 0) r q v

contest-Keeps : (lower : Bool) (f r : Ptr) (v : View) → Keeps v (contest lower f r v)
unfolding contest run join_queue
contest-Keeps true f r v = tick-Keeps f (join_queue r (run f v))
contest-Keeps false f r v = tick-Keeps r v

arrive_rest-Keeps : (o f : Option Ptr) (v : View) → Keeps v (arrive_rest o f v)
unfolding arrive_rest
arrive_rest-Keeps none f v = give-Keeps f v
arrive_rest-Keeps (some r) none v = refl
arrive_rest-Keeps (some r) (some f) v = contest-Keeps _ f r v

pub arrive-Keeps : (t : Ptr) (v : View) → Keeps v (arrive t v)
unfolding arrive join_queue
arrive-Keeps t v = arrive_rest-Keeps v.running_thread _ (join_queue t v)

-- The state that shows a valid view is sound.
pub Inv-shown :
    (s : Sys) (v : View) (pq : Pq) {ts : List Ptr}
    → Kept s.time_quantum s.io s.n s.threads ts
    → Holds pq v.queue
    → Valid v
    → v.time_quantum ≡ s.time_quantum
    → Inv (shown s v pq) v.queue ts
Inv-shown s v pq {ts} kept hold valid keep = record {
  pq = hold;
  valid = valid;
  kept = subst (λ q. Kept q s.io s.n s.threads ts) (sym keep) kept;
}

pub Valid-logged : (e : Event) (v : View) → Valid v → Valid (logged e v)
Valid-logged e v w = record { base = w.base; cpu = w.cpu }

-- A run of the core that ends in a valid view ends in a sound scheduler.
pub Inv-Ends :
    (s : Sys) (v : View) {ts : List Ptr} {r : Option Sys}
    → Kept s.time_quantum s.io s.n s.threads ts
    → Ends s v r
    → Valid v
    → v.time_quantum ≡ s.time_quantum
    → Returns (IsSound ts) r
Inv-Ends s v kept (pq, out, hold) valid keep =
    (shown s v pq, out, (v.queue, Inv-shown s v pq kept hold valid keep))
