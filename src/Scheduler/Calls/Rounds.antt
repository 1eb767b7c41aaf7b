-- ===== src/Scheduler/Calls/Rounds.antt =====
-- Round robin over several calls of `so_exec`: a ready thread of the running one's priority gets its turn.
use so.Common.{
  ℕ, zero, suc, ◌-◌, ◌^◌, ◌≡◌, ◌≢◌, ◌≤◌, ◌<◌, refl, sym, ap, ◌∙◌, false, true, Option, some, List,
  ◌∷◌, ◌++◌, All, Returns, arith, ◌==◌, ne→==, length, ◌>>=◌, inl, inr, ℕ_discrete,
}
use mathlib.Core.Path.{subst}
use so.Scheduler.Types.{Ptr, write_thread, not_waiting_thread}
use so.Scheduler.Queue.Spec.{first_ready, insert, erase_ready, Holds}
use so.Scheduler.Queue.Ready.{first_ready-not_waiting}
use so.Scheduler.Queue.Positions.{
  All-middle, IsSorted-before, insert-behind, first_ready-before, erase_ready-before,
}
use so.Scheduler.Ops.{Sys, decrement, sem_wait}
use so.Scheduler.Spec.{View, view, shown, logged, run, join_queue, freed, tick, tick_rest}
use so.Scheduler.Valid.{Valid, All-map, first_ready-All, tick-Valid, YieldsTo}
use so.Scheduler.Api.{so_exec}
use so.Scheduler.Calls.Inv.{Inv, IsSound, Inv-shown, Inv-Running, tick-Keeps}
use so.Scheduler.Calls.Exec.{
  so_exec-tick, so_exec-rotates, so_exec-counts, Inv-Busy, rotate, rotate-next,
}

-- A running thread calls `so_exec`, then the thread that runs then, and so on, `n` times.
unfoldable pub exec_times : ℕ → Sys → Option Sys
exec_times zero s = some s
exec_times (suc n) s = do s' ← so_exec s; exec_times n s'

-- The state behind `so_exec` while the running thread `r` has time left.
abbrev counted : Ptr → Sys → Sys
counted r s = record s {
  heap = write_thread s.heap r (record (s.heap r) { time_quantum = (s.heap r).time_quantum - 1 });
}

tick-counts :
    (r : Ptr) (v : View)
    → 1 < (v.heap r).time_quantum
    → (v.heap r).time_quantum < 2 ^ 32
    → tick r v ≡ record v {
      heap =
          write_thread v.heap r (record (v.heap r) { time_quantum = (v.heap r).time_quantum - 1 });
    }
unfolding tick tick_rest
tick-counts r v more word =
    let less : decrement (v.heap r).time_quantum ≡ (v.heap r).time_quantum - 1 = omega arith in
    let runs : ((v.heap r).time_quantum - 1 == 0) ≡ false = ne→== _ 0 (omega arith) in
    rw less (rw runs refl)

counted-Inv :
    (s : Sys) {xs ts : List Ptr} (r : Ptr)
    → Inv s xs ts
    → s.running_thread ≡ some r
    → 1 < (s.heap r).time_quantum
    → s.time_quantum < 2 ^ 32
    → Inv (counted r s) xs ts
counted-Inv s {xs} r inv busy more word =
    let v : View = view s xs in
    let within = (Inv-Running inv busy).thread.within in
    Inv-shown s (view (counted r s) xs) s.pq inv.kept inv.pq
      (subst Valid (tick-counts r v more (omega (arith, within, word)))
        (tick-Valid r v (Inv-Busy s r inv busy) busy))
      refl

-- What the change of turns leaves as it is.
rotated-same :
    (r f p : Ptr) (v : View)
    → p ≢ r
    → p ≢ f
    → f ≢ r
    → let w = run f (join_queue r (freed r v)) in
      (w.heap p ≡ v.heap p) × ((w.heap f).priority ≡ (v.heap f).priority)
unfolding run join_queue
rotated-same r f p v ne ne' apart = (ground arith, ground arith)

rotated-queue :
    (r f p : Ptr) (v : View) (before behind : List Ptr)
    → v.queue ≡ before ++ p ∷ behind
    → p ≢ r
    → f ≢ p
    → not_waiting_thread (v.heap p).state ≡ true
    → All (λ y. (v.heap p).priority ≤ (v.heap y).priority) before
    → (v.heap r).priority ≡ (v.heap p).priority
    → first_ready (join_queue r (freed r v)).heap (insert (freed r v).heap r v.queue) ≡ some f
    → (left : List Ptr) × ((run f (join_queue r (freed r v))).queue
        ≡ left ++ p ∷ insert (freed r v).heap r behind)
      × (length before ≡ suc (length left))
unfolding run join_queue
rotated-queue r f p v before behind queue apart ne free ahead level next =
    let h1 = (freed r v).heap in
    let cs = insert h1 r behind in
    let into : insert h1 r v.queue ≡ before ++ p ∷ cs =
      ap (insert h1 r) queue
      ∙ insert-behind h1 r p before behind
          (All-map before (λ y le. ground (arith, le, level)) ahead) (ground (arith, level)) in
    let (left, out, shorter) =
      erase_ready-before (unfold join_queue in (join_queue r (freed r v)).heap) f p before cs
        (ground (arith, free, apart)) (ap (first_ready _) (sym into) ∙ next) ne in
    (left, ap (erase_ready _) into ∙ out, shorter)

-- `r` runs with the priority of `p`, which is ready behind the threads in `before`.
pub record Queueing (s : Sys) (r p : Ptr) (before behind ts : List Ptr) : Type 0 where
  pub inv : Inv s (before ++ p ∷ behind) ts
  pub busy : s.running_thread ≡ some r
  pub free : not_waiting_thread (s.heap p).state ≡ true
  pub level : (s.heap r).priority ≡ (s.heap p).priority
  pub word : s.time_quantum < 2 ^ 32

-- What the end of a turn brings: `p` runs, or one thread less of `k` stands in front of it.
pub data Outcome (p : Ptr) (ts : List Ptr) (k quantum : ℕ) (s : Sys) : Type 0 where
  reached : s.running_thread ≡ some p → IsSound ts s → Outcome p ts k quantum s
  nearer :
      (f : Ptr) (before behind : List Ptr)
      → Queueing s f p before behind ts
      → k ≡ suc (length before)
      → s.time_quantum ≡ quantum
      → Outcome p ts k quantum s

module _ {s : Sys} {r p : Ptr} {before behind ts : List Ptr}
    (q : Queueing s r p before behind ts) where
  Queueing-ahead : All (λ y. (s.heap p).priority ≤ (s.heap y).priority) before
  Queueing-ahead = IsSorted-before s.heap p before behind q.inv.valid.base.sorted

  Queueing-apart : p ≢ r
  Queueing-apart = All-middle (λ y. y ≢ r) p before behind (Inv-Running q.inv q.busy).out

  -- The first ready thread has the priority of `r`.
  Queueing-first :
      (f : Ptr) × (first_ready s.heap (before ++ p ∷ behind) ≡ some f)
      × ((s.heap f).priority ≡ (s.heap p).priority)
  Queueing-first =
      let (f, first, ge) = first_ready-before s.heap p before behind q.free Queueing-ahead in
      let awake = first_ready-not_waiting s.heap f (before ++ p ∷ behind) first in
      let below =
        first_ready-All (YieldsTo s.heap (s.heap r).priority) s.heap f (before ++ p ∷ behind)
          (Inv-Running q.inv q.busy).first first in
      (
        f,
        first,
        elim below [
          | inl waits ↦ absurd (ground (arith, waits, awake))
          | inr le ↦ omega (arith, le, ge, q.level)
        ],
      )

  -- At the end of its quantum `r` gives way to `f`.
  turn-nearer :
      (f : Ptr)
      → first_ready s.heap (before ++ p ∷ behind) ≡ some f
      → (s.heap f).priority ≡ (s.heap p).priority
      → f ≢ p
      → (s.heap r).time_quantum ≡ 1
      → Returns (Outcome p ts (length before) s.time_quantum) (so_exec s)
  turn-nearer f first same ne one =
      let xs : List Ptr = before ++ p ∷ behind in
      let v : View = view s xs in
      let cpu = Inv-Running q.inv q.busy in
      let w : View = logged (sem_wait r) (run f (join_queue r (freed r v))) in
      let le : (s.heap r).priority ≤ (s.heap f).priority = omega (arith, same, q.level) in
      let sorted = q.inv.valid.base.sorted in
      let e : tick r v ≡ w = rotate r f v sorted cpu.out first le one in
      let apart = first_ready-All (λ y. y ≢ r) s.heap f xs cpu.out first in
      let (pq, out, hold) = so_exec-tick s r q.inv q.busy in
      let (left, queue, shorter) =
        rotated-queue r f p v before behind refl Queueing-apart ne q.free Queueing-ahead q.level
          (rotate-next r f v sorted cpu.out first le) in
      let kept = rotated-same r f p v Queueing-apart (λ e'. ne (sym e')) apart in
      let inv : Inv (shown s w pq) w.queue ts =
        Inv-shown s w pq q.inv.kept (subst (λ u. Holds pq u.queue) e hold)
          (subst Valid e (tick-Valid r v (Inv-Busy s r q.inv q.busy) q.busy))
          (sym (ap (λ (u : View). u.time_quantum) e) ∙ tick-Keeps r v) in
      let keeps : w.time_quantum ≡ s.time_quantum =
        sym (ap (λ (u : View). u.time_quantum) e) ∙ tick-Keeps r v in
      (
        shown s w pq,
        subst (λ u. so_exec s ≡ some (shown s u pq)) e out,
        nearer f left (insert (freed r v).heap r behind)
            (record {
              inv = subst (λ ys. Inv (shown s w pq) ys ts) queue inv;
              busy = unfold run in refl;
              free = ap (λ th. not_waiting_thread th.state) kept.0 ∙ q.free;
              level = kept.1 ∙ same ∙ sym (ap (λ th. th.priority) kept.0);
              word = subst (λ n. n < 2 ^ 32) (sym keeps) q.word;
            })
            shorter keeps,
      )

  turn-Outcome :
      (s.heap r).time_quantum ≡ 1
      → Returns (Outcome p ts (length before) s.time_quantum) (so_exec s)
  turn-Outcome one =
      let (f, first, same) = Queueing-first in
      elim (ℕ_discrete f p) [
        | no ne ↦ turn-nearer f first same ne one
        | yes me ↦
            let (s', out, here) =
              so_exec-rotates s r f q.inv q.busy one first (omega (arith, same, q.level)) in
            (s', out, reached (here.0 ∙ ap some me) here.3)
      ]

  -- A call that takes one unit of several.
  Queueing-counted :
      1 < (s.heap r).time_quantum
      → (so_exec s ≡ some (counted r s)) × Queueing (counted r s) r p before behind ts
  Queueing-counted more = (
    so_exec-counts s r q.inv q.busy more q.word,
    record {
      inv = counted-Inv s r q.inv q.busy more q.word;
      busy = q.busy;
      free = ground (arith, q.free, Queueing-apart);
      level = ground (arith, q.level, Queueing-apart);
      word = q.word;
    },
  )

-- After as many calls as `r` has units of time left, its turn ends.
pub turn-ends :
    (n : ℕ) {s : Sys} {r p : Ptr} {before behind ts : List Ptr}
    → Queueing s r p before behind ts
    → (s.heap r).time_quantum ≡ suc n
    → Returns (Outcome p ts (length before) s.time_quantum) (exec_times (suc n) s)
unfolding exec_times
turn-ends zero {s} q left = let (s', out, o) = turn-Outcome q left in (s', rw (out, ◌>>=◌), o)
turn-ends (suc n) {s} {r} q left =
    let (out, next) = Queueing-counted q (omega (arith, left)) in
    let (s', rest, o) = turn-ends n next (ground (arith, left)) in (s', rw (out, ◌>>=◌) rest, o)
