-- ===== src/Scheduler/Threads/Exclusion.antt =====
-- What holds in every run of the threads: at most one executes, and none is lost.
use so.Common.{
  ℕ, ◌≡◌, sym, ap, ◌∙◌, none, some, List, [], ◌∷◌, ◌++◌, All, inl, inr, arith, ℕ_discrete,
}
use mathlib.Core.Path.{subst}
use mathlib.Core.Option.{some_inj}
use mathlib.Core.List.{append_cancel_right}
use so.Scheduler.Types.{Ptr, Heap}
use so.Scheduler.Ops.{Event, Sys, sem_init, sem_post, pthread_create}
use so.Scheduler.Api.{returned, so_init, so_fork}
use so.Scheduler.Calls.End.{so_init-Inv}
use so.Scheduler.Reach.{of_run}
use so.Scheduler.Threads.{
  Activity, absent, waits_on, executing, signalled_by, Config, created, Runs, start, go_on,
}
use so.Scheduler.Threads.Effects.{Behind}
use so.Scheduler.Threads.Relay.{Alone, so_fork-first}
use so.Scheduler.Threads.Members.{set_at-other}
use so.Scheduler.Threads.Steady.{Asleep, OnTurn, Steady, Steady-caller}
use so.Scheduler.Threads.Moves.{Move-Steady}

-- What `so_init` makes.
record Initial (quantum : ℕ) (s : Sys) : Type 0 where
  time_quantum : s.time_quantum ≡ quantum
  free : s.running_thread ≡ none

so_init-Initial :
    (heap : Heap) (quantum io : ℕ) (s : Sys)
    → so_init heap quantum io none ≡ (returned 0, some s)
    → Initial quantum s
unfolding so_init
so_init-Initial heap quantum io s e = record { time_quantum = ground arith; free = ground arith }

-- The first thread waits on its semaphore, which the main thread has posted.
first-Steady :
    {quantum : ℕ} {ts : List Ptr} (p : Ptr) (s : Sys) (log events : List Event)
    → s.log ≡ events ++ log
    → Behind (Alone p (pthread_create p ∷ sem_init p ∷ log)) ts quantum s
    → Steady quantum
        (record { sys = s; sem = signalled_by events (λ _. 0); act = created p (λ _. absent) })
first-Steady {quantum} {ts} p s log events wrote b =
    let made : List Event = sem_post p ∷ pthread_create p ∷ sem_init p ∷ [] in
    let act : Ptr → Activity = created p (λ _. absent) in
    let did : made ≡ events = append_cancel_right made events log (sym b.turn.posted ∙ wrote) in
    let busy : s.running_thread ≡ some p = b.turn.busy in
    subst (λ es. Steady quantum (record { sys = s; sem = signalled_by es (λ _. 0); act = act })) did
      (record {
        queue = b.queue;
        threads = ts;
        inv = b.inv;
        quantum_is = b.same;
        asleep = subst (All (Asleep (signalled_by made (λ _. 0)) act)) (sym b.turn.alone) tt;
        turn = λ r e.
            let me : p ≡ r = some_inj.0 (sym busy ∙ e) in
            subst (OnTurn (signalled_by made (λ _. 0)) act) me (inr (ground arith, ground arith));
        active = λ q ws e. elim (ℕ_discrete q p) [
          | yes me ↦ inl (busy ∙ ap some (sym me))
          | no ne ↦
              let none_yet = set_at-other p q (waits_on (p ∷ [])) (λ _. absent) ne in
              absurd (cc (e, none_yet))
        ];
      })

pub Runs-Steady : {quantum : ℕ} {k : Config} → Runs quantum k → Steady quantum k
Runs-Steady {quantum} (start heap io p tid func priority id s s' events e prio fork wrote) =
    let init = so_init-Initial heap quantum io s e in
    first-Steady p s' s.log events wrote (
      subst (λ q. Behind (Alone p (pthread_create p ∷ sem_init p ∷ s.log)) ([] ++ p ∷ []) q s')
        init.time_quantum
        (of_run
          (λ (out : ℕ × Sys).
            Behind (Alone p (pthread_create p ∷ sem_init p ∷ s.log)) ([] ++ p ∷ []) s.time_quantum
              out.1)
          (so_fork p (some tid) (some func) priority s) (id, s')
          (so_fork-first s p tid func priority (so_init-Inv heap quantum io e) init.free prio)
          fork))
Runs-Steady (go_on run move) = Move-Steady (Runs-Steady run) move

-- Mutual exclusion: in every run of a program in which no thread forks one above its own priority, a
-- thread that executes is the one in `running_thread`, and no other thread executes.
pub Runs-exclusive :
    {quantum : ℕ} {k : Config} (a : Ptr)
    → Runs quantum k
    → k.act a ≡ executing
    → (k.sys.running_thread ≡ some a) × ((b : Ptr) → k.act b ≡ executing → b ≡ a)
Runs-exclusive a run e =
    let st = Runs-Steady run in
    let busy = (Steady-caller a st e).0 in
    (busy, λ b e'. some_inj.0 (sym (Steady-caller b st e').0 ∙ busy))
