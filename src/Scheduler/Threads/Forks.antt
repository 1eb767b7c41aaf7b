-- ===== src/Scheduler/Threads/Forks.antt =====
-- What `so_fork` does to the semaphores and to the turn, in a sound scheduler.
use so.Common.{ℕ, ◌≡◌, ◌≤◌, some, List, [], ◌∷◌, ◌++◌, Returns, arith, le→ltb}
use so.Scheduler.Types.{Ptr, Block, so_max_prio}
use so.Scheduler.Ops.{Sys, sem_init, pthread_create}
use so.Scheduler.Spec.{View, view, shown, arrive}
use so.Scheduler.Valid.{OnCpu, Running}
use so.Scheduler.Api.{so_fork, fork_thread, create_thread}
use so.Scheduler.Calls.Inv.{Inv, Inv-shown, arrive-Keeps}
use so.Scheduler.Valid.{arrive-Valid}
use so.Scheduler.Calls.Fork.{Fresh, born, born-Valid, born-CanJoin, born-arrives, add_thread_lem}
use so.Scheduler.Threads.Turn.{Turn}
use so.Scheduler.Threads.Arrival.{arrive-Turn}
use mathlib.Core.Path.{subst}
use so.Scheduler.Threads.Effects.{Behind, Turned}

-- The thread `p` arrives with at most the priority of `r`.
born-Turn :
    (s : Sys) {xs ts : List Ptr} (r p tid func priority : ℕ) (b : Block)
    → Inv s xs ts
    → Fresh p s xs
    → s.running_thread ≡ some r
    → priority ≤ (s.heap r).priority
    → Turn r
        (p ∷ xs)
        (pthread_create p ∷ sem_init p ∷ s.log)
        (arrive p (view (born p tid func priority b s) xs))
unfolding create_thread
born-Turn s {xs} r p tid func priority b inv fresh busy low =
    let v : View = view (born p tid func priority b s) xs in
    let valid = born-Valid s p tid func priority inv fresh b in
    let here : Running v.time_quantum v.heap xs r =
      subst (OnCpu v.time_quantum v.heap xs) busy valid.cpu in
    arrive-Turn p r v busy here.first (ground arith)
      (let apart = fresh.cpu r busy in ground (arith, low, apart))

-- `so_fork` is the arrival of the thread `p`.
pub so_fork-Behind :
    (T : View → Type 1) (s : Sys) {xs ts : List Ptr} (p tid func priority : ℕ)
    → Inv s xs ts
    → Fresh p s xs
    → priority ≤ so_max_prio
    → ((b : Block) → T (arrive p (view (born p tid func priority b s) xs)))
    → Returns
        (λ (out : ℕ × Sys). Behind T (ts ++ p ∷ []) s.time_quantum out.1)
        (so_fork p (some tid) (some func) priority s)
unfolding so_fork fork_thread
so_fork-Behind T s {xs} {ts} p tid func priority inv fresh prio turn =
    let s0 : Sys = record (born p tid func priority s.threads s) { n = s.n } in
    let (b, added, kept) = add_thread_lem s0 p inv.kept in
    let v : View = view (born p tid func priority b s) xs in
    let (pq, out, hold) = born-arrives s p tid func priority inv fresh b prio in
    (
      (tid, shown (born p tid func priority b s) (arrive p v) pq),
      rw (le→ltb so_max_prio priority prio, so_fork) (rw (added, fork_thread) (rw out)),
      record {
        queue = (arrive p v).queue;
        inv =
            Inv-shown (born p tid func priority b s) (arrive p v) pq kept hold
              (arrive-Valid p v (born-Valid s p tid func priority inv fresh b) fresh.queue fresh.cpu
                (born-CanJoin s p tid func priority inv fresh b prio))
              (arrive-Keeps p v);
        turn = turn b;
        same = arrive-Keeps p v;
      },
    )

pub so_fork-Turned :
    (s : Sys) {xs ts : List Ptr} (r p tid func priority : ℕ)
    → Inv s xs ts
    → Fresh p s xs
    → priority ≤ so_max_prio
    → s.running_thread ≡ some r
    → priority ≤ (s.heap r).priority
    → Returns
        (λ (out : ℕ × Sys).
          Turned r
            (p ∷ xs)
            (pthread_create p ∷ sem_init p ∷ s.log)
            (ts ++ p ∷ [])
            s.time_quantum
            out.1)
        (so_fork p (some tid) (some func) priority s)
so_fork-Turned s {xs} r p tid func priority inv fresh prio busy low =
    so_fork-Behind (Turn r (p ∷ xs) (pthread_create p ∷ sem_init p ∷ s.log)) s p tid func priority
      inv fresh prio (λ b. born-Turn s r p tid func priority b inv fresh busy low)
