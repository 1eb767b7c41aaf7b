-- ===== src/Scheduler/Threads/Moves.antt =====
-- Every step of a thread keeps the invariant of the scheduler and its threads.
use so.Common.{
  ℕ, suc, ◌≡◌, ◌≢◌, refl, sym, ap, ◌∙◌, some, List, [], ◌∷◌, ◌++◌, inl, inr, arith, ℕ_discrete,
}
use mathlib.Core.Path.{subst}
use mathlib.Core.Option.{some_inj}
use mathlib.Core.List.{Memᴰ}
use so.Scheduler.Types.{Ptr}
use so.Scheduler.Ops.{Event, Sys, sem_init, pthread_create}
use so.Scheduler.Valid.{NotIn, All-map, All-map₂}
use so.Scheduler.Api.{Reply, so_fork, so_wait, so_signal, so_exec, thread_task_end}
use so.Scheduler.Calls.Inv.{Inv, Inv-Running}
use so.Scheduler.Calls.Fork.{Fresh}
use so.Scheduler.Reach.{of_run}
use so.Scheduler.Threads.{
  Activity, absent, waits_on, executing, Config, set_at, created, Call, exec, wait, signal, Move,
  call, fork, pass, finish,
}
use so.Scheduler.Threads.Effects.{Behind, Turned, so_exec-Turned, so_wait-Turned, so_signal-Turned}
use so.Scheduler.Threads.Forks.{so_fork-Turned}
use so.Scheduler.Threads.Relay.{thread_task_end-Relay, Relay}
use so.Scheduler.Threads.Members.{set_at-same, set_at-other, All-at}
use so.Scheduler.Threads.Steady.{
  Asleep, OnTurn, Steady, Steady-caller, Ready, Turn-Steady, Relay-Steady,
}

Call-Turned :
    {s s' : Sys} {xs ts : List Ptr} (c : Ptr)
    → Inv s xs ts
    → s.running_thread ≡ some c
    → Call s s'
    → Turned c xs s.log ts s.time_quantum s'
Call-Turned {s} {s'} {xs} {ts} c inv busy (exec e) =
    of_run (Turned c xs s.log ts s.time_quantum) (so_exec s) s' (so_exec-Turned s c inv busy) e
Call-Turned {s} {s'} {xs} {ts} c inv busy (wait io reply e) =
    of_run (λ (out : Reply × Sys). Turned c xs s.log ts s.time_quantum out.1) (so_wait io s)
      (reply, s') (so_wait-Turned s io c inv busy) e
Call-Turned {s} {s'} {xs} {ts} c inv busy (signal io reply e) =
    of_run (λ (out : Reply × Sys). Turned c xs s.log ts s.time_quantum out.1) (so_signal io s)
      (reply, s') (so_signal-Turned s io c inv busy) e

module _ {quantum : ℕ} {k : Config} (c : Ptr) (st : Steady quantum k)
    (e : k.act c ≡ executing) where
  Steady-out : NotIn c st.queue
  Steady-out = (Inv-Running st.inv (Steady-caller c st e).0).out

  Steady-others : (p : Ptr) (ws : List Ptr) → p ≢ c → k.act p ≡ waits_on ws → Memᴰ p st.queue
  Steady-others p ws ne at = elim (st.active p ws at) [
    | inl busy ↦ absurd (ne (some_inj.0 (sym busy ∙ (Steady-caller c st e).0)))
    | inr m ↦ m
  ]

  Steady-Ready : Ready c st.queue k.sem k.act
  Steady-Ready = record {
    caller = (Steady-caller c st e).1;
    out = Steady-out;
    asleep = st.asleep;
    others = Steady-others;
  }

  -- The same behind the creation of the thread `p`.
  created-Ready :
      (p : Ptr) → k.act p ≡ absent → Ready c (p ∷ st.queue) (set_at p 0 k.sem) (created p k.act)
  created-Ready p new =
      let apart : c ≢ p = λ me. cc (e, new, me) in
      record {
        caller = set_at-other p c 0 k.sem apart ∙ (Steady-caller c st e).1;
        out = ((λ me. apart (sym me)), Steady-out);
        asleep = (
          (set_at-same p (waits_on (p ∷ [])) k.act, set_at-same p 0 k.sem),
          All-map st.queue (λ y a. kept y a) st.asleep,
        );
        others = λ q ws ne at. elim (ℕ_discrete q p) [
          | yes me ↦ Memᴰ.head me
          | no other ↦
              Memᴰ.tail (
                Steady-others q ws ne (sym (set_at-other p q (waits_on (p ∷ [])) k.act other) ∙ at))
        ];
      }
    where
      kept : (q : Ptr) → Asleep k.sem k.act q → Asleep (set_at p 0 k.sem) (created p k.act) q
      kept q a =
          let other : q ≢ p = λ me. cc (a.0, new, me) in
          (
            set_at-other p q (waits_on (p ∷ [])) k.act other ∙ a.0,
            set_at-other p q 0 k.sem other ∙ a.1,
          )

-- `malloc` returns an address that no thread has had.
Steady-Fresh :
    {quantum : ℕ} {k : Config} (p : Ptr) (st : Steady quantum k)
    → k.act p ≡ absent
    → Fresh p k.sys st.queue
Steady-Fresh {k = k} p st new = record {
  queue = All-map st.queue (λ y a me. cc (a.0, new, me)) st.asleep;
  cpu = λ r busy me. elim (st.turn r busy) [
    | inl on ↦ cc (on.0, new, me)
    | inr on ↦ cc (on.0, new, me)
  ];
}

-- A thread that waits passes its own semaphore, which has the value 1, and is the one that runs.
pub Steady-pass :
    {quantum : ℕ} {k : Config} (c w : Ptr) (ws : List Ptr) (n : ℕ)
    → Steady quantum k
    → k.act c ≡ waits_on (w ∷ ws)
    → k.sem w ≡ suc n
    → (k.sys.running_thread ≡ some c) × (w ≡ c) × (ws ≡ []) × (n ≡ 0)
Steady-pass {k = k} c w ws n st at value = elim (st.active c (w ∷ ws) at) [
  | inr m ↦
      let a : Asleep k.sem k.act c = All-at (Asleep k.sem k.act) c st.queue st.asleep m in
      absurd (cc (a.0, a.1, at, value))
  | inl busy ↦ elim (st.turn c busy) [
    | inl on ↦ absurd (cc (on.0, at))
    | inr on ↦
        let same : w ≡ c = cc (on.0, at) in
        (busy, same, cc (on.0, at), omega (arith, ap k.sem same, on.1, value))
  ]
]

passed :
    {quantum : ℕ} {k : Config} (c : Ptr) (st : Steady quantum k)
    → k.sys.running_thread ≡ some c
    → Steady quantum (record k { sem = set_at c 0 k.sem; act = set_at c executing k.act })
passed {k = k} c st busy =
    let out : NotIn c st.queue = (Inv-Running st.inv busy).out in
    let sem' : Ptr → ℕ = set_at c 0 k.sem in
    let act' : Ptr → Activity = set_at c executing k.act in
    let kept : (q : Ptr) → q ≢ c → Asleep k.sem k.act q → Asleep sem' act' q =
      λ q ne a. (set_at-other c q executing k.act ne ∙ a.0, set_at-other c q 0 k.sem ne ∙ a.1) in
    record {
      queue = st.queue;
      threads = st.threads;
      inv = record { pq = st.inv.pq; valid = st.inv.valid; kept = st.inv.kept };
      quantum_is = st.quantum_is;
      asleep = All-map₂ st.queue (λ y ne a. kept y ne a) out st.asleep;
      turn = λ r e.
          let me : c ≡ r = some_inj.0 (sym busy ∙ e) in
          subst (OnTurn sem' act') me (inl (set_at-same c executing k.act, set_at-same c 0 k.sem));
      active = λ p ws e. elim (ℕ_discrete p c) [
        | yes me ↦ inl (busy ∙ ap some (sym me))
        | no ne ↦ elim (st.active p ws (sym (set_at-other c p executing k.act ne) ∙ e)) [
          | inl runs ↦ inl runs
          | inr m ↦ inr m
        ]
      ];
    }

-- Every step keeps the invariant.
pub Move-Steady : {quantum : ℕ} {k k' : Config} → Steady quantum k → Move k k' → Steady quantum k'
Move-Steady {quantum} {k} st (call c s' events e step wrote) =
    let (busy, zero_sem) = Steady-caller c st e in
    Turn-Steady quantum c s' k.sem k.act k.sys.log events wrote [] refl (Steady-Ready c st e) (
      subst (λ q. Turned c st.queue k.sys.log st.threads q s') st.quantum_is
        (Call-Turned c st.inv busy step))
Move-Steady {quantum} {k} st (fork c p tid func priority id s' events e new prio low step wrote) =
    let (busy, zero_sem) = Steady-caller c st e in
    let log' : List Event = pthread_create p ∷ sem_init p ∷ k.sys.log in
    Turn-Steady quantum c s' k.sem (created p k.act) k.sys.log events wrote
      (pthread_create p ∷ sem_init p ∷ []) refl (created-Ready c st e p new)
      (subst (λ q. Turned c (p ∷ st.queue) log' (st.threads ++ p ∷ []) q s') st.quantum_is
        (of_run
          (λ (out : ℕ × Sys).
            Turned c (p ∷ st.queue) log' (st.threads ++ p ∷ []) k.sys.time_quantum out.1)
          (so_fork p (some tid) (some func) priority k.sys) (id, s')
          (so_fork-Turned k.sys c p tid func priority st.inv (Steady-Fresh p st new) prio busy low)
          step))
Move-Steady {quantum} {k} st (pass c w ws n at value) =
    let (busy, same, last, none_left) = Steady-pass c w ws n st at value in
    let now : Ptr → List Ptr → ℕ → Config =
      λ w ws n. record k { sem = set_at w n k.sem; act = set_at c (waits_on ws) k.act } in
    subst (λ w. Steady quantum (now w ws n)) (sym same)
      (subst (λ ws. Steady quantum (now c ws n)) (sym last)
        (subst (λ n. Steady quantum (now c [] n)) (sym none_left) (passed c st busy)))
Move-Steady {quantum} {k} st (finish c s' events e step wrote) =
    let (busy, zero_sem) = Steady-caller c st e in
    Relay-Steady quantum c s' k.sem k.act k.sys.log events wrote (Steady-Ready c st e) (
      subst (λ q. Behind (Relay st.queue k.sys.log) st.threads q s') st.quantum_is
        (of_run (Behind (Relay st.queue k.sys.log) st.threads k.sys.time_quantum)
          (thread_task_end c k.sys) s' (thread_task_end-Relay k.sys c st.inv busy) step))
