-- ===== src/Scheduler/Threads/Steady.antt =====
-- The invariant of the scheduler and its threads.
use so.Common.{
  ℕ, ◌+◌, ◌≡◌, ◌≢◌, ◌⊎◌, ◌↔◌, sym, ap, ◌∙◌, some, List, [], ◌∷◌, ◌++◌, All, inl, inr, ℕ_discrete,
}
use mathlib.Core.Path.{subst}
use mathlib.Core.Option.{some_inj}
use mathlib.Core.List.{append_cancel_right, Memᴰ}
use so.Scheduler.Types.{Ptr}
use so.Scheduler.Ops.{Event, Sys, sem_post, sem_wait}
use so.Scheduler.Spec.{view}
use so.Scheduler.Valid.{NotIn, All-map₂}
use so.Scheduler.Calls.Inv.{Inv, Inv-Running}
use so.Scheduler.Threads.{
  Activity, waits_on, executing, ended, signalled_by, awaited, Config, set_at,
}
use so.Scheduler.Threads.Members.{All-at, Memᴰ-moves, Memᴰ-other, set_at-same, set_at-other}
use so.Scheduler.Threads.Turn.{Turn, stays, passes}
use so.Scheduler.Threads.Effects.{Behind}
use so.Scheduler.Threads.Relay.{Relay, idles, posts}

-- The thread waits on its semaphore, which nobody has posted.
abbrev pub Asleep : (Ptr → ℕ) → (Ptr → Activity) → Ptr → Type 0
Asleep sem act p = (act p ≡ waits_on (p ∷ [])) × (sem p ≡ 0)

-- The thread executes, or its semaphore has been posted and its wait is the next thing it does.
abbrev pub OnTurn : (Ptr → ℕ) → (Ptr → Activity) → Ptr → Type 0
OnTurn sem act r = ((act r ≡ executing) × (sem r ≡ 0)) ⊎ ((act r ≡ waits_on (r ∷ [])) × (sem r ≡ 1))

-- Every thread that is queued is asleep, and every thread that has not ended is queued but for the one
-- that runs.
pub record Steady (quantum : ℕ) (k : Config) : Type 0 where
  pub queue : List Ptr
  pub threads : List Ptr
  pub inv : Inv k.sys queue threads
  pub quantum_is : k.sys.time_quantum ≡ quantum
  pub asleep : All (Asleep k.sem k.act) queue
  pub turn : (r : Ptr) → k.sys.running_thread ≡ some r → OnTurn k.sem k.act r
  pub active :
      (p : Ptr) (ws : List Ptr)
      → k.act p ≡ waits_on ws
      → (k.sys.running_thread ≡ some p) ⊎ Memᴰ p queue

-- A thread that executes is the one that runs.
pub Steady-caller :
    {quantum : ℕ} {k : Config} (c : Ptr)
    → Steady quantum k
    → k.act c ≡ executing
    → (k.sys.running_thread ≡ some c) × (k.sem c ≡ 0)
Steady-caller {k = k} c st e = elim (st.active c [] e) [
  | inr m ↦
      let a : Asleep k.sem k.act c = All-at (Asleep k.sem k.act) c st.queue st.asleep m in
      absurd (cc (a.0, e))
  | inl busy ↦ elim (st.turn c busy) [ inl on ↦ (busy, on.1) | inr on ↦ absurd (cc (on.0, e)) ]
]

-- What holds of the threads `ys` just before a call of `c` gives the processor away or keeps it.
pub record Ready (c : Ptr) (ys : List Ptr) (sem : Ptr → ℕ) (act : Ptr → Activity) : Type 0 where
  pub caller : sem c ≡ 0
  pub out : NotIn c ys
  pub asleep : All (Asleep sem act) ys
  pub others : (p : Ptr) (ws : List Ptr) → p ≢ c → act p ≡ waits_on ws → Memᴰ p ys

module _ (c : Ptr) (a : Activity) (sem : Ptr → ℕ) (act : Ptr → Activity) where
  Asleep-set : (p : Ptr) → p ≢ c → Asleep sem act p → Asleep sem (set_at c a act) p
  Asleep-set p ne s = (set_at-other c p a act ne ∙ s.0, s.1)

  Asleep-post : (x p : Ptr) → p ≢ x → Asleep sem act p → Asleep (set_at x (sem x + 1) sem) act p
  Asleep-post x p ne s = (s.0, set_at-other x p (sem x + 1) sem ne ∙ s.1)

-- The caller goes on.
Steady-stays :
    {quantum : ℕ} {ys ts : List Ptr} (c : Ptr) (s : Sys) (sem : Ptr → ℕ) (act : Ptr → Activity)
    → Ready c ys sem act
    → (xs : List Ptr) → Inv s xs ts
    → s.time_quantum ≡ quantum
    → s.running_thread ≡ some c
    → ((P : Ptr → Type 0) → All P ys ↔ All P xs)
    → Steady quantum (record { sys = s; sem = sem; act = set_at c executing act })
Steady-stays {ys = ys} {ts = ts} c s sem act ready xs inv same busy all =
    let act' : Ptr → Activity = set_at c executing act in
    record {
      queue = xs;
      threads = ts;
      inv = inv;
      quantum_is = same;
      asleep =
          (all (Asleep sem act')).0
            (All-map₂ ys (λ y ne s. Asleep-set c executing sem act y ne s) ready.out ready.asleep);
      turn = λ r e.
          let me : c ≡ r = some_inj.0 (sym busy ∙ e) in
          subst (OnTurn sem act') me (inl (set_at-same c executing act, ready.caller));
      active = λ p ws e. elim (ℕ_discrete p c) [
        | yes me ↦ inl (busy ∙ ap some (sym me))
        | no ne ↦
            inr (
              Memᴰ-moves p all (ready.others p ws ne (sym (set_at-other c p executing act ne) ∙ e)))
      ];
    }

-- The thread `x` is posted and the others sleep.
Steady-posts :
    {quantum : ℕ} {ts : List Ptr} (x : Ptr) (s : Sys) (sem : Ptr → ℕ) (act : Ptr → Activity)
    (xs : List Ptr)
    → Inv s xs ts
    → s.time_quantum ≡ quantum
    → s.running_thread ≡ some x
    → Asleep sem act x
    → All (Asleep sem act) xs
    → ((p : Ptr) (ws : List Ptr) → p ≢ x → act p ≡ waits_on ws → Memᴰ p xs)
    → Steady quantum (record { sys = s; sem = set_at x (sem x + 1) sem; act = act })
Steady-posts {ts = ts} x s sem act xs inv same busy here asleep others =
    let out : NotIn x xs = (Inv-Running inv busy).out in
    let sem' : Ptr → ℕ = set_at x (sem x + 1) sem in
    record {
      queue = xs;
      threads = ts;
      inv = inv;
      quantum_is = same;
      asleep = All-map₂ xs (λ y ne s. Asleep-post x executing sem act x y ne s) out asleep;
      turn = λ r e.
          let me : x ≡ r = some_inj.0 (sym busy ∙ e) in
          subst (OnTurn sem' act) me
            (inr (here.0, set_at-same x (sem x + 1) sem ∙ ap (λ n. n + 1) here.1));
      active = λ p ws e. elim (ℕ_discrete p x) [
        | yes me ↦ inl (busy ∙ ap some (sym me))
        | no ne ↦ inr (others p ws ne e)
      ];
    }

module _ (quantum : ℕ) (c : Ptr) (s : Sys) (sem : Ptr → ℕ) (act : Ptr → Activity) (log : List Event)
    (events : List Event) (wrote : s.log ≡ events ++ log) where
  -- The state of the threads after `es`, if that is what `c` did.
  After : Activity → List Event → Type 0
  After a es = Steady quantum (record { sys = s; sem = signalled_by es sem; act = set_at c a act })

  did : (es : List Event) → s.log ≡ es ++ log → es ≡ events
  did es e = append_cancel_right es events log (sym e ∙ wrote)

  -- A call of `c` that has done `pre` before its turn is decided.
  pub Turn-Steady :
      {ys ts : List Ptr} (pre : List Event)
      → awaited pre ≡ []
      → Ready c ys (signalled_by pre sem) act
      → Behind (Turn c ys (pre ++ log)) ts quantum s
      → Steady quantum (record {
        sys = s;
        sem = signalled_by events sem;
        act = set_at c (waits_on (awaited events)) act;
      })
  unfolding After
  Turn-Steady {ys} pre none_awaited ready b = at_turn b.turn
    where
      sem' : Ptr → ℕ
      sem' = signalled_by pre sem

      here : Activity
      here = waits_on (c ∷ [])

      sleeps : (p : Ptr) → p ≢ c → Asleep sem' act p → Asleep sem' (set_at c here act) p
      sleeps p ne a = Asleep-set c here sem' act p ne a

      before : (p : Ptr) (ws : List Ptr) → set_at c here act p ≡ waits_on ws → Memᴰ p (c ∷ ys)
      before p ws e = elim (ℕ_discrete p c) [
        | yes me ↦ Memᴰ.head me
        | no apart ↦ Memᴰ.tail (ready.others p ws apart (sym (set_at-other c p here act apart) ∙ e))
      ]

      at_turn : Turn c ys (pre ++ log) (view s b.queue) → After (waits_on (awaited events)) events
      at_turn (stays busy same all) =
          subst (λ es. After (waits_on (awaited es)) es) (did pre same)
            (rw none_awaited (Steady-stays c s sem' act ready b.queue b.inv b.same busy all))
      at_turn (passes x busy same all) =
          let (next, queued) = (all (Asleep sem' (set_at c here act))).0 (
            (set_at-same c here act, ready.caller),
            All-map₂ ys (λ y ne a. sleeps y ne a) ready.out ready.asleep,
          ) in
          subst (λ es. After (waits_on (awaited es)) es) (did (sem_wait c ∷ sem_post x ∷ pre) same)
            (rw none_awaited (
              Steady-posts x s sem' (set_at c here act) b.queue b.inv b.same busy next queued
                (λ p ws ne e. Memᴰ-other ne (Memᴰ-moves p all (before p ws e)))))

  -- The end of `c`.
  pub Relay-Steady :
      {ys ts : List Ptr}
      → Ready c ys sem act
      → Behind (Relay ys log) ts quantum s
      → Steady quantum (record { sys = s; sem = signalled_by events sem; act = set_at c ended act })
  unfolding After
  Relay-Steady {ys} {ts} ready b = at_end b.turn
    where
      act' : Ptr → Activity
      act' = set_at c ended act

      left : All (Asleep sem act') ys
      left = All-map₂ ys (λ y ne a. Asleep-set c ended sem act y ne a) ready.out ready.asleep

      others : (p : Ptr) (ws : List Ptr) → act' p ≡ waits_on ws → Memᴰ p ys
      others p ws e = elim (ℕ_discrete p c) [
        | yes me ↦ let gone : act' c ≡ ended = set_at-same c ended act in absurd (cc (gone, me, e))
        | no apart ↦ ready.others p ws apart (sym (set_at-other c p ended act apart) ∙ e)
      ]

      at_end : Relay ys log (view s b.queue) → After ended events
      at_end (idles free same all) =
          subst (λ es. After ended es) (did [] same)
            (record {
              queue = b.queue;
              threads = ts;
              inv = b.inv;
              quantum_is = b.same;
              asleep = (all (Asleep sem act')).0 left;
              turn = λ r e. absurd (cc (free, e));
              active = λ p ws e. inr (Memᴰ-moves p all (others p ws e));
            })
      at_end (posts x busy same all) =
          let (next, queued) = (all (Asleep sem act')).0 left in
          subst (λ es. After ended es) (did (sem_post x ∷ []) same)
            (Steady-posts x s sem act' b.queue b.inv b.same busy next queued
              (λ p ws ne e. Memᴰ-other ne (Memᴰ-moves p all (others p ws e))))
