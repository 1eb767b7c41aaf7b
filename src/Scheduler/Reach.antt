-- ===== src/Scheduler/Reach.antt =====
-- Everything that calls of so_scheduler.h can do, in any order: a step relation, and what holds in
-- every state that it reaches.
use so.Common.{
  ℕ, ◌≡◌, ◌≤◌, ◌<◌, ◌≢◌, ◌⊎◌, refl, sym, ap, ◌∙◌, Option, none, some, List, [], ◌∷◌, ◌++◌, Returns,
  inl, inr, All, Option-cases, arith, dec_lt, length, ◌+◌, leb, Bool-cases, leb→lt, leb→le,
}
use mathlib.Core.Path.{subst}
use so.Scheduler.Types.{Ptr, Heap, ThreadState, so_max_prio}
use so.Scheduler.Queue.Spec.{At, first_ready}
use so.Scheduler.Ops.{Sys}
use so.Scheduler.Valid.{NotIn, OnCpu, All-map}
use so.Scheduler.Api.{
  Reply, failed, returned, so_init, so_fork, so_wait, so_signal, so_exec, thread_task_end,
}
use so.Scheduler.Calls.Inv.{Inv, IsSound}
use so.Scheduler.Calls.Exec.{so_exec-IsSound, thread_task_end-IsSound}
use so.Scheduler.Calls.Fork.{Fresh, so_fork-IsSound}
use so.Scheduler.Calls.Wait.{so_wait-blocks, so_wait-failed}
use so.Scheduler.Calls.Signal.{so_signal-wakes, so_signal-failed}
use so.Scheduler.Calls.End.{so_init-Inv}

-- The address `p` stands in no cell of the queue and is not that of the running thread.
pub record Unused (p : Ptr) (s : Sys) : Type 0 where
  pub cells : (k : ℕ) → k < s.pq.size → s.pq.q.cell k ≢ some p
  pub cpu : (r : Ptr) → s.running_thread ≡ some r → r ≢ p

-- A call that ends in `s'`; the lists are the threads forked before and after.
pub data Step (s : Sys) (ts : List Ptr) (s' : Sys) : List Ptr → Type 0 where
  exec : so_exec s ≡ some s' → Step s ts s' ts
  fork :
      {us : List Ptr} (p tid func priority id : ℕ)
      → Unused p s
      → priority ≤ so_max_prio
      → so_fork p (some tid) (some func) priority s ≡ some (id, s')
      → us ≡ ts ++ p ∷ []
      → Step s ts s' us
  wait : (io : ℕ) (reply : Reply) → so_wait io s ≡ some (reply, s') → Step s ts s' ts
  signal : (io : ℕ) (reply : Reply) → so_signal io s ≡ some (reply, s') → Step s ts s' ts
  finish : (r : Ptr) → s.running_thread ≡ some r → thread_task_end r s ≡ some s' → Step s ts s' ts

pub data Reaches : Sys → List Ptr → Type 0 where
  init :
      {s : Sys} (heap : Heap) (time_quantum io : ℕ)
      → so_init heap time_quantum io none ≡ (returned 0, some s)
      → Reaches s []
  step : {s s' : Sys} {ts us : List Ptr} → Reaches s ts → Step s ts s' us → Reaches s' us

-- A run is one value.
pub of_run {ℓ} :
    {A : Type 0} (P : A → Type ℓ) (r : Option A) (b : A) → Returns P r → r ≡ some b → P b
of_run P r b (a, out, p) e = let same : a ≡ b = cc in subst P same p

At-NotIn :
    (c : ℕ → Option Ptr) (i : ℕ) (xs : List Ptr) (p hi : ℕ)
    → At c i xs
    → hi ≡ i + length xs
    → ((k : ℕ) → k < hi → c k ≢ some p)
    → NotIn p xs
At-NotIn c i [] p hi a e out = tt
At-NotIn c i (x ∷ xs) p hi a e out = (
  (λ same. out i (omega arith) (a.0 ∙ ap some same)),
  At-NotIn c (i + 1) xs p hi a.1 (omega arith) out,
)

Unused-Fresh : (s : Sys) {xs ts : List Ptr} (p : Ptr) → Inv s xs ts → Unused p s → Fresh p s xs
Unused-Fresh s {xs} p inv u = record {
  queue = At-NotIn s.pq.q.cell 0 xs p s.pq.size inv.pq.cells (omega (arith, inv.pq.size)) u.cells;
  cpu = u.cpu;
}

so_wait-IsSound :
    (s : Sys) {xs ts : List Ptr} (io : ℕ)
    → Inv s xs ts
    → Returns (λ (out : Reply × Sys). IsSound ts out.1) (so_wait io s)
so_wait-IsSound s {xs} io inv = elim (Bool-cases (leb s.io io)) [
  | inl ge ↦ ((failed, s), so_wait-failed s io inv (inl (leb→le _ _ ge)), (xs, inv))
  | inr lt ↦ elim (Option-cases s.running_thread) [
    | inl idle ↦ ((failed, s), so_wait-failed s io inv (inr (inl idle)), (xs, inv))
    | inr (r, busy) ↦ elim (Option-cases (first_ready s.heap xs)) [
      | inl starved ↦ ((failed, s), so_wait-failed s io inv (inr (inr starved)), (xs, inv))
      | inr (f, first) ↦
          let (a, out, p) = so_wait-blocks s io r f inv busy (leb→lt _ _ lt) first in (a, out, p.1)
    ]
  ]
]

so_signal-IsSound :
    (s : Sys) {xs ts : List Ptr} (io : ℕ)
    → Inv s xs ts
    → Returns (λ (out : Reply × Sys). IsSound ts out.1) (so_signal io s)
so_signal-IsSound s {xs} io inv = elim (Bool-cases (leb s.io io)) [
  | inl ge ↦ ((failed, s), so_signal-failed s io (inl (leb→le _ _ ge)), (xs, inv))
  | inr lt ↦ elim (Option-cases s.running_thread) [
    | inl idle ↦ ((failed, s), so_signal-failed s io (inr idle), (xs, inv))
    | inr (r, busy) ↦
        let (a, out, p) = so_signal-wakes s io r inv busy (leb→lt _ _ lt) in (a, out, p.1)
  ]
]

-- Every call keeps the invariant.
pub Step-IsSound : {s s' : Sys} {ts us : List Ptr} → Step s ts s' us → IsSound ts s → IsSound us s'
Step-IsSound {s} {s'} {ts} (exec e) (xs, inv) =
    of_run (IsSound ts) (so_exec s) s' (so_exec-IsSound s inv) e
Step-IsSound {s} {s'} {ts} (fork p tid func priority id unused prio e grows) (xs, inv) =
    subst (λ us. IsSound us s') (sym grows)
      (of_run (λ (out : ℕ × Sys). IsSound (ts ++ p ∷ []) out.1)
        (so_fork p (some tid) (some func) priority s) (id, s')
        (let (a, out, q) =
            so_fork-IsSound s p tid func priority inv (Unused-Fresh s p inv unused) prio in
          (a, out, q.1))
        e)
Step-IsSound {s} {s'} {ts} (wait io reply e) (xs, inv) =
    of_run (λ (out : Reply × Sys). IsSound ts out.1) (so_wait io s) (reply, s')
      (so_wait-IsSound s io inv) e
Step-IsSound {s} {s'} {ts} (signal io reply e) (xs, inv) =
    of_run (λ (out : Reply × Sys). IsSound ts out.1) (so_signal io s) (reply, s')
      (so_signal-IsSound s io inv) e
Step-IsSound {s} {s'} {ts} (finish r busy e) (xs, inv) =
    of_run (IsSound ts) (thread_task_end r s) s' (thread_task_end-IsSound s r inv busy) e

-- The invariant holds after `so_init` and any sequence of calls.
pub Reaches-IsSound : {s : Sys} {ts : List Ptr} → Reaches s ts → IsSound ts s
Reaches-IsSound (init heap q io e) = ([], so_init-Inv heap q io e)
Reaches-IsSound (step r st) = Step-IsSound st (Reaches-IsSound r)

-- The thread that runs has at least the priority of `p`.
abbrev pub Outranked : Sys → Ptr → Type 0
Outranked s p =
    (r : Ptr) × (s.running_thread ≡ some r) × ((s.heap p).priority ≤ (s.heap r).priority)

abbrev pub Served : Sys → Ptr → Type 0
Served s p = ((s.heap p).state ≡ ThreadState.waiting) ⊎ Outranked s p

pub served :
    (s : Sys) (o : Option Ptr) (xs : List Ptr)
    → s.running_thread ≡ o
    → OnCpu s.time_quantum s.heap xs o
    → All (Served s) xs
served s none xs e c = All-map xs (λ y w. inl w) c
served s (some r) xs e c =
    All-map xs (λ y w. elim w [ inl waits ↦ inl waits | inr le ↦ inr (r, e, le) ]) c.first

At-All {ℓ} :
    (P : Ptr → Type ℓ) (c : ℕ → Option Ptr) (i : ℕ) (xs : List Ptr) (k : ℕ)
    → At c i xs
    → All P xs
    → i ≤ k
    → k < i + length xs
    → (p : Ptr) × (c k ≡ some p) × P p
At-All P c i [] k a all lo hi = absurd (omega arith)
At-All P c i (x ∷ xs) k a all lo hi = elim (dec_lt i k) [
  | yes later ↦ At-All P c (i + 1) xs k a.1 all.1 (omega arith) (omega arith)
  | no here ↦ (x, let e : k ≡ i = omega arith in rw e a.0, all.0)
]

-- In every state that calls reach, each cell of the queue holds a thread that waits for an event or
-- does not have a higher priority than the thread that runs (so if none runs, all wait).
pub Reaches-Served :
    {s : Sys} {ts : List Ptr} (k : ℕ)
    → Reaches s ts
    → k < s.pq.size
    → (p : Ptr) × (s.pq.q.cell k ≡ some p) × Served s p
Reaches-Served {s} k r lt =
    let (xs, inv) = Reaches-IsSound r in
    At-All (Served s) s.pq.q.cell 0 xs k inv.pq.cells
      (served s s.running_thread xs refl inv.valid.cpu) (omega arith) (omega (arith, inv.pq.size))

-- In every state that calls reach, no call faults or runs out of fuel: `so_exec`, `so_wait` and
-- `so_signal` with any event, and the end of the thread that runs.
pub Reaches-total :
    {s : Sys} {ts : List Ptr} (io : ℕ)
    → Reaches s ts
    → (so_exec s ≢ none)
      × (so_wait io s ≢ none)
      × (so_signal io s ≢ none)
      × ((r : Ptr) → s.running_thread ≡ some r → thread_task_end r s ≢ none)
Reaches-total {s} io reach =
    let (xs, inv) = Reaches-IsSound reach in
    let a = so_exec-IsSound s inv in
    let b = so_wait-IsSound s io inv in
    let c = so_signal-IsSound s io inv in
    (
      (λ e. cc (a.1)),
      (λ e. cc (b.1)),
      (λ e. cc (c.1)),
      (λ r busy e. cc ((thread_task_end-IsSound s r inv busy).1)),
    )
