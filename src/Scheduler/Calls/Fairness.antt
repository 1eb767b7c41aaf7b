-- ===== src/Scheduler/Calls/Fairness.antt =====
-- No ready thread of the running one's priority starves.
use so.Common.{
  ℕ, zero, suc, ◌+◌, ◌-◌, ◌*◌, ◌^◌, ◌≡◌, ◌≤◌, ◌<◌, refl, sym, ap, ◌∙◌, true, Option, none, some,
  List, [], ◌∷◌, ◌++◌, Returns, arith, length, ◌>>=◌, inl, inr, Option-cases, dec_lt,
}
use native.Mathlib.Nat.{suc-mul}
use mathlib.Core.Path.{subst}
use mathlib.Core.Option.{some_inj}
use so.Scheduler.Types.{Ptr, not_waiting_thread}
use so.Scheduler.Queue.Spec.{At}
use so.Scheduler.Ops.{Sys}
use so.Scheduler.Api.{so_exec}
use so.Scheduler.Calls.Inv.{Inv, IsSound, Inv-Running}
use so.Scheduler.Calls.Rounds.{exec_times, Queueing, Outcome, reached, nearer, turn-ends}

exec_times-add :
    (m n : ℕ) (s s' : Sys) → exec_times m s ≡ some s' → exec_times (m + n) s ≡ exec_times n s'
unfolding exec_times
exec_times-add zero n s s' e =
    let none_first : 0 + n ≡ n = omega arith in
    ap (λ k. exec_times k s) none_first ∙ ap (λ t. exec_times n t) (some_inj.0 e)
exec_times-add (suc m) n s s' e =
    let one_first : suc m + n ≡ suc (m + n) = omega arith in
    elim (Option-cases (so_exec s)) [
      | inl faults ↦ let e' : none ≡ some s' = (rw (faults, ◌>>=◌) at e) in absurd (cc (e'))
      | inr (t, out) ↦
          let e' : exec_times m t ≡ some s' = (rw (out, ◌>>=◌) at e) in
          ap (λ k. exec_times k s) one_first ∙ rw (out, ◌>>=◌) (exec_times-add m n t s' e')
    ]

-- `p` runs after `n` calls of `so_exec`, for some `n` up to the bound.
abbrev pub RunsWithin : ℕ → Ptr → List Ptr → Sys → Type 0
RunsWithin bound p ts s =
    (n : ℕ) × (n ≤ bound)
    × Returns (λ s'. (s'.running_thread ≡ some p) × IsSound ts s') (exec_times n s)

-- A turn of `r` takes as many calls as `r` has units left.
turn :
    {s : Sys} {r p : Ptr} {before behind ts : List Ptr}
    → Queueing s r p before behind ts
    → (n : ℕ) × (n ≤ s.time_quantum)
      × Returns (Outcome p ts (length before) s.time_quantum) (exec_times n s)
turn {s} {r} q =
    let here = (Inv-Running q.inv q.busy).thread in
    let left : (s.heap r).time_quantum ≡ suc ((s.heap r).time_quantum - 1) =
      omega (arith, here.some_time) in
    (
      suc ((s.heap r).time_quantum - 1),
      omega (arith, left, here.within),
      turn-ends ((s.heap r).time_quantum - 1) q left,
    )

grows : (k quantum : ℕ) → suc k * quantum ≡ quantum + k * quantum
grows k quantum = omega (arith, suc-mul k quantum)

rounds :
    (k quantum : ℕ) {s : Sys} {r p : Ptr} {before behind ts : List Ptr}
    → Queueing s r p before behind ts
    → length before ≡ k
    → s.time_quantum ≡ quantum
    → RunsWithin (suc k * quantum) p ts s
rounds zero quantum q len same =
    let (n, le, returns) = turn q in
    let (s', out, o) = returns in
    elim o [
      | reached busy sound ↦ (n, omega (arith, le, same), (s', out, (busy, sound)))
      | nearer f before behind q' shorter keeps ↦ absurd (omega (arith, shorter, len))
    ]
rounds (suc k) quantum {s} q len same =
    let (n, le, returns) = turn q in
    let (s', out, o) = returns in
    elim o [
      | reached busy sound ↦
          (n, omega (arith, le, same, grows (suc k) quantum), (s', out, (busy, sound)))
      | nearer f before behind q' shorter keeps ↦
          let (n', le', returns') =
            rounds k quantum q' (omega (arith, shorter, len)) (keeps ∙ same) in
          let (s'', out', done) = returns' in
          (
            n + n',
            omega (arith, le, le', same, grows (suc k) quantum),
            (s'', exec_times-add n n' s s' out ∙ out', done),
          )
    ]

split-At :
    (c : ℕ → Option Ptr) (i j : ℕ) (p : Ptr) (xs : List Ptr)
    → At c i xs
    → i ≤ j
    → j < i + length xs
    → c j ≡ some p
    → (before : List Ptr) × (behind : List Ptr) × (before ++ p ∷ behind ≡ xs)
      × (i + length before ≡ j)
split-At c i j p [] a lo hi at = absurd (omega (arith, lo, hi))
split-At c i j p (x ∷ xs) a lo hi at = elim (dec_lt i j) [
  | no here ↦
      let e : i ≡ j = omega (arith, lo, here) in
      let same : x ≡ p = some_inj.0 (sym a.0 ∙ ap c e ∙ at) in
      ([], xs, ap (λ y. y ∷ xs) (sym same), omega (arith, e))
  | yes later ↦
      let (before, behind, out, len) =
        split-At c (i + 1) j p xs a.1 (omega (arith, later)) (omega (arith, hi)) at in
      (x ∷ before, behind, ap (λ ys. x ∷ ys) out, omega (arith, len))
]

-- Round robin: in a scheduler that satisfies the invariant, with a quantum below 2 ^ 32, a thread of the
-- running thread's priority that stands ready in cell `j` of the queue runs after at most j + 1 quanta of
-- calls of `so_exec`; those calls do not fault and the invariant holds then.
pub so_exec-reaches :
    (s : Sys) {xs ts : List Ptr} (r p : Ptr) (j : ℕ)
    → Inv s xs ts
    → s.running_thread ≡ some r
    → j < s.pq.size
    → s.pq.q.cell j ≡ some p
    → not_waiting_thread (s.heap p).state ≡ true
    → (s.heap r).priority ≡ (s.heap p).priority
    → s.time_quantum < 2 ^ 32
    → RunsWithin ((j + 1) * s.time_quantum) p ts s
so_exec-reaches s {xs} {ts} r p j inv busy lt at free level word =
    let (before, behind, whole, len) =
      split-At s.pq.q.cell 0 j p xs inv.pq.cells (omega arith) (omega (arith, inv.pq.size, lt))
        at in
    let count : suc j ≡ j + 1 = omega arith in
    subst (λ k. RunsWithin (k * s.time_quantum) p ts s) count
      (rounds j s.time_quantum
        (record {
          inv = subst (λ ys. Inv s ys ts) (sym whole) inv;
          busy = busy;
          free = free;
          level = level;
          word = word;
        })
        (omega (arith, len)) refl)
