-- ===== src/Scheduler/Joins.antt =====
-- `so_end`, which joins and frees the threads while those that still run may fork more.
use so.Common.{
  false, ℕ, zero, suc, ◌+◌, ◌≡◌, ◌≤◌, ◌<◌, refl, sym, ap, ◌∙◌, none, some, List, [], ◌∷◌, ◌++◌,
  Returns, Option, length, length-append, arith, ◌>>=◌, ltb, lt→ltb, le→ltb,
}
use mathlib.Core.Path.{subst}
use mathlib.Core.List.{append_assoc, append-nil}
use so.Scheduler.Types.{Ptr, Block}
use so.Scheduler.Queue.Spec.{At}
use so.Scheduler.Queue.Shift.{read-some}
use so.Scheduler.Ops.{Sys, Event, sem_destroy, pthread_join, free}
use so.Scheduler.Api.{so_end, join_all, free_all}
use so.Scheduler.Calls.Inv.{Inv, IsSound}
use so.Scheduler.Reach.{Step, exec, fork, wait, signal, finish, Step-IsSound}

-- Any number of calls; the lists are the threads forked before and after.
pub data Steps (s : Sys) (ts : List Ptr) : Sys → List Ptr → Type 0 where
  stop : Steps s ts s ts
  more :
      {s' s'' : Sys} {us vs : List Ptr} → Steps s ts s' us → Step s' us s'' vs → Steps s ts s'' vs

-- While a join blocks, the other threads make calls, and there are never more than `total` threads.
abbrev pub Go : ℕ → (Ptr → Sys → Sys) → Type 0
Go total others =
    (p : Ptr) (s : Sys) (ts : List Ptr)
    → IsSound ts s
    → length ts ≤ total
    → (us : List Ptr) × Steps s ts (others p s) us × (length us ≤ total)

-- The joins of a list of threads, the newest first.
unfoldable pub joins : List Ptr → List Event → List Event
joins [] log = log
joins (p ∷ ps) log = joins ps (pthread_join p ∷ log)

-- Each thread of a list is destroyed and freed, the newest event first.
unfoldable pub releases : List Ptr → List Event → List Event
releases [] log = log
releases (p ∷ ps) log = releases ps (free p ∷ sem_destroy p ∷ log)

-- The scheduler once the threads of a list have been joined, one after the other.
unfoldable pub meanwhile : (Ptr → Sys → Sys) → List Ptr → Sys → Sys
meanwhile others [] s = s
meanwhile others (p ∷ ps) s = meanwhile others ps (others p s)

meanwhile-snoc :
    (others : Ptr → Sys → Sys) (ps : List Ptr) (p : Ptr) (s : Sys)
    → meanwhile others (ps ++ p ∷ []) s ≡ others p (meanwhile others ps s)
unfolding meanwhile
meanwhile-snoc others [] p s = refl
meanwhile-snoc others (x ∷ ps) p s = meanwhile-snoc others ps p (others x s)

joins-snoc :
    (ps : List Ptr) (p : Ptr) (log : List Event)
    → joins (ps ++ p ∷ []) log ≡ pthread_join p ∷ joins ps log
unfolding joins
joins-snoc [] p log = refl
joins-snoc (x ∷ ps) p log = joins-snoc ps p (pthread_join x ∷ log)

Step-grows : {s s' : Sys} {ts us : List Ptr} → Step s ts s' us → (new : List Ptr) × (us ≡ ts ++ new)
Step-grows {ts = ts} (exec e) = ([], sym (append-nil ts))
Step-grows (fork p tid func priority id unused prio e grows) = (p ∷ [], grows)
Step-grows {ts = ts} (wait io reply e) = ([], sym (append-nil ts))
Step-grows {ts = ts} (signal io reply e) = ([], sym (append-nil ts))
Step-grows {ts = ts} (finish r busy e) = ([], sym (append-nil ts))

Steps-grows :
    {s : Sys} {ts : List Ptr} {s' : Sys} {us : List Ptr}
    → Steps s ts s' us
    → (new : List Ptr) × (us ≡ ts ++ new)
Steps-grows {ts = ts} stop = ([], sym (append-nil ts))
Steps-grows {ts = ts} (more run st) =
    let (a, e) = Steps-grows run in
    let (b, f) = Step-grows st in (a ++ b, f ∙ ap (λ l. l ++ b) e ∙ append_assoc ts a b)

Steps-IsSound :
    {s : Sys} {ts : List Ptr} {s' : Sys} {us : List Ptr}
    → Steps s ts s' us
    → IsSound ts s
    → IsSound us s'
Steps-IsSound stop sound = sound
Steps-IsSound (more run st) sound = Step-IsSound st (Steps-IsSound run sound)

At-offset :
    (c : ℕ → Option Ptr) (i : ℕ) (done : List Ptr) (x : Ptr) (rest : List Ptr)
    → At c i (done ++ x ∷ rest)
    → c (i + length done) ≡ some x
At-offset c i [] x rest a = (let z : i ≡ i + 0 = omega arith in subst (λ k. c k ≡ some x) z a.0)
At-offset c i (y ∷ done) x rest a =
    let z : i + 1 + length done ≡ i + suc (length done) = omega arith in
    subst (λ k. c k ≡ some x) z (At-offset c (i + 1) done x rest a.1)

At-middle :
    (c : ℕ → Option Ptr) (done : List Ptr) (x : Ptr) (rest : List Ptr)
    → At c 0 (done ++ x ∷ rest)
    → c (length done) ≡ some x
At-middle c done x rest a =
    let z : 0 + length done ≡ length done = omega arith in
    subst (λ k. c k ≡ some x) z (At-offset c 0 done x rest a)

-- All threads are joined: those of the list, and those that are forked in the meantime.
abbrev Joined : (Ptr → Sys → Sys) → Sys → List Ptr → List Event × Sys → Type 0
Joined others s ts out =
    (us new : List Ptr) × (us ≡ ts ++ new)
    × IsSound us out.1
    × (out.0 ≡ joins us [])
    × (out.1 ≡ meanwhile others us s)

join_one :
    (fuel : ℕ) (others : Ptr → Sys → Sys) (s : Sys) {xs : List Ptr} (done : List Ptr) (x : Ptr)
    (rest : List Ptr)
    → Inv s xs (done ++ x ∷ rest)
    → join_all (suc fuel) others (length done) s (joins done [])
      ≡ join_all fuel others (length (done ++ x ∷ [])) (others x s) (pthread_join x ∷ joins done [])
unfolding join_all
join_one fuel others s done x rest inv =
    let size : length (done ++ x ∷ rest) ≡ length done + suc (length rest) =
      length-append done (x ∷ rest) in
    let at : s.threads.cell (length done) ≡ some x =
      At-middle s.threads.cell done x rest inv.kept.cells in
    let one : length (done ++ x ∷ []) ≡ length done + 1 = length-append done (x ∷ []) in
    rw (lt→ltb (length done) s.n (omega (arith, inv.kept.count, size)), join_all)
      (rw (read-some s.threads (length done) x (omega (arith, inv.kept.memory, size)) at, ◌>>=◌)
        (rw one))

join_all-Joined :
    (fuel total : ℕ) (others : Ptr → Sys → Sys) (o s : Sys) (done rest : List Ptr)
    → s ≡ meanwhile others done o
    → Go total others
    → IsSound (done ++ rest) s
    → length (done ++ rest) ≤ total
    → total < fuel + length done
    → Returns
        (Joined others o (done ++ rest))
        (join_all fuel others (length done) s (joins done []))
unfolding join_all
join_all-Joined zero total others o s done rest at go sound le enough =
    absurd (omega (arith, le, enough, length-append done rest))
join_all-Joined (suc fuel) total others o s done [] at go (xs, inv) le enough =
    let over : ltb (length done) s.n ≡ false =
      le→ltb (length done) s.n (omega (arith, inv.kept.count, length-append done [])) in
    (
      (joins done [], s),
      rw (over, join_all) refl,
      (
        done ++ [],
        [],
        sym (append-nil (done ++ [])),
        (xs, inv),
        ap (λ l. joins l []) (sym (append-nil done)),
        at ∙ ap (λ l. meanwhile others l o) (sym (append-nil done)),
      ),
    )
join_all-Joined (suc fuel) total others o s done (x ∷ rest) at go (xs, inv) le enough =
    let size : length (done ++ x ∷ rest) ≡ length done + suc (length rest) =
      length-append done (x ∷ rest) in
    let (us, run, few) = go x s (done ++ x ∷ rest) (xs, inv) le in
    let (new, grows) = Steps-grows run in
    let again : us ≡ (done ++ x ∷ []) ++ (rest ++ new) =
      grows ∙ append_assoc done (x ∷ rest) new ∙ sym (append_assoc done (x ∷ []) (rest ++ new)) in
    let step =
      join_all-Joined fuel total others o (others x s) (done ++ x ∷ []) (rest ++ new)
        (ap (others x) at ∙ sym (meanwhile-snoc others done x o)) go
        (subst (λ l. IsSound l (others x s)) again (Steps-IsSound run (xs, inv)))
        (subst (λ l. length l ≤ total) again few)
        (omega (arith, enough, length-append done (x ∷ []))) in
    let (out, ran, joint) = step in
    let (vs, late, e, sound, log, final) = joint in
    (
      out,
      join_one fuel others s done x rest inv
          ∙ subst (λ l. join_all fuel others (length (done ++ x ∷ [])) (others x s) l ≡ some out)
              (joins-snoc done x []) ran,
      (
        vs,
        new ++ late,
        e ∙ ap (λ l. l ++ late) (sym again ∙ grows) ∙ append_assoc (done ++ x ∷ rest) new late,
        sound,
        log,
        final,
      ),
    )

free_all-releases :
    (ts : List Ptr) (left i : ℕ) (b : Block) (log : List Event)
    → left ≡ length ts
    → i + left ≤ b.allocated
    → At b.cell i ts
    → free_all left i b log ≡ some (releases ts log)
unfolding free_all releases
free_all-releases [] zero i b log l m a = refl
free_all-releases [] (suc left) i b log l m a = absurd (omega arith)
free_all-releases (x ∷ ts) zero i b log l m a = absurd (omega arith)
free_all-releases (x ∷ ts) (suc left) i b log l m a =
    rw (read-some b i x (omega arith) a.0, ◌>>=◌)
      (free_all-releases ts left (i + 1) b (free x ∷ sem_destroy x ∷ log) (omega arith)
        (omega arith) a.1)

-- If the other threads only make calls while a join blocks, and there are never more than `total`
-- threads, fewer than the fuel, then `so_end` returns and leaves no scheduler: it has joined, once and
-- in order, all the threads that the scheduler has after the last join, those forked before the call
-- and those forked during it, and then destroyed the semaphore of each and freed it.
pub so_end-joins :
    (fuel total : ℕ) (others : Ptr → Sys → Sys) (s : Sys) {ts : List Ptr}
    → Go total others
    → IsSound ts s
    → length ts ≤ total
    → total < fuel
    → (us new : List Ptr) × (us ≡ ts ++ new)
      × IsSound us (meanwhile others us s)
      × (so_end fuel others (some s) ≡ some (releases us (joins us []), none))
unfolding so_end
so_end-joins fuel total others s {ts} go sound le enough =
    let (out, ran, joint) =
      join_all-Joined fuel total others s s [] ts (unfold meanwhile in refl) go sound le
        (omega (arith, enough)) in
    let (us, new, grows, (xs, inv), joined, final) = joint in
    let went : join_all fuel others 0 s [] ≡ some out = unfold joins in ran in
    (
      us,
      new,
      grows,
      subst (IsSound us) final (xs, inv),
      rw (went, ◌>>=◌)
          (rw
            (
              free_all-releases us out.1.n 0 out.1.threads out.0 inv.kept.count
                  (omega (arith, inv.kept.count, inv.kept.memory)) inv.kept.cells,
              ◌>>=◌,
            )
            (rw joined)),
    )
