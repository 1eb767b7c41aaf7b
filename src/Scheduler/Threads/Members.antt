-- ===== src/Scheduler/Threads/Members.antt =====
-- Members of lists of threads, and a value for each thread.
use so.Common.{◌≡◌, ◌≢◌, ◌↔◌, refl, sym, List, [], ◌∷◌, All, arith}
use mathlib.Core.Path.{subst}
use mathlib.Core.List.{Memᴰ}
use so.Scheduler.Types.{Ptr}
use so.Scheduler.Valid.{All-map}
use so.Scheduler.Threads.{set_at}

pub All-at : (P : Ptr → Type 0) (p : Ptr) (xs : List Ptr) → All P xs → Memᴰ p xs → P p
All-at P p [] a m = elim m [ ]
All-at P p (x ∷ xs) a (Memᴰ.head e) = subst P (sym e) a.0
All-at P p (x ∷ xs) a (Memᴰ.tail m) = All-at P p xs a.1 m

All-Memᴰ : (xs : List Ptr) → All (λ y. Memᴰ y xs) xs
All-Memᴰ [] = tt
All-Memᴰ (x ∷ xs) = (Memᴰ.head refl, All-map xs (λ y m. Memᴰ.tail m) (All-Memᴰ xs))

-- Lists with the same properties have the same members.
pub Memᴰ-moves :
    {xs ys : List Ptr} (p : Ptr)
    → ((P : Ptr → Type 0) → All P ys ↔ All P xs)
    → Memᴰ p ys
    → Memᴰ p xs
Memᴰ-moves {xs} {ys} p all m =
    All-at (λ y. Memᴰ y xs) p ys ((all (λ y. Memᴰ y xs)).1 (All-Memᴰ xs)) m

pub Memᴰ-other : {x p : Ptr} {xs : List Ptr} → p ≢ x → Memᴰ p (x ∷ xs) → Memᴰ p xs
Memᴰ-other ne (Memᴰ.head e) = absurd (ne e)
Memᴰ-other ne (Memᴰ.tail m) = m

pub set_at-same : {A : Type 0} (p : Ptr) (a : A) (f : Ptr → A) → set_at p a f p ≡ a
set_at-same p a f = ground arith

pub set_at-other : {A : Type 0} (p q : Ptr) (a : A) (f : Ptr → A) → q ≢ p → set_at p a f q ≡ f q
set_at-other p q a f ne = ground arith
