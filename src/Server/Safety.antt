-- ===== src/Server/Safety.antt =====
-- The handlers of aws.c and the interest list: what the server keeps true, and rules for code that
-- keeps it.
pub mod Lifetimes
pub mod Listing
pub mod Lifecycle
pub mod Dangling
pub mod Start
pub mod Sending
pub mod Rounds
use so.Common.{
  ℕ, ◌≡◌, ◌≢◌, ◌⊎◌, refl, sym, ap, ◌∙◌, inl, inr, Bool, true, false, Option, none, some, arith,
  Bool-cases, ◌==◌, ==→eq, eq→==,
}
use mathlib.Core.Option.{some_inj}
use so.Server.Types.{Connection, set_handler}
use so.Server.System.{System, Drops, IsSystem}
use so.Server.Epoll.{EpollEvent, EpollData}
use so.Server.Monad.{
  Server, Outcome, returns, exits, fault, timeout, M, and_then, ◌>>=◌, ◌>>◌, done, call, die,
  or_die, found, load, store, modify, branch,
}

-- A property of the result and the state, if the code returns.
abbrev pub After : {S A : Type 0} → (A → Server S → Type 0) → Outcome S A → Type 0
After Q (returns a s) = Q a s
After Q (exits s) = Unit
After Q fault = Unit
After Q timeout = Unit

pub After-and_then :
    {S A B : Type 0} (P : A → Server S → Type 0) (Q : B → Server S → Type 0) (o : Outcome S A)
    (f : A → M S B)
    → After P o
    → ((a : A) (s : Server S) → P a s → After Q (f a s))
    → After Q (and_then o f)
After-and_then P Q (returns a s) f h k = k a s h
After-and_then P Q (exits s) f h k = tt
After-and_then P Q fault f h k = tt
After-and_then P Q timeout f h k = tt

module _ {S : Type 0} (interest : S → ℕ → ℕ → Option EpollEvent) where
  -- Every handler that the server's interest list points to is alive and has the entry's descriptor.
  unfoldable pub IsSound : Server S → Type 0
  IsSound s =
      (d events p : ℕ)
      → interest s.sys s.epollfd d ≡ some (record { events = events; udata = EpollData.ptr p })
      → (c : Connection) × (s.handlers p ≡ some c) × (c.sockfd ≡ d)

  -- The interest list does not point to the handler.
  unfoldable pub IsClear : ℕ → Server S → Type 0
  IsClear p s =
      (d events : ℕ)
      → interest s.sys s.epollfd d ≢ some (record { events = events; udata = EpollData.ptr p })

  pub call-IsSound :
      {A : Type 0} (f : S → A × S) (s : Server S)
      → Drops interest f
      → IsSound s
      → IsSound (record s { sys = (f s.sys).1 })
  unfolding IsSound
  call-IsSound f s drops sound d events p e = elim (drops.drops s.sys s.epollfd d) [
    | inl gone ↦ absurd (grind (arith, gone, e))
    | inr same ↦ sound d events p (sym same ∙ e)
  ]

  pub call-IsClear :
      {A : Type 0} (f : S → A × S) (p : ℕ) (s : Server S)
      → Drops interest f
      → IsClear p s
      → IsClear p (record s { sys = (f s.sys).1 })
  unfolding IsClear
  call-IsClear f p s drops clear d events e = elim (drops.drops s.sys s.epollfd d) [
    | inl gone ↦ absurd (grind (arith, gone, e))
    | inr same ↦ clear d events (sym same ∙ e)
  ]

  -- Assignments that leave the socket of the handler alone.
  modified :
      (p : ℕ) (f : Connection → Connection) (s : Server S) (o : Option Connection)
      → s.handlers p ≡ o
      → ((c : Connection) → (f c).sockfd ≡ c.sockfd)
      → IsSound s
      → After (λ _ s'. IsSound s') (and_then (found o s) (λ c. store p (some (f c))))
  unfolding IsSound found store
  modified p f s none here same sound = tt
  modified p f s (some c) here same sound = λ d events q e.
      let held = sound d events q e in
      elim (Bool-cases (q == p)) [
        | inl this ↦
            let at : q ≡ p = ==→eq q p this in
            let old : some held.0 ≡ some c = sym held.1 ∙ ap s.handlers at ∙ here in
            (
              f c,
              rw this refl,
              same c ∙ sym (ap (λ (h : Connection). h.sockfd) (some_inj.0 old)) ∙ held.2,
            )
        | inr other ↦ (held.0, rw other held.1, held.2)
      ]

-- Code that keeps the interest list sound whenever it returns.
pub record Preserves {S A : Type 0} (interest : S → ℕ → ℕ → Option EpollEvent) (m : M S A)
    : Type 0 where
  pub keeps : (s : Server S) → IsSound interest s → After (λ _ s'. IsSound interest s') (m s)

module _ {S : Type 0} {interest : S → ℕ → ℕ → Option EpollEvent} where
  pub >>=-Preserves :
      {A B : Type 0} {m : M S A} {f : A → M S B}
      → Preserves interest m
      → ((a : A) → Preserves interest (f a))
      → Preserves interest (m >>= f)
  unfolding ◌>>=◌
  >>=-Preserves {A} {B} {m} {f} first rest = record {
    keeps = λ s sound.
        After-and_then (λ _ s'. IsSound interest s') (λ _ s'. IsSound interest s') (m s) f
          (first.keeps s sound) (λ a s' sound'. (rest a).keeps s' sound');
  }

  pub >>-Preserves :
      {B : Type 0} {m : M S (Unit {0})} {k : M S B}
      → Preserves interest m
      → Preserves interest k
      → Preserves interest (m >> k)
  unfolding ◌>>◌
  >>-Preserves {B} {m} {k} first rest = record {
    keeps = λ s sound.
        After-and_then (λ _ s'. IsSound interest s') (λ _ s'. IsSound interest s') (m s) (λ _. k)
          (first.keeps s sound) (λ a s' sound'. rest.keeps s' sound');
  }

  pub done-Preserves : {A : Type 0} (a : A) → Preserves interest (done a)
  unfolding done
  done-Preserves a = record { keeps = λ s sound. sound }

  pub call-Preserves : {A : Type 0} (f : S → A × S) → Drops interest f → Preserves interest (call f)
  unfolding call
  call-Preserves f drops = record { keeps = λ s sound. call-IsSound interest f s drops sound }

  pub die-Preserves : (b : Bool) → Preserves interest (die b)
  unfolding die
  die-Preserves true = record { keeps = λ s sound. tt }
  die-Preserves false = record { keeps = λ s sound. sound }

  pub or_die-Preserves : {A : Type 0} (o : Option A) → Preserves interest (or_die o)
  unfolding or_die
  or_die-Preserves none = record { keeps = λ s sound. tt }
  or_die-Preserves (some a) = record { keeps = λ s sound. sound }

  pub found-Preserves : {A : Type 0} (o : Option A) → Preserves interest (found o)
  unfolding found
  found-Preserves none = record { keeps = λ s sound. tt }
  found-Preserves (some a) = record { keeps = λ s sound. sound }

  pub load-Preserves : (p : ℕ) → Preserves interest (load p)
  unfolding load found
  load-Preserves p = record { keeps = λ s sound. (found-Preserves (s.handlers p)).keeps s sound }

  pub modify-Preserves :
      (p : ℕ) (f : Connection → Connection)
      → ((c : Connection) → (f c).sockfd ≡ c.sockfd)
      → Preserves interest (modify p f)
  unfolding modify load found store ◌>>=◌
  modify-Preserves p f same = record {
    keeps = λ s sound. modified interest p f s (s.handlers p) refl same sound;
  }

  pub fault-Preserves : {A : Type 0} → Preserves {A = A} interest (λ _. fault)
  fault-Preserves = record { keeps = λ s sound. tt }

  pub timeout-Preserves : {A : Type 0} → Preserves {A = A} interest (λ _. timeout)
  timeout-Preserves = record { keeps = λ s sound. tt }

  pub branch-Preserves :
      {A : Type 0} (b : Bool) {m k : M S A}
      → Preserves interest m
      → Preserves interest k
      → Preserves interest (branch b m k)
  unfolding branch
  branch-Preserves true first rest = first
  branch-Preserves false first rest = rest

-- Rules for `search`, one for each way to put code together.
pub ruleset preserves = (
  >>=-Preserves, >>-Preserves, done-Preserves, call-Preserves, die-Preserves, or_die-Preserves,
  found-Preserves, load-Preserves, modify-Preserves, fault-Preserves, timeout-Preserves,
  branch-Preserves,
)
