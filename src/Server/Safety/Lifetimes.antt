-- ===== src/Server/Safety/Lifetimes.antt =====
-- The handlers that aws.c creates and frees: the interest list never points to freed memory.
use so.Common.{
  ℕ, ◌≡◌, ◌≢◌, refl, sym, ap, ◌∙◌, inl, inr, Bool, true, false, not, Option, none, some, arith,
  Bool-cases, ◌==◌, ==→eq, Option-cases, ℕ_discrete,
}
use mathlib.Core.Option.{some_inj}
use so.Server.Types.{Connection, set_handler, connection_closed}
use so.Server.System.{System, Drops, IsSystem}
use so.Server.Epoll.{EpollEvent, EpollData, EpollOp, epollin, w_epoll_remove_ptr}
use so.Server.Monad.{Server, and_then, ◌>>=◌, ◌>>◌, done, call, die, found, load, store, modify}
use so.Server.Connection.{close_file, connection_remove, remove_ptr, remove_connection}
use so.Server.Safety.{
  After, After-and_then, IsSound, IsClear, call-IsSound, call-IsClear, Preserves,
}

abbrev pub entry : ℕ → ℕ → EpollEvent
entry events p = record { events = events; udata = EpollData.ptr p }

module _ {S : Type 0} (sys : System S) (interest : S → ℕ → ℕ → Option EpollEvent)
    (laws : IsSystem sys interest) where
  -- Sound, and with no entry for the handler at `p`.
  unfoldable pub Unlisted : ℕ → Server S → Type 0
  Unlisted p s = IsSound interest s × IsClear interest p s

  -- Freeing or replacing a handler that no entry points to.
  pub store-IsSound :
      (p : ℕ) (c : Option Connection) (s : Server S)
      → Unlisted p s
      → IsSound interest (record s { handlers = set_handler s.handlers p c })
  unfolding Unlisted IsSound IsClear
  store-IsSound p c s (sound, clear) d events q e =
      let held = sound d events q e in
      elim (Bool-cases (q == p)) [
        | inl this ↦
            absurd (clear d events (e ∙ ap (λ (n : ℕ). some (entry events n)) (==→eq q p this)))
        | inr other ↦ (held.0, rw other held.1, held.2)
      ]

  -- New memory is unlisted.
  pub fresh-IsClear :
      (p : ℕ) (s : Server S) → s.handlers p ≡ none → IsSound interest s → IsClear interest p s
  unfolding IsSound IsClear
  fresh-IsClear p s free sound d events e = absurd (grind (arith, free, (sound d events p e).1))

  call-Unlisted :
      {A : Type 0} (f : S → A × S) (p : ℕ) (s : Server S)
      → Drops interest f
      → Unlisted p s
      → Unlisted p (record s { sys = (f s.sys).1 })
  unfolding Unlisted
  call-Unlisted f p s drops u =
      (call-IsSound interest f s drops u.0, call-IsClear interest f p s drops u.1)

  file_closed :
      (p : ℕ) (file : Option ℕ) (s : Server S)
      → Unlisted p s
      → After (λ _ s'. Unlisted p s') (close_file sys file s)
  unfolding close_file done Unlisted ◌>>=◌ call
  file_closed p none s u = u
  file_closed p (some f) s u = call-Unlisted (sys.close f) p s (laws.drops_close f) u

  unlist :
      (p d : ℕ) (c : Connection) (s : Server S) (t : S)
      → IsSound interest s
      → s.handlers p ≡ some c
      → c.sockfd ≡ d
      → interest t s.epollfd d ≡ none
      → ((d' : ℕ) → d' ≢ d → interest t s.epollfd d' ≡ interest s.sys s.epollfd d')
      → Unlisted p (record s { sys = t })
  unfolding Unlisted IsSound IsClear
  unlist p d c s t sound here same gone others = (
    (λ d' events q e. elim (ℕ_discrete d' d) [
      | yes at ↦ absurd (grind (arith, rw at at e, gone))
      | no other ↦ sound d' events q (sym (others d' other) ∙ e)
    ]),
    (λ d' events e. elim (ℕ_discrete d' d) [
      | yes at ↦ absurd (grind (arith, rw at at e, gone))
      | no other ↦
          let held = sound d' events p (sym (others d' other) ∙ e) in
          let one : held.0 ≡ c = some_inj.0 (sym held.1 ∙ here) in
          absurd (other (sym held.2 ∙ ap (λ (h : Connection). h.sockfd) one ∙ same))
    ]),
  )

  -- The entry is gone when the call succeeds.
  removed :
      (p d : ℕ) (c : Connection) (s : Server S)
      → IsSound interest s
      → s.handlers p ≡ some c
      → c.sockfd ≡ d
      → After (λ rc s'. rc ≡ true → Unlisted p s') (remove_ptr sys d p s)
  unfolding remove_ptr w_epoll_remove_ptr call
  removed p d c s sound here same = elim (Option-cases (interest s.sys s.epollfd d)) [
    | inl absent ↦
        let fails = laws.epoll_laws.del_new s.epollfd d (entry epollin p) s.sys absent in
        λ rc. absurd (cc (ap (λ (r : Bool × S). r.0) fails, rc))
    | inr (old, present) ↦
        let gone = laws.epoll_laws.del_old s.epollfd d (entry epollin p) old s.sys present in
        λ rc. unlist p d c s _ sound here same gone.1 (λ d' other.
          laws.epoll_laws.others s.epollfd d d' EpollOp.ctl_del (entry epollin p) s.sys other)
  ]

  store-Unlisted :
      (p : ℕ) (c : Option Connection) (s : Server S)
      → Unlisted p s
      → Unlisted p (record s { handlers = set_handler s.handlers p c })
  unfolding Unlisted IsClear
  store-Unlisted p c s u = (store-IsSound p c s u, u.1)

  found-Unlisted :
      (p : ℕ) (o : Option Connection) (s : Server S)
      → Unlisted p s
      → After (λ _ s'. Unlisted p s') (found o s)
  unfolding found
  found-Unlisted p none s u = tt
  found-Unlisted p (some c) s u = u

  modify-Unlisted :
      (p : ℕ) (f : Connection → Connection) (s : Server S)
      → Unlisted p s
      → After (λ _ s'. Unlisted p s') (modify p f s)
  unfolding modify load store ◌>>=◌ found
  modify-Unlisted p f s u =
      After-and_then (λ _ s'. Unlisted p s') (λ _ s'. Unlisted p s') (found (s.handlers p) s) _
        (found-Unlisted p (s.handlers p) s u) (λ c s1 u1. store-Unlisted p (some (f c)) s1 u1)

  freed :
      (p : ℕ) (s : Server S)
      → Unlisted p s
      → After (λ _ s'. IsSound interest s') (connection_remove sys p s)
  unfolding connection_remove ◌>>=◌ found load call ◌>>◌ store
  freed p s u =
      let free =
        λ (a : Unit {0}) (s4 : Server S) (u4 : Unlisted p s4). store-IsSound p none s4 u4 in
      After-and_then (λ _ s'. Unlisted p s') (λ _ s'. IsSound interest s') (found (s.handlers p) s)
        _ (found-Unlisted p (s.handlers p) s u)
        (λ c s1 u1.
          After-and_then (λ _ s'. Unlisted p s') (λ _ s'. IsSound interest s')
            (close_file sys c.file _) _
            (file_closed p c.file _
              (call-Unlisted (sys.shutdown c.sockfd) p s1 (laws.drops_shutdown c.sockfd) u1))
            (λ _ s2 u2.
              After-and_then (λ _ s'. Unlisted p s') (λ _ s'. IsSound interest s')
                (modify p (λ c'. record c' { state = connection_closed }) s2) _
                (modify-Unlisted p _ s2 u2) free))

  after_removal :
      (p : ℕ) (rc : Bool) (s : Server S)
      → (rc ≡ true → Unlisted p s)
      → After
          (λ _ s'. IsSound interest s')
          ((die (not rc) >> (connection_remove sys p >> done connection_closed)) s)
  unfolding connection_remove die done ◌>>◌
  after_removal p true s u =
      After-and_then (λ _ s'. IsSound interest s') (λ _ s'. IsSound interest s')
        (connection_remove sys p s) (λ _. done connection_closed) (freed p s (u refl))
        (λ _ s' sound. sound)
  after_removal p false s u = tt

  remove_connection_at :
      (p : ℕ) (s : Server S) (o : Option Connection)
      → s.handlers p ≡ o
      → IsSound interest s
      → After
          (λ _ s'. IsSound interest s')
          (and_then (found o s) (λ c. remove_ptr sys c.sockfd p >>= λ rc.
            die (not rc) >> (connection_remove sys p >> done connection_closed)))
  unfolding found ◌>>=◌ remove_ptr
  remove_connection_at p s none here sound = tt
  remove_connection_at p s (some c) here sound =
      After-and_then (λ rc s'. rc ≡ true → Unlisted p s') (λ _ s'. IsSound interest s')
        (remove_ptr sys c.sockfd p s) _ (removed p c.sockfd c s sound here refl)
        (λ rc s1 u. after_removal p rc s1 u)

  pub remove_connection-Preserves : (p : ℕ) → Preserves interest (remove_connection sys p)
  unfolding remove_connection ◌>>=◌ load
  remove_connection-Preserves p = record {
    keeps = λ s sound. remove_connection_at p s (s.handlers p) refl sound;
  }
