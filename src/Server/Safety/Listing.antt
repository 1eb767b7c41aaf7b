-- ===== src/Server/Safety/Listing.antt =====
-- The calls of aws.c that put a handler into the interest list or change its events.
use mathlib.Core.Option.{some_inj}
use so.Common.{
  ℕ, ◌≡◌, ◌≢◌, refl, sym, ap, ◌∙◌, inl, inr, not, Option, none, some, eq→==, Option-cases,
  ℕ_discrete,
}
use so.Server.Types.{Connection}
use so.Server.System.{System, IsSystem}
use so.Server.Epoll.{
  EpollEvent, EpollData, EpollOp, epollin, epollinout, w_epoll_add_ptr_in, w_epoll_update_ptr_in,
  w_epoll_update_ptr_inout,
}
use so.Server.Monad.{Server, and_then, ◌>>=◌, ◌>>◌, done, call, die, or_die, found, load, store}
use so.Server.Connection.{
  init_connection, malloc_connection, connection_create, add_in, accept, handle_new_connection,
}
use so.Server.Reply.{watch_in, update_in}
use so.Server.Request.{watch_both, update_inout}
use so.Server.Safety.{
  After, After-and_then, IsSound, call-IsSound, Preserves, >>=-Preserves, call-Preserves,
  die-Preserves, or_die-Preserves,
}
use so.Server.Safety.Lifetimes.{entry, Unlisted, store-IsSound, fresh-IsClear}

module _ {S : Type 0} (sys : System S) (interest : S → ℕ → ℕ → Option EpollEvent)
    (laws : IsSystem sys interest) where
  -- A state whose list has an entry more for a live handler, or a changed one.
  listed :
      (p d events : ℕ) (c : Connection) (s : Server S) (t : S)
      → IsSound interest s
      → s.handlers p ≡ some c
      → c.sockfd ≡ d
      → interest t s.epollfd d ≡ some (entry events p)
      → ((d' : ℕ) → d' ≢ d → interest t s.epollfd d' ≡ interest s.sys s.epollfd d')
      → IsSound interest (record s { sys = t })
  unfolding IsSound
  listed p d events c s t sound here same new others d' events' q e = elim (ℕ_discrete d' d) [
    | yes at ↦
        let one : some (entry events p) ≡ some (entry events' q) = sym new ∙ (rw at at e) in
        let ptrs : EpollData.ptr p ≡ EpollData.ptr q =
          ap (λ (ev : EpollEvent). ev.udata) (some_inj.0 one) in
        let at_p : p ≡ q = cc ptrs in (c, sym (ap s.handlers at_p) ∙ here, same ∙ sym at)
    | no other ↦ sound d' events' q (sym (others d' other) ∙ e)
  ]

  -- A list that lacks a descriptor and else is the same.
  unlisted :
      (d : ℕ) (s : Server S) (t : S)
      → IsSound interest s
      → interest t s.epollfd d ≡ none
      → ((d' : ℕ) → d' ≢ d → interest t s.epollfd d' ≡ interest s.sys s.epollfd d')
      → IsSound interest (record s { sys = t })
  unfolding IsSound
  unlisted d s t sound gone others d' events q e = elim (ℕ_discrete d' d) [
    | yes at ↦
        let here : none ≡ some (entry events q) = sym gone ∙ (rw at at e) in absurd (cc (here))
    | no other ↦ sound d' events q (sym (others d' other) ∙ e)
  ]

  -- What `epoll_ctl` may do at an entry for a live handler.
  ctl-IsSound :
      (op : EpollOp) (p d events : ℕ) (c : Connection) (s : Server S)
      → IsSound interest s
      → s.handlers p ≡ some c
      → c.sockfd ≡ d
      → op ≢ EpollOp.ctl_del
      → IsSound interest
          (record s { sys = (sys.epoll.epoll_ctl s.epollfd op d (entry events p) s.sys).1 })
  ctl-IsSound EpollOp.ctl_add p d events c s sound here same keep =
      elim (Option-cases (interest s.sys s.epollfd d)) [
        | inl absent ↦
            let others : (d' : ℕ)
                → d' ≢ d
                → interest
                    (sys.epoll.epoll_ctl s.epollfd EpollOp.ctl_add d (entry events p) s.sys).1
                    s.epollfd d'
                  ≡ interest s.sys s.epollfd d' =
              λ d' other.
                laws.epoll_laws.others s.epollfd d d' EpollOp.ctl_add (entry events p) s.sys
                  other in
            elim (laws.epoll_laws.add_new s.epollfd d (entry events p) s.sys absent) [
              | inl added ↦ listed p d events c s _ sound here same added.1 others
              | inr failed ↦ unlisted d s _ sound failed.1 others
            ]
        | inr (old, present) ↦
            rw (laws.epoll_laws.add_old s.epollfd d (entry events p) old s.sys present) sound
      ]
  ctl-IsSound EpollOp.ctl_mod p d events c s sound here same keep =
      elim (Option-cases (interest s.sys s.epollfd d)) [
        | inl absent ↦ rw (laws.epoll_laws.mod_new s.epollfd d (entry events p) s.sys absent) sound
        | inr (old, present) ↦
            listed p d events c s _ sound here same
              (laws.epoll_laws.mod_old s.epollfd d (entry events p) old s.sys present).1
              (λ d' other.
                laws.epoll_laws.others s.epollfd d d' EpollOp.ctl_mod (entry events p) s.sys other)
      ]
  ctl-IsSound EpollOp.ctl_del p d events c s sound here same keep = absurd (keep refl)

  -- An update of a handler's entry.
  updated :
      (p events : ℕ) (s : Server S) (o : Option Connection)
      → s.handlers p ≡ o
      → IsSound interest s
      → After
          (λ _ s'. IsSound interest s')
          (and_then (found o s) (λ c s'.
            call (sys.epoll.epoll_ctl s'.epollfd EpollOp.ctl_mod c.sockfd (entry events p)) s'))
  unfolding found call
  updated p events s none here sound = tt
  updated p events s (some c) here sound =
      ctl-IsSound EpollOp.ctl_mod p c.sockfd events c s sound here refl (λ e. cc e)

  pub watch_both-Preserves : (p : ℕ) → Preserves interest (watch_both sys p)
  unfolding watch_both update_inout w_epoll_update_ptr_inout load ◌>>=◌
  watch_both-Preserves p = record {
    keeps = λ s sound. updated p epollinout s (s.handlers p) refl sound;
  }

  pub watch_in-Preserves : (p : ℕ) → Preserves interest (watch_in sys p)
  unfolding watch_in update_in w_epoll_update_ptr_in load ◌>>=◌
  watch_in-Preserves p = record { keeps = λ s sound. updated p epollin s (s.handlers p) refl sound }

  -- A handler for a socket.
  HasSocket : ℕ → ℕ → Server S → Type 0
  HasSocket p d s = (c : Connection) × (s.handlers p ≡ some c) × (c.sockfd ≡ d)

  stored :
      (d p : ℕ) (garbage : Connection) (s : Server S)
      → IsSound interest s
      → s.handlers p ≡ none
      → After
          (λ q s'. IsSound interest s' × HasSocket q d s')
          ((store p (some (init_connection d garbage)) >> done p) s)
  unfolding HasSocket Unlisted init_connection store done ◌>>◌
  stored d p garbage s sound free = (
    store-IsSound sys interest laws p _ s (sound, fresh-IsClear sys interest laws p s free sound),
    (init_connection d garbage, rw (eq→== p p refl) refl, refl),
  )

  created :
      (d : ℕ) (s : Server S)
      → IsSound interest s
      → After (λ q s'. IsSound interest s' × HasSocket q d s') (connection_create sys d s)
  unfolding connection_create malloc_connection ◌>>=◌ or_die call store done ◌>>◌
  created d s sound = from_memory ((sys.malloc s.handlers s.sys).0) refl
    where
      from_memory :
          (memory : Option (ℕ × Connection))
          → (sys.malloc s.handlers s.sys).0 ≡ memory
          → After
              (λ q s'. IsSound interest s' × HasSocket q d s')
              ((or_die memory >>= λ new. store new.0 (some (init_connection d new.1)) >> done new.0)
                (record s { sys = (sys.malloc s.handlers s.sys).1 }))
      from_memory none e = tt
      from_memory (some (p, garbage)) e =
          stored d p garbage _
            (call-IsSound interest (sys.malloc s.handlers) s (laws.drops_malloc s.handlers) sound)
            (laws.malloc_new s.handlers s.sys p garbage e)

  added :
      (d p : ℕ) (s : Server S)
      → IsSound interest s × HasSocket p d s
      → After (λ _ s'. IsSound interest s') (add_in sys d p s)
  unfolding add_in w_epoll_add_ptr_in HasSocket call
  added d p s (sound, held) =
      ctl-IsSound EpollOp.ctl_add p d epollin held.0 s sound held.1 held.2 (λ e. cc e)

  create_and_add-Preserves :
      (d : ℕ)
      → Preserves interest (connection_create sys d >>= λ p. add_in sys d p >>= λ rc. die (not rc))
  unfolding ◌>>=◌
  create_and_add-Preserves d = record {
    keeps = λ s sound.
        After-and_then (λ q s'. IsSound interest s' × HasSocket q d s')
          (λ _ s'. IsSound interest s') (connection_create sys d s) _ (created d s sound)
          (λ p s1 h1.
            After-and_then (λ _ s'. IsSound interest s') (λ _ s'. IsSound interest s')
              (add_in sys d p s1) _ (added d p s1 h1)
              (λ rc s2 h2. (die-Preserves (not rc)).keeps s2 h2));
  }

  accept-Preserves : Preserves interest (accept sys)
  unfolding accept call
  accept-Preserves = record {
    keeps = λ s sound.
        call-IsSound interest (sys.accept s.listenfd) s (laws.drops_accept s.listenfd) sound;
  }

  pub handle_new_connection-Preserves : Preserves interest (handle_new_connection sys)
  unfolding handle_new_connection
  handle_new_connection-Preserves =
      search
        (
          >>=-Preserves, accept-Preserves, or_die-Preserves, call-Preserves,
          create_and_add-Preserves, laws.drops_setsockopt, laws.drops_get_flags,
          laws.drops_set_flags,
        )
        depth 16
