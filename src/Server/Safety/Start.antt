-- ===== src/Server/Safety/Start.antt =====
-- `main` of aws.c, from its start.
use so.Common.{
  ℕ, ◌≡◌, refl, sym, ap, ◌∙◌, inl, inr, Bool, true, false, not, Option, none, some, List, arith,
}
use native.Mathlib.Decide.{ℕ_discrete}
use mathlib.Core.Option.{none-ne-some}
use so.Server.System.{System, Drops, IsSystem}
use so.Server.Types.{aws_listen_port, default_listen_backlog}
use so.Server.Epoll.{EpollData, EpollOp, EpollEvent, epollin, w_epoll_create, w_epoll_add_fd_in}
use so.Server.Monad.{Server, M, ◌>>=◌, ◌>>◌, done, call, die, or_die}
use so.Server.Sockets.{tcp_create_listener}
use so.Server.Main.{set_epollfd, set_listenfd, main_init, main_loop, main}
use so.Server.Safety.{After, After-and_then, IsSound}
use so.Server.Safety.Rounds.{main_loop-IsSound}

-- No descriptor is in an interest list yet, and the server's epoll descriptor is `e`.
pub record IsUnwatched {S : Type 0} (interest : S → ℕ → ℕ → Option EpollEvent) (e : ℕ)
    (s : Server S) : Type 0 where
  pub empty : (ep d : ℕ) → interest s.sys ep d ≡ none
  pub current : s.epollfd ≡ e

-- Code that leaves it so, whenever it returns.
record Quiet {S A : Type 0} (interest : S → ℕ → ℕ → Option EpollEvent) (e : ℕ) (m : M S A)
    : Type 0 where
  keeps :
      (s : Server S) → IsUnwatched interest e s → After (λ _ s'. IsUnwatched interest e s') (m s)

module _ {S : Type 0} {interest : S → ℕ → ℕ → Option EpollEvent} {e : ℕ} where
  >>=-Quiet :
      {A B : Type 0} {m : M S A} {f : A → M S B}
      → Quiet interest e m
      → ((a : A) → Quiet interest e (f a))
      → Quiet interest e (m >>= f)
  unfolding ◌>>=◌
  >>=-Quiet {A} {B} {m} {f} first rest = record {
    keeps = λ s quiet.
        After-and_then (λ _ s'. IsUnwatched interest e s') (λ _ s'. IsUnwatched interest e s') (m s)
          f (first.keeps s quiet) (λ a s' quiet'. (rest a).keeps s' quiet');
  }

  >>-Quiet :
      {B : Type 0} {m : M S (Unit {0})} {k : M S B}
      → Quiet interest e m
      → Quiet interest e k
      → Quiet interest e (m >> k)
  unfolding ◌>>◌
  >>-Quiet {B} {m} {k} first rest = record {
    keeps = λ s quiet.
        After-and_then (λ _ s'. IsUnwatched interest e s') (λ _ s'. IsUnwatched interest e s') (m s)
          (λ _. k) (first.keeps s quiet) (λ a s' quiet'. rest.keeps s' quiet');
  }

  done-Quiet : {A : Type 0} (a : A) → Quiet interest e (done a)
  unfolding done
  done-Quiet a = record { keeps = λ s quiet. quiet }

  call-Quiet : {A : Type 0} (f : S → A × S) → Drops interest f → Quiet interest e (call f)
  unfolding call
  call-Quiet f drops = record {
    keeps = λ s quiet. record { empty = λ ep d. still_empty s quiet ep d; current = quiet.current };
  }
    where
      still_empty :
          (s : Server S) → IsUnwatched interest e s → (ep d : ℕ) → interest (f s.sys).1 ep d ≡ none
      still_empty s quiet ep d = elim (drops.drops s.sys ep d) [
        | inl gone ↦ gone
        | inr same ↦ same ∙ quiet.empty ep d
      ]

  die-Quiet : (b : Bool) → Quiet interest e (die b)
  unfolding die
  die-Quiet true = record { keeps = λ s quiet. tt }
  die-Quiet false = record { keeps = λ s quiet. quiet }

  or_die-Quiet : {A : Type 0} (o : Option A) → Quiet interest e (or_die o)
  unfolding or_die
  or_die-Quiet none = record { keeps = λ s quiet. tt }
  or_die-Quiet (some a) = record { keeps = λ s quiet. quiet }

module _ {S : Type 0} (sys : System S) (interest : S → ℕ → ℕ → Option EpollEvent)
    (laws : IsSystem sys interest) where
  tcp_create_listener-Quiet :
      (e port backlog : ℕ) → Quiet interest e (tcp_create_listener sys port backlog)
  unfolding tcp_create_listener
  tcp_create_listener-Quiet e port backlog = >>=-Quiet (call-Quiet _ laws.drops_socket) (λ sock.
      >>=-Quiet (or_die-Quiet sock) (λ l.
        >>=-Quiet (call-Quiet _ (laws.drops_setsockopt l _)) (λ rc1. >>-Quiet (die-Quiet _) (
          >>=-Quiet (call-Quiet _ (laws.drops_bind l _)) (λ rc2. >>-Quiet (die-Quiet _) (
            >>=-Quiet (call-Quiet _ (laws.drops_listen l _))
              (λ rc3. >>-Quiet (die-Quiet _) (done-Quiet l))))))))

  -- The listener's entry is no handler's.
  listening :
      (e l : ℕ) (s : Server S)
      → IsUnwatched interest e s
      → After
          (λ _ s'. IsSound interest s')
          ((call (w_epoll_add_fd_in sys.epoll e l) >>= λ rc. die (not rc)) s)
  unfolding w_epoll_add_fd_in ◌>>=◌ call die IsSound
  listening e l s unwatched =
      let event : EpollEvent = record { events = epollin; udata = EpollData.fd l } in
      let added = laws.epoll_laws.add_new e l event s.sys (unwatched.empty e l) in
      let others = laws.epoll_laws.others e l in
      let lists = (sys.epoll.epoll_ctl e EpollOp.ctl_add l event s.sys).1 in
      elim added [
        | inr failed ↦ rw (failed.0) tt
        | inl listed ↦ rw (listed.0) (λ d events p entry.
            let entry' : interest lists e d
                ≡ some (record { events = events; udata = EpollData.ptr p }) =
              ap (λ (ep : ℕ). interest lists ep d) (sym unwatched.current) ∙ entry in
            elim (ℕ_discrete d l) [
              | yes this ↦
                  let same : interest lists e d ≡ interest lists e l =
                    ap (λ (k : ℕ). interest lists e k) this in
                  absurd (grind (arith, same, entry', listed.1))
              | no other ↦
                  let still = others d EpollOp.ctl_add event s.sys other in
                  absurd (
                    none-ne-some (record { events = events; udata = EpollData.ptr p })
                      (sym (unwatched.empty e d) ∙ sym still ∙ entry'))
            ])
      ]

  -- `main` before its loop, from the result of `epoll_create` on.
  from_epoll :
      (o : Option ℕ) (s : Server S)
      → ((ep d : ℕ) → interest s.sys ep d ≡ none)
      → After
          (λ _ s'. IsSound interest s')
          ((or_die o >>= λ e.
              (set_epollfd sys e
                >> (tcp_create_listener sys aws_listen_port default_listen_backlog >>= λ l.
                    (set_listenfd sys l
                      >> (call (w_epoll_add_fd_in sys.epoll e l) >>= λ rc. die (not rc))))))
            s)
  unfolding or_die set_epollfd set_listenfd ◌>>=◌ ◌>>◌
  from_epoll none s empty = tt
  from_epoll (some e) s empty =
      let s1 : Server S = record s { epollfd = e } in
      let setup =
        (tcp_create_listener-Quiet e aws_listen_port default_listen_backlog).keeps s1
          (record { empty = empty; current = refl }) in
      After-and_then (λ _ s'. IsUnwatched interest e s') (λ _ s'. IsSound interest s')
        (tcp_create_listener sys aws_listen_port default_listen_backlog s1)
        (λ l.
          (set_listenfd sys l >> (call (w_epoll_add_fd_in sys.epoll e l) >>= λ rc. die (not rc))))
        setup
        (λ l s' u.
          listening e l (record s' { listenfd = l })
            (record { empty = u.empty; current = u.current }))

  main_init-IsSound :
      (s : Server S)
      → ((ep d : ℕ) → interest s.sys ep d ≡ none)
      → After (λ _ s'. IsSound interest s') (main_init sys s)
  unfolding main_init w_epoll_create ◌>>=◌ call
  main_init-IsSound s empty =
      from_epoll (sys.epoll.epoll_create 10 s.sys).0
        (record s { sys = (sys.epoll.epoll_create 10 s.sys).1 }) (λ ep d. out ep d)
    where
      out : (ep d : ℕ) → interest (sys.epoll.epoll_create 10 s.sys).1 ep d ≡ none
      out ep d = elim ((laws.drops_epoll_create 10).drops s.sys ep d) [
        | inl gone ↦ gone
        | inr same ↦ same ∙ empty ep d
      ]

  -- From a system with empty interest lists, whatever it answers within IsSystem: when `main` waits for its next event,
  -- after any number of rounds, its interest list points only to live handlers, each with its entry's
  -- descriptor.
  pub main-IsSound :
      (fuel : ℕ) (stack : ℕ → List ℕ × List ℕ) (n : ℕ) (s : Server S)
      → ((ep d : ℕ) → interest s.sys ep d ≡ none)
      → After (λ _ s'. IsSound interest s') (main sys fuel stack n s)
  unfolding main ◌>>◌
  main-IsSound fuel stack n s empty =
      After-and_then (λ _ s'. IsSound interest s') (λ _ s'. IsSound interest s') (main_init sys s)
        (λ _. main_loop sys fuel stack n) (main_init-IsSound s empty)
        (λ _ s' sound. main_loop-IsSound sys interest laws fuel stack n s' sound)
