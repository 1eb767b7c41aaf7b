-- ===== src/Server/Safety/Lifecycle.antt =====
-- A connection of aws.c from its start to its end.
use so.Common.{false, ℕ, ◌≡◌, inl, inr, refl, ap, ◌∙◌, Option, none, some}
use so.Server.Types.{
  Handlers, set_handler, set_handler-again, ConnectionState, connection_closed, Connection,
}
use so.Server.System.{System, Drops, IsSystem}
use so.Server.Epoll.{EpollData, EpollOp, EpollEvent, epollin, w_epoll_remove_ptr}
use so.Server.Monad.{
  Server, Outcome, returns, ◌>>=◌, ◌>>◌, done, call, die, found, load, store, modify,
}
use so.Server.Connection.{close_file, connection_remove, remove_ptr, remove_connection}

-- A connection on the socket `d` that has read and sent nothing, with buffers of zeros.
pub record IsFresh (d : ℕ) (c : Connection) : Type 0 where
  pub sockfd : c.sockfd ≡ d
  pub recv_len : c.recv_len ≡ 0
  pub header_is_written : c.header_is_written ≡ false
  pub recv_buffer : (i : ℕ) → c.recv_buffer i ≡ 0
  pub send_buffer : (i : ℕ) → c.send_buffer i ≡ 0

module _ {S : Type 0} (sys : System S) (interest : S → ℕ → ℕ → Option EpollEvent)
    (laws : IsSystem sys interest) where
  -- A descriptor that is not in an interest list stays out of it.
  stays_out :
      {A : Type 0} {f : S → A × S} (s : S) (ep d : ℕ)
      → Drops interest f
      → interest s ep d ≡ none
      → interest (f s).1 ep d ≡ none
  stays_out s ep d drops out = elim (drops.drops s ep d) [ inl gone ↦ gone | inr same ↦ same ∙ out ]

  -- `close` on a handler's file, if it has one.
  close_file-returns :
      (file : Option ℕ) (s : Server S) (d : ℕ)
      → interest s.sys s.epollfd d ≡ none
      → (final : S) × (close_file sys file s ≡ returns tt (record s { sys = final }))
        × (interest final s.epollfd d ≡ none)
  unfolding close_file ◌>>=◌ call done
  close_file-returns none s d out = (s.sys, refl, out)
  close_file-returns (some f) s d out =
      ((sys.close f s.sys).1, refl, stays_out s.sys s.epollfd d (laws.drops_close f) out)

  -- With a handler whose socket is in the interest list, the code at the label `remove_connection` ends:
  -- the handler is freed, the socket is out of the interest list, and the other handlers are as they
  -- were.
  pub remove_connection-closes :
      (p : ℕ) (c : Connection) (old : EpollEvent) (s : Server S)
      → s.handlers p ≡ some c
      → interest s.sys s.epollfd c.sockfd ≡ some old
      → (final : S) × (remove_connection sys p s
          ≡ returns connection_closed
              (record s { handlers = set_handler s.handlers p none; sys = final }))
        × (interest final s.epollfd c.sockfd ≡ none)
  unfolding remove_connection connection_remove remove_ptr w_epoll_remove_ptr ◌>>=◌ ◌>>◌ call die
      load found done modify store
  remove_connection-closes p c old s live watched =
      let event : EpollEvent = record { events = epollin; udata = EpollData.ptr p } in
      let removed = laws.epoll_laws.del_old s.epollfd c.sockfd event old s.sys watched in
      let t1 = (sys.epoll.epoll_ctl s.epollfd EpollOp.ctl_del c.sockfd event s.sys).1 in
      let t2 = (sys.shutdown c.sockfd t1).1 in
      let out = stays_out t1 s.epollfd c.sockfd (laws.drops_shutdown c.sockfd) (removed.1) in
      let closed = close_file-returns c.file (record s { sys = t2 }) c.sockfd out in
      let leave : Handlers → Outcome S ConnectionState =
        λ h. returns connection_closed (record s { handlers = h; sys = closed.0 }) in
      (
        closed.0,
        rw live (
            rw (removed.0) (
              rw live (
                rw (closed.1) (
                  rw live (
                    ap leave (
                      set_handler-again s.handlers p (some (record c { state = connection_closed }))
                        none)))))),
        closed.2,
      )
