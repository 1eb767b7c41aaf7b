-- ===== src/Server/Safety/Dangling.antt =====
-- The event of aws.c whose request ends the connection.
use so.Common.{ℕ, ◌≡◌, refl, ap, true, false, Option, none, some, List}
use so.Server.Types.{set_handler-same, Connection}
use so.Server.System.{System, IsSystem}
use so.Server.Epoll.{EpollEvent, epollin, epollout, epollinout}
use so.Server.Monad.{Server, fault, ◌>>=◌, ◌>>◌, done, call, load, found}
use so.Server.Sockets.{get_peer_address, write_peer}
use so.Server.Connection.{receive_from, receive_message}
use so.Server.Request.{answer, handle_client_request}
use so.Server.Reply.{send_message}
use so.Server.Main.{as_ptr, has_event, when, send_reply, handle_event}
use so.Server.Safety.Lifecycle.{remove_connection-closes}

module _ {S : Type 0} (sys : System S) (interest : S → ℕ → ℕ → Option EpollEvent)
    (laws : IsSystem sys interest) where
  -- On an event for reading and writing of a connection that `getpeername` does not know any more, while
  -- its socket is in the interest list, the server frees the handler and then reads it.
  pub handle_event-faults :
      (fuel : ℕ) (behind more : List ℕ) (rev old : EpollEvent) (c : Connection) (s : Server S)
      → rev.events ≡ epollinout
      → s.handlers (as_ptr rev.udata) ≡ some c
      → (sys.getpeername c.sockfd s.sys).0 ≡ none
      → interest (sys.getpeername c.sockfd s.sys).1 s.epollfd c.sockfd ≡ some old
      → handle_event sys fuel behind more rev false s ≡ fault
  unfolding handle_event when handle_client_request receive_message receive_from get_peer_address
      write_peer answer send_reply send_message ◌>>=◌ ◌>>◌ done call load found
  handle_event-faults fuel behind more rev old c s both live gone watched =
      let p = as_ptr rev.udata in
      let t = (sys.getpeername c.sockfd s.sys).1 in
      let closed =
        remove_connection-closes sys interest laws p c old (record s { sys = t }) live watched in
      let reads : has_event rev.events epollin ≡ true = ap (λ (n : ℕ). has_event n epollin) both in
      let writes : has_event rev.events epollout ≡ true =
        ap (λ (n : ℕ). has_event n epollout) both in
      rw (reads) (
        rw live
          (rw (gone) (rw (closed.1) (rw (writes) (rw (set_handler-same s.handlers p none) refl)))))
