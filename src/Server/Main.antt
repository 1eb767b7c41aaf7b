-- ===== src/Server/Main.antt =====
-- Homeworks/Asynchronous_Web_Server/aws.c: `main`.
use Prim.Native.Nat.{bit_and}
use so.Common.{ℕ, zero, suc, ◌%◌, ◌^◌, Bool, true, false, not, Option, none, some, List, ◌==◌}
use so.Server.Types.{aws_listen_port, default_listen_backlog}
use so.Server.System.{System}
use so.Server.Monad.{M, Outcome, ◌>>=◌, ◌>>◌, done, call, die, or_die}
use so.Server.Epoll.{
  EpollData, fd, ptr, EpollEvent, epollin, epollout, w_epoll_create, w_epoll_add_fd_in,
  w_epoll_wait_infinite,
}
use so.Server.Sockets.{tcp_create_listener}
use so.Server.Connection.{handle_new_connection}
use so.Server.Request.{handle_client_request}
use so.Server.Reply.{send_message}

-- The union read as a descriptor, of 32 bits, and as a pointer.
abbrev pub as_fd : EpollData → ℕ
as_fd (fd d) = d
as_fd (ptr p) = p % 2 ^ 32

abbrev pub as_ptr : EpollData → ℕ
as_ptr (fd d) = d
as_ptr (ptr p) = p

-- `events & flag`
abbrev pub has_event : ℕ → ℕ → Bool
has_event events flag = not (bit_and events flag == 0)

module _ {S : Type 0} (sys : System S) where
  -- `main` before its loop.
  unfoldable pub set_epollfd : ℕ → M S (Unit {0})
  set_epollfd e s = Outcome.returns tt (record s { epollfd = e })

  unfoldable pub set_listenfd : ℕ → M S (Unit {0})
  set_listenfd d s = Outcome.returns tt (record s { listenfd = d })

  unfoldable pub main_init : M S (Unit {0})
  unfolding w_epoll_create tcp_create_listener w_epoll_add_fd_in set_epollfd set_listenfd
  main_init = do
    created ← call (w_epoll_create sys.epoll)
    epollfd ← or_die created
    set_epollfd epollfd
    listenfd ← tcp_create_listener sys aws_listen_port default_listen_backlog
    set_listenfd listenfd
    rc ← call (w_epoll_add_fd_in sys.epoll epollfd listenfd)
    die (not rc)

  -- `if (test) handler`
  unfoldable pub when : Bool → M S (Unit {0}) → M S (Unit {0})
  when true m = m
  when false m = done tt

  unfoldable pub send_reply : ℕ → ℕ → M S (Unit {0})
  unfolding send_message
  send_reply fuel p = do state ← send_message sys fuel p; done tt

  -- The body of the loop behind `w_epoll_wait_infinite`; the test says whether the event is the
  -- listener's.
  unfoldable pub handle_event : ℕ → List ℕ → List ℕ → EpollEvent → Bool → M S (Unit {0})
  unfolding when handle_new_connection handle_client_request send_reply
  handle_event fuel behind more rev true =
      when (has_event rev.events epollin) (handle_new_connection sys)
  handle_event fuel behind more rev false = do
    when (has_event rev.events epollin) (handle_client_request sys behind more (as_ptr rev.udata))
    when (has_event rev.events epollout) (send_reply fuel (as_ptr rev.udata))

  unfoldable pub dispatch : ℕ → List ℕ → List ℕ → EpollEvent → M S (Unit {0})
  unfolding handle_event
  dispatch fuel behind more rev s =
      handle_event fuel behind more rev (as_fd rev.udata == s.listenfd) s

  unfoldable pub wait_event : M S (Option (Option EpollEvent))
  unfolding w_epoll_wait_infinite
  wait_event s = call (w_epoll_wait_infinite sys.epoll s.epollfd) s

  -- A wait without a limit that succeeds returns an event; with none, `rev` is not written.
  unfoldable pub on_wait : ℕ → List ℕ → List ℕ → Option EpollEvent → M S (Unit {0})
  unfolding dispatch
  on_wait fuel behind more none s = Outcome.fault
  on_wait fuel behind more (some rev) s = dispatch fuel behind more rev s

  -- A round of the loop.
  unfoldable pub main_round : ℕ → List ℕ → List ℕ → M S (Unit {0})
  main_round fuel behind more = do
    rc ← wait_event
    event ← or_die rc
    on_wait fuel behind more event

  -- `n` rounds; the bytes of the stack are those of the round.
  unfoldable pub main_loop : ℕ → (ℕ → List ℕ × List ℕ) → ℕ → M S (Unit {0})
  main_loop fuel stack zero = done tt
  main_loop fuel stack (suc n) = do main_round fuel (stack n).0 (stack n).1; main_loop fuel stack n

  -- `main`, up to the end of its `n`th round.
  unfoldable pub main : ℕ → (ℕ → List ℕ × List ℕ) → ℕ → M S (Unit {0})
  unfolding main_init main_loop
  main fuel stack n = do main_init; main_loop fuel stack n
