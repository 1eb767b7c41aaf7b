-- ===== src/Server/Connection.antt =====
-- Homeworks/Asynchronous_Web_Server/aws.c: how a connection comes, is read from, and goes. Logging is
-- left out.
use Prim.Native.Nat.{bit_or}
use so.Common.{ℕ, Bool, false, not, Option, none, some, List, [], ◌∷◌, length}
use so.Server.Types.{
  zeros, overlay, bufsiz, ConnectionState, data_received, connection_closed, Connection,
}
use so.Server.System.{System, SocketOption}
use so.Server.Monad.{M, ◌>>=◌, ◌>>◌, done, call, die, or_die, load, store, modify}
use so.Server.Epoll.{w_epoll_add_ptr_in, w_epoll_remove_ptr}
use so.Server.Sockets.{get_peer_address}

-- What `connection_create` makes of fresh memory: the other fields keep what it holds.
unfoldable pub init_connection : ℕ → Connection → Connection
init_connection sockfd garbage = record garbage {
  sockfd = sockfd;
  recv_len = 0;
  header_is_written = false;
  recv_buffer = zeros;
  send_buffer = zeros;
}

module _ {S : Type 0} (sys : System S) where
  -- `malloc`, which looks for memory that no handler takes.
  unfoldable pub malloc_connection : M S (Option (ℕ × Connection))
  malloc_connection s = call (sys.malloc s.handlers) s

  unfoldable pub connection_create : ℕ → M S ℕ
  unfolding init_connection malloc_connection
  connection_create sockfd = do
    memory ← malloc_connection
    new ← or_die memory
    store new.0 (some (init_connection sockfd new.1))
    done new.0

  -- `if (conn->file != -1) close(conn->file);`
  unfoldable pub close_file : Option ℕ → M S (Unit {0})
  close_file none = done tt
  close_file (some f) = do rc ← call (sys.close f); done tt

  unfoldable pub connection_remove : ℕ → M S (Unit {0})
  unfolding close_file
  connection_remove p = do
    c ← load p
    rc ← call (sys.shutdown c.sockfd)
    close_file c.file
    modify p (λ c'. record c' { state = connection_closed })
    store p none

  -- The system's calls for the epoll descriptor of the server.
  unfoldable pub add_in : ℕ → ℕ → M S Bool
  unfolding w_epoll_add_ptr_in
  add_in d p s = call (w_epoll_add_ptr_in sys.epoll s.epollfd d p) s

  unfoldable pub remove_ptr : ℕ → ℕ → M S Bool
  unfolding w_epoll_remove_ptr
  remove_ptr d p s = call (w_epoll_remove_ptr sys.epoll s.epollfd d p) s

  unfoldable pub accept : M S (Option ℕ)
  accept s = call (sys.accept s.listenfd) s

  -- `linger_opt` is on, with 100 seconds; O_NONBLOCK is 2048.
  unfoldable pub handle_new_connection : M S (Unit {0})
  unfolding accept connection_create add_in
  handle_new_connection = do
    sock ← accept
    sockfd ← or_die sock
    rc1 ← call (sys.setsockopt sockfd (SocketOption.tcp_nodelay 1))
    rc2 ← call (sys.setsockopt sockfd (SocketOption.so_linger 1 100))
    flags ← call (sys.get_flags sockfd)
    rc3 ← call (sys.set_flags sockfd (bit_or flags 2048))
    p ← connection_create sockfd
    rc ← add_in sockfd p
    die (not rc)

  -- From the label `remove_connection` on, in `receive_message` and `send_message`.
  unfoldable pub remove_connection : ℕ → M S ConnectionState
  unfolding remove_ptr connection_remove
  remove_connection p = do
    c ← load p
    rc ← remove_ptr c.sockfd p
    die (not rc)
    connection_remove p
    done connection_closed

  -- From the result of `recv` on.
  unfoldable pub take_message : ℕ → Option (List ℕ) → M S ConnectionState
  unfolding remove_connection
  take_message p none = remove_connection p
  take_message p (some []) = remove_connection p
  take_message p (some (b ∷ bytes)) = do
    modify p (λ c. record c {
      recv_buffer = overlay (b ∷ bytes) c.recv_buffer;
      recv_len = length (b ∷ bytes);
      state = data_received;
    })
    done data_received

  -- From the result of `get_peer_address` on.
  unfoldable pub receive_from : ℕ → Option (List ℕ) → M S ConnectionState
  unfolding take_message
  receive_from p none = remove_connection p
  receive_from p (some peer) = do
    c ← load p
    message ← call (sys.recv c.sockfd bufsiz)
    take_message p message

  unfoldable pub receive_message : ℕ → M S ConnectionState
  unfolding receive_from get_peer_address
  receive_message p = do c ← load p; peer ← get_peer_address sys c.sockfd 64; receive_from p peer
