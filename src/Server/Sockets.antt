-- ===== src/Server/Sockets.antt =====
-- Homeworks/Asynchronous_Web_Server/sock_util.c.
use so.Common.{
  ℕ, zero, suc, ◌+◌, ◌/◌, ◌%◌, Bool, not, Option, none, some, List, [], ◌∷◌, ◌++◌, length, leb,
  if◌then◌else◌,
}
use so.Server.System.{System, SocketOption}
use so.Server.Monad.{M, Outcome, ◌>>=◌, ◌>>◌, done, call, die, or_die, branch}

-- `%d` of `sprintf`, in at most `fuel` further digits.
unfoldable pub decimal : ℕ → ℕ → List ℕ
decimal zero n = (48 + n % 10) ∷ []
decimal (suc fuel) n =
    let more = decimal fuel (n / 10) in
    if leb 10 n then more ++ (48 + n % 10) ∷ [] else (48 + n) ∷ []

-- `"%s:%d"`: a port has five digits at most.
unfoldable pub peer_text : List ℕ → ℕ → List ℕ
unfolding decimal
peer_text host port = host ++ b':' ∷ decimal 4 port

module _ {S : Type 0} (sys : System S) where
  unfoldable pub tcp_connect_to_server : List ℕ → ℕ → M S ℕ
  tcp_connect_to_server name port = do
    hent ← call (sys.gethostbyname name)
    address ← or_die hent
    sock ← call sys.socket
    s ← or_die sock
    rc ← call (sys.connect s address port)
    die (not rc)
    done s

  -- The Boolean is the result of `close`.
  unfoldable pub tcp_close_connection : ℕ → M S Bool
  tcp_close_connection sockfd = do
    rc ← call (sys.shutdown sockfd)
    die (not rc)
    call (sys.close sockfd)

  unfoldable pub tcp_create_listener : ℕ → ℕ → M S ℕ
  tcp_create_listener port backlog = do
    sock ← call sys.socket
    listenfd ← or_die sock
    rc1 ← call (sys.setsockopt listenfd (SocketOption.so_reuseaddr 1))
    die (not rc1)
    rc2 ← call (sys.bind listenfd port)
    die (not rc2)
    rc3 ← call (sys.listen listenfd backlog)
    die (not rc3)
    done listenfd

  -- From the result of `getpeername` on. `sprintf` does not look at `len`, the size of `buf`.
  unfoldable pub write_peer : ℕ → Option (List ℕ × ℕ) → M S (Option (List ℕ))
  unfolding peer_text
  write_peer len none = done none
  write_peer len (some (host, port)) =
      branch (leb (suc (length (peer_text host port))) len) (done (some (peer_text host port)))
        (λ _. Outcome.fault)

  -- The text that `buf` holds, `none` for -1.
  unfoldable pub get_peer_address : ℕ → ℕ → M S (Option (List ℕ))
  unfolding write_peer
  get_peer_address sockfd len = call (sys.getpeername sockfd) >>= write_peer len
