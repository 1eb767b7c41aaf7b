-- ===== src/Server/Reply.antt =====
-- Homeworks/Asynchronous_Web_Server/aws.c: `send_message`.
use so.Common.{ℕ, zero, suc, ◌+◌, ◌-◌, Bool, true, false, not, Option, none, some, List, ltb, ◌&&◌}
use so.Server.Types.{
  slice, ConnectionState, data_received, data_sent, connection_closed, Connection,
}
use so.Server.System.{System}
use so.Server.Monad.{M, ◌>>=◌, ◌>>◌, done, call, die, load, modify, branch}
use so.Server.Epoll.{w_epoll_update_ptr_in}
use so.Server.Sockets.{get_peer_address}
use so.Server.Connection.{remove_connection}
use so.Server.Files.{out_of_fuel, send_file_by_type}

module _ {S : Type 0} (sys : System S) where
  -- What the loop does with the result of `send`.
  unfoldable pub after_send : (ℕ → M S Bool) → Option ℕ → M S Bool
  after_send next none = done false
  after_send next (some zero) = done false
  after_send next (some (suc n)) = next (suc n)

  -- The loop that sends the header; `false` if it goes to `remove_connection`.
  unfoldable pub header_loop : ℕ → Connection → ℕ → M S Bool
  unfolding after_send
  header_loop zero c total = out_of_fuel
  header_loop (suc fuel) c total =
      branch (not c.header_is_written && ltb total c.send_len)
        (do
          sent ← call (sys.send c.sockfd (slice c.send_buffer total (c.send_len - total)))
          after_send (λ n. header_loop fuel c (total + n)) sent)
        (done true)

  unfoldable pub update_in : ℕ → ℕ → M S Bool
  unfolding w_epoll_update_ptr_in
  update_in d p s = call (w_epoll_update_ptr_in sys.epoll s.epollfd d p) s

  -- `w_epoll_update_ptr_in(epollfd, conn->sockfd, conn)`
  unfoldable pub watch_in : ℕ → M S Bool
  unfolding update_in
  watch_in p = do c ← load p; update_in c.sockfd p

  -- From the comment `all done` on.
  unfoldable pub keep_connection : ℕ → M S ConnectionState
  keep_connection p = do
    rc ← watch_in p
    die (not rc)
    modify p (λ c. record c { state = data_sent })
    done data_sent

  -- From the test of the state behind the file on.
  unfoldable pub finish_reply : ℕ → ConnectionState → M S ConnectionState
  finish_reply p data_sent = remove_connection sys p
  finish_reply p data_received = keep_connection p
  finish_reply p connection_closed = keep_connection p

  -- `if (conn->header_is_written && conn->file != FILE_NOT_FOUND) send_file_by_type(conn);`
  unfoldable pub send_content : ℕ → ℕ → Option ℕ → M S (Unit {0})
  unfolding send_file_by_type
  send_content fuel p none = done tt
  send_content fuel p (some file) = send_file_by_type sys fuel p

  -- From the end of the loop on.
  unfoldable pub after_header : ℕ → ℕ → Bool → M S ConnectionState
  unfolding finish_reply send_content
  after_header fuel p false = remove_connection sys p
  after_header fuel p true = do
    modify p (λ c. record c { header_is_written = true })
    c ← load p
    send_content fuel p c.file
    c' ← load p
    finish_reply p c'.state

  -- From the result of `get_peer_address` on.
  unfoldable pub reply_to : ℕ → ℕ → Option (List ℕ) → M S ConnectionState
  reply_to fuel p none = remove_connection sys p
  reply_to fuel p (some peer) = do c ← load p; sent ← header_loop fuel c 0; after_header fuel p sent

  unfoldable pub reply_in_state : ℕ → ℕ → ConnectionState → ℕ → M S ConnectionState
  unfolding reply_to get_peer_address
  reply_in_state fuel p connection_closed sockfd = done connection_closed
  reply_in_state fuel p data_received sockfd = do
    peer ← get_peer_address sys sockfd 64
    reply_to fuel p peer
  reply_in_state fuel p data_sent sockfd = do
    peer ← get_peer_address sys sockfd 64
    reply_to fuel p peer

  unfoldable pub send_message : ℕ → ℕ → M S ConnectionState
  unfolding reply_in_state
  send_message fuel p = do c ← load p; reply_in_state fuel p c.state c.sockfd
