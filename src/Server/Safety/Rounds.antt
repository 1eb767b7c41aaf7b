-- ===== src/Server/Safety/Rounds.antt =====
-- Every part of aws.c keeps the interest list sound.
use so.Common.{◌==◌, ℕ, zero, suc, Bool, true, false, Option, none, some, List, [], ◌∷◌}
use so.Server.Types.{Connection, ConnectionState, data_received, data_sent, connection_closed}
use so.Server.System.{System, IsSystem}
use so.Server.Epoll.{EpollEvent, w_epoll_wait_infinite}
use so.Server.Monad.{Server, M, call}
use so.Server.Sockets.{get_peer_address, write_peer}
use so.Server.Connection.{remove_connection, take_message, receive_from, receive_message}
use so.Server.Files.{get_file_sz}
use so.Server.Reply.{
  after_send, header_loop, finish_reply, watch_in, keep_connection, send_content, after_header,
  reply_to, reply_in_state, send_message,
}
use so.Server.Request.{
  open_path, set_connection_path_and_file, set_connection_send_buffer, parse_path, watch_both,
  respond, answer, handle_client_request,
}
use so.Server.Main.{
  as_fd, when, send_reply, handle_event, dispatch, wait_event, on_wait, main_round, main_loop,
}
use so.Server.Safety.{After, call-IsSound, >>-Preserves, IsSound, Preserves, preserves}
use so.Server.Safety.Sending.{send_content-Preserves}
use so.Server.Safety.Lifetimes.{remove_connection-Preserves}
use so.Server.Safety.Listing.{
  handle_new_connection-Preserves, watch_both-Preserves, watch_in-Preserves,
}

module _ {S : Type 0} (sys : System S) (interest : S → ℕ → ℕ → Option EpollEvent)
    (laws : IsSystem sys interest) where
  remove_lem : (p : ℕ) → Preserves interest (remove_connection sys p)
  remove_lem = remove_connection-Preserves sys interest laws

  write_peer_lem :
      (len : ℕ) (peer : Option (List ℕ × ℕ)) → Preserves interest (write_peer sys len peer)
  unfolding write_peer
  write_peer_lem len none = search (preserves)
  write_peer_lem len (some (host, port)) = search (preserves)

  peer_lem : (d len : ℕ) → Preserves interest (get_peer_address sys d len)
  unfolding get_peer_address
  peer_lem d len = search (preserves, write_peer_lem, laws.drops_getpeername) depth 10

  take_message_lem : (p : ℕ) (m : Option (List ℕ)) → Preserves interest (take_message sys p m)
  unfolding take_message
  take_message_lem p none = remove_lem p
  take_message_lem p (some []) = remove_lem p
  take_message_lem p (some (b ∷ bytes)) = search (preserves) depth 10

  receive_from_lem : (p : ℕ) (a : Option (List ℕ)) → Preserves interest (receive_from sys p a)
  unfolding receive_from
  receive_from_lem p none = remove_lem p
  receive_from_lem p (some a) = search (preserves, take_message_lem, laws.drops_recv) depth 10

  receive_message_lem : (p : ℕ) → Preserves interest (receive_message sys p)
  unfolding receive_message
  receive_message_lem p = search (preserves, peer_lem, receive_from_lem) depth 10

  content_lem : (fuel p : ℕ) (file : Option ℕ) → Preserves interest (send_content sys fuel p file)
  content_lem = send_content-Preserves sys interest laws

  after_send_lem :
      (next : ℕ → M S Bool) (sent : Option ℕ)
      → ((n : ℕ) → Preserves interest (next n))
      → Preserves interest (after_send sys next sent)
  unfolding after_send
  after_send_lem next none h = search (preserves)
  after_send_lem next (some zero) h = search (preserves)
  after_send_lem next (some (suc n)) h = h (suc n)

  header_loop_lem :
      (fuel : ℕ) (c : Connection) (t : ℕ) → Preserves interest (header_loop sys fuel c t)
  unfolding header_loop
  header_loop_lem zero c t = search (preserves)
  header_loop_lem (suc fuel) c t =
      search (preserves, laws.drops_send, after_send_lem, header_loop_lem fuel) depth 12

  watch_in_lem : (p : ℕ) → Preserves interest (watch_in sys p)
  watch_in_lem = watch_in-Preserves sys interest laws

  watch_both_lem : (p : ℕ) → Preserves interest (watch_both sys p)
  watch_both_lem = watch_both-Preserves sys interest laws

  keep_lem : (p : ℕ) → Preserves interest (keep_connection sys p)
  unfolding keep_connection
  keep_lem p = search (preserves, watch_in_lem) depth 12

  finish_lem : (p : ℕ) (state : ConnectionState) → Preserves interest (finish_reply sys p state)
  unfolding finish_reply
  finish_lem p data_sent = remove_lem p
  finish_lem p data_received = keep_lem p
  finish_lem p connection_closed = keep_lem p

  after_header_lem : (fuel p : ℕ) (sent : Bool) → Preserves interest (after_header sys fuel p sent)
  unfolding after_header
  after_header_lem fuel p false = remove_lem p
  after_header_lem fuel p true = search (preserves, content_lem, finish_lem) depth 14

  reply_to_lem :
      (fuel p : ℕ) (peer : Option (List ℕ)) → Preserves interest (reply_to sys fuel p peer)
  unfolding reply_to
  reply_to_lem fuel p none = remove_lem p
  reply_to_lem fuel p (some peer) = search (preserves, header_loop_lem, after_header_lem) depth 12

  in_state_lem :
      (fuel p : ℕ) (state : ConnectionState) (d : ℕ)
      → Preserves interest (reply_in_state sys fuel p state d)
  unfolding reply_in_state
  in_state_lem fuel p connection_closed d = search (preserves)
  in_state_lem fuel p data_received d = search (preserves, peer_lem, reply_to_lem) depth 10
  in_state_lem fuel p data_sent d = search (preserves, peer_lem, reply_to_lem) depth 10

  pub send_message-Preserves : (fuel p : ℕ) → Preserves interest (send_message sys fuel p)
  unfolding send_message
  send_message-Preserves fuel p = search (preserves, in_state_lem) depth 10

  parse_path_lem : (p : ℕ) → Preserves interest (parse_path sys p)
  unfolding parse_path
  parse_path_lem p = search (preserves, laws.drops_parse_request) depth 12

  open_path_lem :
      (path behind more : List ℕ) (p : ℕ) → Preserves interest (open_path sys path behind more p)
  unfolding open_path
  open_path_lem path behind more p = search (preserves, laws.drops_open_file) depth 12

  set_path_lem :
      (path behind more : List ℕ) (p : ℕ)
      → Preserves interest (set_connection_path_and_file sys path behind more p)
  unfolding set_connection_path_and_file
  set_path_lem [] behind more p = search (preserves)
  set_path_lem (x ∷ path) behind more p = search (preserves, open_path_lem) depth 10

  file_sz_lem : (p : ℕ) → Preserves interest (get_file_sz sys p)
  unfolding get_file_sz
  file_sz_lem p = search (preserves, laws.drops_lseek) depth 16

  send_buffer_lem :
      (p : ℕ) (missing : Bool) → Preserves interest (set_connection_send_buffer sys p missing)
  unfolding set_connection_send_buffer
  send_buffer_lem p true = search (preserves)
  send_buffer_lem p false = search (preserves, file_sz_lem) depth 12

  respond_lem : (behind more : List ℕ) (p : ℕ) → Preserves interest (respond sys behind more p)
  unfolding respond
  respond_lem behind more p =
      search (preserves, parse_path_lem, set_path_lem, send_buffer_lem, watch_both_lem) depth 14

  answer_lem :
      (behind more : List ℕ) (p : ℕ) (state : ConnectionState)
      → Preserves interest (answer sys behind more p state)
  unfolding answer
  answer_lem behind more p connection_closed = search (preserves)
  answer_lem behind more p data_sent = respond_lem behind more p
  answer_lem behind more p data_received = respond_lem behind more p

  pub handle_client_request-Preserves :
      (behind more : List ℕ) (p : ℕ) → Preserves interest (handle_client_request sys behind more p)
  unfolding handle_client_request
  handle_client_request-Preserves behind more p =
      search (preserves, receive_message_lem, answer_lem) depth 10

  when_lem :
      (b : Bool) (m : M S (Unit {0})) → Preserves interest m → Preserves interest (when sys b m)
  unfolding when
  when_lem true m h = h
  when_lem false m h = search (preserves)

  reply_lem : (fuel p : ℕ) → Preserves interest (send_reply sys fuel p)
  unfolding send_reply
  reply_lem fuel p = search (preserves, send_message-Preserves) depth 10

  event_lem :
      (fuel : ℕ) (behind more : List ℕ) (rev : EpollEvent) (listener : Bool)
      → Preserves interest (handle_event sys fuel behind more rev listener)
  unfolding handle_event
  event_lem fuel behind more rev true =
      when_lem _ _ (handle_new_connection-Preserves sys interest laws)
  event_lem fuel behind more rev false =
      search (preserves, when_lem, handle_client_request-Preserves, reply_lem) depth 10

  wait_event_lem : Preserves interest (wait_event sys)
  unfolding wait_event w_epoll_wait_infinite call
  wait_event_lem = record {
    keeps = λ s sound.
        call-IsSound interest (sys.epoll.epoll_wait s.epollfd 1 none) s
          (laws.drops_wait s.epollfd 1 none) sound;
  }

  on_wait_lem :
      (fuel : ℕ) (behind more : List ℕ) (event : Option EpollEvent)
      → Preserves interest (on_wait sys fuel behind more event)
  unfolding on_wait dispatch
  on_wait_lem fuel behind more none = record { keeps = λ s sound. tt }
  on_wait_lem fuel behind more (some rev) = record {
    keeps =
        λ s sound. (event_lem fuel behind more rev (as_fd rev.udata == s.listenfd)).keeps s sound;
  }

  round_lem :
      (fuel : ℕ) (behind more : List ℕ) → Preserves interest (main_round sys fuel behind more)
  unfolding main_round
  round_lem fuel behind more = search (preserves, wait_event_lem, on_wait_lem) depth 10

  loop_lem :
      (fuel : ℕ) (stack : ℕ → List ℕ × List ℕ) (n : ℕ)
      → Preserves interest (main_loop sys fuel stack n)
  unfolding main_loop
  loop_lem fuel stack zero = search (preserves)
  loop_lem fuel stack (suc n) = >>-Preserves (round_lem fuel _ _) (loop_lem fuel stack n)

  -- However many rounds the main loop makes, with whatever the system answers: if it starts with an
  -- interest list that points only to live handlers, each with its entry's descriptor, this holds
  -- whenever it returns.
  pub main_loop-IsSound :
      (fuel : ℕ) (stack : ℕ → List ℕ × List ℕ) (n : ℕ) (s : Server S)
      → IsSound interest s
      → After (λ _ s'. IsSound interest s') (main_loop sys fuel stack n s)
  main_loop-IsSound fuel stack n s sound = (loop_lem fuel stack n).keeps s sound
