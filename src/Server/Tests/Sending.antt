-- ===== src/Server/Tests/Sending.antt =====
-- How replies are sent, at concrete inputs.
use so.Common.{
  length, List, false, ℕ, ◌+◌, ◌%◌, ◌≡◌, inr, refl, true, none, some, List, length, arith, ◌==◌,
  if◌then◌else◌,
}
use so.Server.Types.{
  connection_closed, overlay, zeros, slice, http_ok_msg, set_handler, data_sent, Connection, bufsiz,
}
use so.Server.Monad.{Server, fault}
use so.Server.Tests.{ctl}
use so.Server.Epoll.{EpollData, epollin, epollinout}
use so.Server.Files.{min_size, send_static_file, send_dynamic_file}
use so.Server.Monad.{returns, call}
use so.Server.Reply.{header_loop}
use so.Server.Main.{main, handle_event, wait_event}
use so.Server.Delivery.{Sends}
use so.Server.Delivery.Header.{header_loop-Sends}
use so.Server.Delivery.Static.{send_static_file-Sends}
use so.Server.Delivery.Whole.{send_dynamic_file-faults}
use so.Server.Safety.{After, IsSound}
use so.Server.Connection.{remove_connection}
use so.Server.Safety.Dangling.{handle_event-faults}
use so.Server.Safety.Lifecycle.{remove_connection-closes}
use so.Server.Safety.Start.{main-IsSound}
use so.Server.Tests.World.{World, fresh, world, world_interest, wire, world-IsWire, world-IsSystem}

-- The listener 9 is watched, and there is no connection yet.
abbrev pub start : Server World
start = record {
  handlers = λ p. none;
  listenfd = 9;
  epollfd = 3;
  sys = record {
    lists =
        λ ep d. if d == 9 then some (record { events = epollin; udata = EpollData.fd 9 }) else none;
    stream = λ d. List.[];
    pos = λ f. 0;
    pending = λ c. none;
  };
}

-- The socket 5, with the header and the file of this descriptor.
abbrev pub reply : ℕ → Connection
reply file = record fresh {
  sockfd = 5;
  send_buffer = overlay http_ok_msg zeros;
  send_len = length http_ok_msg;
  file = some file;
  file_sz = file;
}

abbrev pub connected : ℕ → Server World
connected file = record start { handlers = λ p. some (reply file) }

-- Before `main`: no descriptor is watched.
abbrev idle : Server World
idle = record start { sys = record start.sys { lists = λ ep d. none } }

-- The round ends, with the handler at 64 for the new socket.
main_runs :
    (s : Server World) × (c : Connection) × (main world 30 (λ n. (List.[], List.[])) 1 idle
      ≡ returns tt s)
    × (s.handlers 64 ≡ some c)
    × (c.sockfd ≡ 5)
unfolding main so.Server.Monad.◌>>◌ so.Server.Monad.◌>>=◌ call so.Server.Monad.or_die
    so.Server.Monad.die so.Server.Monad.done so.Server.Tests.ctl so.Server.Main.main_round
    wait_event so.Server.Main.on_wait so.Server.Monad.store
main_runs = (_, _, refl, refl, refl)

main-IsSound_example :
    After (λ _ s. IsSound world_interest s) (main world 30 (λ n. (List.[], List.[])) 1 idle)
main-IsSound_example =
    main-IsSound world world_interest world-IsSystem 30 (λ n. (List.[], List.[])) 1 idle
      (λ ep d. refl)

header_loop-Sends_example :
    Sends wire 5
      (slice (overlay http_ok_msg zeros) 0 19)
      true
      (connected 12)
      (header_loop world 20 (reply 12) 0 (connected 12))
header_loop-Sends_example =
    header_loop-Sends world wire world-IsWire 20 (reply 12) (connected 12) refl (omega arith)

send_static_file-Sends_example :
    Sends wire 5
      (slice (λ i. 12 + i) 0 12)
      tt
      (record (connected 12) {
        handlers =
            set_handler (connected 12).handlers 64 (some (record (reply 12) { state = data_sent }));
      })
      (send_static_file world 13 64 (connected 12))
send_static_file-Sends_example =
    send_static_file-Sends world wire world-IsWire 13 64 12 (reply 12) (connected 12) refl refl refl
      refl (omega arith)

send_dynamic_file-faults_example : send_dynamic_file world 2 64 (connected 10000) ≡ fault
unfolding min_size
send_dynamic_file-faults_example =
    send_dynamic_file-faults world wire world-IsWire 2 64 10000 (reply 10000) (connected 10000) refl
      refl refl (omega arith)
      (inr (λ (e : 10000 % min_size 10000 bufsiz ≡ 0). absurd (omega (arith, e)))) (omega arith)

-- The socket 9 is watched, with the handler at 64.
abbrev open_socket : Server World
open_socket = record start {
  handlers = λ p. some (record (reply 12) { sockfd = 9 });
  sys = record start.sys {
    lists = λ ep d.
        if d == 9 then some (record { events = epollin; udata = EpollData.ptr 64 }) else none;
  };
}

remove_connection-closes_example :
    (final : World) × (remove_connection world 64 open_socket
      ≡ returns connection_closed
          (record open_socket { handlers = set_handler open_socket.handlers 64 none; sys = final }))
    × (world_interest final 3 9 ≡ none)
remove_connection-closes_example =
    remove_connection-closes world world_interest world-IsSystem 64
      (record (reply 12) { sockfd = 9 }) (record { events = epollin; udata = EpollData.ptr 64 })
      open_socket refl refl

open_socket-IsSound : IsSound world_interest open_socket
unfolding IsSound
open_socket-IsSound d events p e = (record (reply 12) { sockfd = 9 }, refl, ground arith)

-- The socket 6 is watched, with the handler at 64.
abbrev lost : Server World
lost = record start {
  handlers = λ p. some (record (reply 12) { sockfd = 6 });
  sys = record start.sys {
    lists = λ ep d.
        if d == 6 then some (record { events = epollin; udata = EpollData.ptr 64 }) else none;
  };
}

handle_event-faults_example :
    handle_event world 30 List.[] List.[]
      (record { events = epollinout; udata = EpollData.ptr 64 })
      false
      lost
    ≡ fault
handle_event-faults_example =
    handle_event-faults world world_interest world-IsSystem 30 List.[] List.[]
      (record { events = epollinout; udata = EpollData.ptr 64 })
      (record { events = epollin; udata = EpollData.ptr 64 }) (record (reply 12) { sockfd = 6 })
      lost refl refl refl refl
