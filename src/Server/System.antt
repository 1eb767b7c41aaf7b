-- ===== src/Server/System.antt =====
-- What the web server calls and is not its code: the system, the libraries for asynchronous input and
-- output, and the HTTP parser. `none` is the result -1, `false` a result below 0.
use so.Common.{ℕ, ◌≡◌, ◌⊎◌, Bool, Option, none, some, List}
use so.Server.Types.{Buffer, Handlers, Connection}
use so.Server.Epoll.{Epoll, EpollEvent, IsEpoll}

-- The options that the server sets: on, or on with seconds to linger.
pub data SocketOption : Type 0 where
  tcp_nodelay so_reuseaddr : ℕ → SocketOption
  so_linger : (on seconds : ℕ) → SocketOption

pub data Whence : Type 0 where
  seek_set seek_cur seek_end : Whence

-- `struct iocb`, for reading into a block and for writing the bytes of a block.
pub data Iocb : Type 0 where
  pread : (fd count offset : ℕ) → Iocb
  pwrite : (fd : ℕ) → (bytes : List ℕ) → (offset : ℕ) → Iocb

-- `struct io_event`: `res` is the number of bytes that were transferred. `bytes` are those that a read
-- has put at the start of its block.
pub record IoEvent : Type 0 where
  pub res : ℕ
  pub bytes : List ℕ

pub record System (S : Type 0) : Type 0 where
  pub epoll : Epoll S
  -- The address and what the memory holds; it is not one of the addresses in use.
  pub malloc : Handlers → S → Option (ℕ × Connection) × S
  pub socket : S → Option ℕ × S
  pub gethostbyname : List ℕ → S → Option ℕ × S
  pub connect : (sock address port : ℕ) → S → Bool × S
  pub bind : (sock port : ℕ) → S → Bool × S
  pub listen : (sock backlog : ℕ) → S → Bool × S
  pub accept : ℕ → S → Option ℕ × S
  pub setsockopt : ℕ → SocketOption → S → Bool × S
  pub get_flags : ℕ → S → ℕ × S
  pub set_flags : ℕ → ℕ → S → Bool × S
  -- The text that `inet_ntoa` makes of the address, and the port.
  pub getpeername : ℕ → S → Option (List ℕ × ℕ) × S
  pub recv : (sock count : ℕ) → S → Option (List ℕ) × S
  pub send : ℕ → List ℕ → S → Option ℕ × S
  pub shutdown : ℕ → S → Bool × S
  pub close : ℕ → S → Bool × S
  pub open_file : List ℕ → S → Option ℕ × S
  pub lseek : (fd offset : ℕ) → Whence → S → ℕ × S
  pub sendfile : (sock fd count : ℕ) → S → Option ℕ × S
  pub eventfd : S → Option ℕ × S
  pub io_setup : S → Option ℕ × S
  pub io_submit : ℕ → Iocb → S → Bool × S
  -- The number of events, and the event.
  pub io_getevents : ℕ → S → Option (ℕ × IoEvent) × S
  pub io_destroy : ℕ → S → Bool × S
  -- What a block from `malloc` holds.
  pub new_block : S → Buffer × S
  -- `http_parser_init` and `http_parser_execute` on a buffer and a length: the arguments of the calls
  -- of `on_path_cb`.
  pub parse_request : Buffer → ℕ → S → List (List ℕ) × S

-- A call that adds nothing to the interest lists and changes no entry; closing a descriptor may drop
-- some.
pub record Drops {S A : Type 0} (interest : S → ℕ → ℕ → Option EpollEvent) (call : S → A × S)
    : Type 0 where
  pub drops :
      (s : S) (ep d : ℕ)
      → (interest (call s).1 ep d ≡ none) ⊎ (interest (call s).1 ep d ≡ interest s ep d)

-- What the server relies on: of the calls only `epoll_ctl` adds to the interest lists, `epoll_wait`
-- returns what is in them, and new memory is not in use.
pub record IsSystem {S : Type 0} (sys : System S) (interest : S → ℕ → ℕ → Option EpollEvent)
    : Type 0 where
  pub epoll_laws : IsEpoll sys.epoll interest
  pub malloc_new :
      (h : Handlers) (s : S) (p : ℕ) (c : Connection)
      → (sys.malloc h s).0 ≡ some (p, c)
      → h p ≡ none
  pub epoll_wait_known :
      (ep most : ℕ) (time : Option ℕ) (s : S) (ev : EpollEvent)
      → (sys.epoll.epoll_wait ep most time s).0 ≡ some (some ev)
      → (d events : ℕ) × (interest (sys.epoll.epoll_wait ep most time s).1 ep d
          ≡ some (record { events = events; udata = ev.udata }))
  pub drops_epoll_create : (n : ℕ) → Drops interest (sys.epoll.epoll_create n)
  pub drops_socket : Drops interest sys.socket
  pub drops_bind : (d port : ℕ) → Drops interest (sys.bind d port)
  pub drops_listen : (d n : ℕ) → Drops interest (sys.listen d n)
  pub drops_wait :
      (ep most : ℕ) (time : Option ℕ) → Drops interest (sys.epoll.epoll_wait ep most time)
  pub drops_malloc : (h : Handlers) → Drops interest (sys.malloc h)
  pub drops_accept : (d : ℕ) → Drops interest (sys.accept d)
  pub drops_setsockopt : (d : ℕ) (o : SocketOption) → Drops interest (sys.setsockopt d o)
  pub drops_get_flags : (d : ℕ) → Drops interest (sys.get_flags d)
  pub drops_set_flags : (d f : ℕ) → Drops interest (sys.set_flags d f)
  pub drops_getpeername : (d : ℕ) → Drops interest (sys.getpeername d)
  pub drops_recv : (d n : ℕ) → Drops interest (sys.recv d n)
  pub drops_send : (d : ℕ) (b : List ℕ) → Drops interest (sys.send d b)
  pub drops_shutdown : (d : ℕ) → Drops interest (sys.shutdown d)
  pub drops_close : (d : ℕ) → Drops interest (sys.close d)
  pub drops_open_file : (p : List ℕ) → Drops interest (sys.open_file p)
  pub drops_lseek : (d o : ℕ) (w : Whence) → Drops interest (sys.lseek d o w)
  pub drops_sendfile : (d f n : ℕ) → Drops interest (sys.sendfile d f n)
  pub drops_eventfd : Drops interest sys.eventfd
  pub drops_io_setup : Drops interest sys.io_setup
  pub drops_io_submit : (c : ℕ) (i : Iocb) → Drops interest (sys.io_submit c i)
  pub drops_io_getevents : (c : ℕ) → Drops interest (sys.io_getevents c)
  pub drops_io_destroy : (c : ℕ) → Drops interest (sys.io_destroy c)
  pub drops_new_block : Drops interest sys.new_block
  pub drops_parse_request : (b : Buffer) (n : ℕ) → Drops interest (sys.parse_request b n)
