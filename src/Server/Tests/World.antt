-- ===== src/Server/Tests/World.antt =====
-- A system that can be run: each `send` takes three bytes at most, the file of descriptor `f` has `f`
-- bytes, and the peer of the socket 6 is gone.
use so.Common.{
  ℕ, ◌+◌, ◌-◌, ◌≡◌, inr, refl, ap, ◌∙◌, sym, Bool, true, false, Option, none, some, List, [], ◌∷◌,
  ◌++◌, length, ◌==◌, if◌then◌else◌, arith, eq→==, min,
}
use mathlib.Core.Option.{some_inj, none-ne-some}
use so.Server.Types.{codes, Buffer, zeros, slice, Connection, ConnectionState, FileType}
use so.Server.System.{Iocb, IoEvent, System, IsSystem, Drops}
use so.Server.Epoll.{EpollEvent, Epoll, IsEpoll}
use so.Server.Delivery.{Wire, IsWire, Succeeds, take}
use so.Server.Tests.{Lists, epoll, epoll-IsEpoll}

pub record World : Type 0 where
  pub lists : Lists
  pub stream : ℕ → List ℕ
  pub pos : ℕ → ℕ
  pub pending : ℕ → Option Iocb

abbrev pub put : {A : Type 0} → (ℕ → A) → ℕ → A → ℕ → A
put f k a q = if q == k then a else f q

put-same : {A : Type 0} (f : ℕ → A) (k : ℕ) (a : A) → put f k a k ≡ a
put-same f k a = rw (eq→== k k refl) refl

abbrev pub fresh : Connection
fresh = record {
  sockfd = 0;
  recv_buffer = zeros;
  recv_len = 0;
  send_buffer = zeros;
  send_len = 0;
  state = ConnectionState.data_received;
  event_fd = 0;
  aio_ctx = 0;
  iocbs = 0;
  path = [];
  file = none;
  file_sz = 0;
  file_type = FileType.other_type;
  header_is_written = false;
}

abbrev content : ℕ → Buffer
content f i = f + i

abbrev write : World → ℕ → List ℕ → World
write s d bytes = record s { stream = put s.stream d (s.stream d ++ bytes) }

abbrev alloc : Option Connection → Option (ℕ × Connection)
alloc none = some (64, fresh)
alloc (some c) = none

abbrev finish : Option Iocb → World → Option (ℕ × IoEvent) × World
finish none s = (none, s)
finish (some (Iocb.pread f n o)) s =
    (some (1, record { res = n; bytes = slice (content f) o n }), s)
finish (some (Iocb.pwrite d bytes o)) s =
    (some (1, record { res = length bytes; bytes = [] }), write s d bytes)

abbrev pub world_epoll : Epoll World
world_epoll = record {
  epoll_create = λ size s. (some 3, s);
  epoll_ctl = λ ep op d ev s. (
    (epoll.epoll_ctl ep op d ev s.lists).0,
    record s { lists = (epoll.epoll_ctl ep op d ev s.lists).1 },
  );
  epoll_wait = λ ep most time s. (some (s.lists ep 9), s);
}

abbrev pub world : System World
world = record {
  epoll = world_epoll;
  malloc = λ h s. (alloc (h 64), s);
  socket = λ s. (some 9, s);
  gethostbyname = λ name s. (some 1, s);
  connect = λ sock address port s. (true, s);
  bind = λ sock port s. (true, s);
  listen = λ sock backlog s. (true, s);
  accept = λ d s. (some 5, s);
  setsockopt = λ d o s. (true, s);
  get_flags = λ d s. (0, s);
  set_flags = λ d flags s. (true, s);
  getpeername = λ d s. (if d == 6 then none else some (codes "127.0.0.1", 4000), s);
  recv = λ d count s. (some (take count (codes "/static/a")), s);
  send = λ d bytes s. (some (min 3 (length bytes)), write s d (take (min 3 (length bytes)) bytes));
  shutdown = λ d s. (true, s);
  close = λ d s. (true, s);
  open_file = λ name s. (some (length name), s);
  lseek = λ f offset whence s. (f, s);
  sendfile = λ d f count s. (
    some (min count (f - s.pos f)),
    write (record s { pos = put s.pos f (s.pos f + min count (f - s.pos f)) }) d
        (slice (content f) (s.pos f) (min count (f - s.pos f))),
  );
  eventfd = λ s. (some 7, s);
  io_setup = λ s. (some 1, s);
  io_submit = λ c i s. (true, record s { pending = put s.pending c (some i) });
  io_getevents = λ c s. finish (s.pending c) s;
  io_destroy = λ c s. (true, s);
  new_block = λ s. (zeros, s);
  parse_request = λ b n s. (slice b 0 n ∷ [], s);
}

abbrev pub world_interest : World → ℕ → ℕ → Option EpollEvent
world_interest s = s.lists

abbrev pub wire : Wire World
wire = record {
  stream = λ s. s.stream;
  pos = λ s. s.pos;
  content = content;
  size = λ f. f;
  pending = λ s. s.pending;
}

known : {A : Type 0} (a : A) (s : World) → Succeeds wire s (some a, s)
known a s = record { value = a; result = refl; same = λ d. refl }

take-all : (xs : List ℕ) → take (length xs) xs ≡ xs
take-all [] = refl
take-all (x ∷ xs) = ap (λ (ys : List ℕ). x ∷ ys) (take-all xs)

pub world-IsWire : IsWire world wire
world-IsWire = record {
  send_bytes = λ d bytes s pos. record {
    count = min 3 (length bytes);
    result = refl;
    progress = ground arith;
    bound = ground arith;
    arrived = put-same s.stream d (s.stream d ++ take (min 3 (length bytes)) bytes);
  };
  sendfile_bytes = λ d f count s pos more. record {
    count = min count (f - s.pos f);
    result = refl;
    progress = ground arith;
    bound = ground arith;
    arrived =
        put-same s.stream d (s.stream d ++ slice (content f) (s.pos f) (min count (f - s.pos f)));
  };
  sendfile_pos = λ d f count n s le e.
      let n' : min count (f - s.pos f) ≡ n = some_inj.0 e in
      (
        put-same s.pos f (s.pos f + min count (f - s.pos f)) ∙ ap (λ (k : ℕ). s.pos f + k) n',
        ground arith,
      );
  submitted = λ c i s. (refl, put-same s.pending c (some i));
  submit_stream = λ c d i s. refl;
  read_done = λ c f n o s e fits. rw e refl;
  read_stream = λ c f n o d s e. rw e refl;
  write_done = λ c d o bytes s e. rw e (
    length bytes,
    omega arith,
    refl,
    put-same s.stream d (s.stream d ++ bytes)
        ∙ ap (λ (xs : List ℕ). s.stream d ++ xs) (sym (take-all bytes)),
  );
  eventfd_known = λ s. known 7 s;
  io_setup_known = λ s. known 1 s;
  destroy_stream = λ c d s. refl;
  block_stream = λ d s. refl;
}

still :
    {A : Type 0} (f : World → A × World)
    → ((s : World) → (f s).1.lists ≡ s.lists)
    → Drops world_interest f
still f same = record { drops = λ s ep d. inr (ap (λ (l : Lists). l ep d) (same s)) }

finish-lists : (o : Option Iocb) (s : World) → (finish o s).1.lists ≡ s.lists
finish-lists none s = refl
finish-lists (some (Iocb.pread f n o)) s = refl
finish-lists (some (Iocb.pwrite d bytes o)) s = refl

pub world_epoll-IsEpoll : IsEpoll world_epoll world_interest
world_epoll-IsEpoll = record {
  add_new = λ ep d ev s new. epoll-IsEpoll.add_new ep d ev s.lists new;
  add_old = λ ep d ev old s e. keeps s (epoll-IsEpoll.add_old ep d ev old s.lists e);
  mod_old = λ ep d ev old s e. epoll-IsEpoll.mod_old ep d ev old s.lists e;
  mod_new = λ ep d ev s new. keeps s (epoll-IsEpoll.mod_new ep d ev s.lists new);
  del_new = λ ep d ev s new. keeps s (epoll-IsEpoll.del_new ep d ev s.lists new);
  del_old = λ ep d ev old s e. epoll-IsEpoll.del_old ep d ev old s.lists e;
  others = λ ep d d' op ev s ne. epoll-IsEpoll.others ep d d' op ev s.lists ne;
}
  where
    keeps :
        (s : World) {r : Bool × Lists}
        → r ≡ (false, s.lists)
        → ◌≡◌ {A = Bool × World} (r.0, record s { lists = r.1 }) (false, s)
    keeps s e =
        let put_back : Bool × Lists → Bool × World = λ r. (r.0, record s { lists = r.1 }) in
        ap put_back e

alloc-new :
    (o : Option Connection) (p : ℕ) (c : Connection) → alloc o ≡ some (p, c) → (o ≡ none) × (64 ≡ p)
alloc-new none p c e = (refl, ap (λ (o : ℕ × Connection). o.0) (some_inj.0 e))
alloc-new (some old) p c e = absurd (none-ne-some (p, c) e)

pub world-IsSystem : IsSystem world world_interest
world-IsSystem = record {
  epoll_laws = world_epoll-IsEpoll;
  malloc_new = λ h s p c e. let new = alloc-new (h 64) p c e in ap h (sym new.1) ∙ new.0;
  epoll_wait_known = λ ep most time s ev e. (9, ev.events, some_inj.0 e);
  drops_epoll_create = λ n. still _ (λ s. refl);
  drops_socket = still _ (λ s. refl);
  drops_bind = λ d port. still _ (λ s. refl);
  drops_listen = λ d n. still _ (λ s. refl);
  drops_wait = λ ep most time. still _ (λ s. refl);
  drops_malloc = λ h. still _ (λ s. refl);
  drops_accept = λ d. still _ (λ s. refl);
  drops_setsockopt = λ d o. still _ (λ s. refl);
  drops_get_flags = λ d. still _ (λ s. refl);
  drops_set_flags = λ d f. still _ (λ s. refl);
  drops_getpeername = λ d. still _ (λ s. refl);
  drops_recv = λ d n. still _ (λ s. refl);
  drops_send = λ d b. still _ (λ s. refl);
  drops_shutdown = λ d. still _ (λ s. refl);
  drops_close = λ d. still _ (λ s. refl);
  drops_open_file = λ p. still _ (λ s. refl);
  drops_lseek = λ d o w. still _ (λ s. refl);
  drops_sendfile = λ d f n. still _ (λ s. refl);
  drops_eventfd = still _ (λ s. refl);
  drops_io_setup = still _ (λ s. refl);
  drops_io_submit = λ c i. still _ (λ s. refl);
  drops_io_getevents = λ c. still _ (λ s. finish-lists (s.pending c) s);
  drops_io_destroy = λ c. still _ (λ s. refl);
  drops_new_block = still _ (λ s. refl);
  drops_parse_request = λ b n. still _ (λ s. refl);
}
