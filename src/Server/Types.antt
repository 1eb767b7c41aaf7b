-- ===== src/Server/Types.antt =====
-- The data of Homeworks/Asynchronous_Web_Server/aws.c and aws.h.
use Prim.Native.Char.{code}
use Prim.Native.String.{String}
use so.Common.{◌≡◌, arith, ℕ, zero, suc, Bool, Option, List, [], ◌∷◌, ◌==◌, if◌then◌else◌}

-- The bytes of a text. `String` has its own `[]` and `∷`.
abbrev pub codes : String → List ℕ
codes String.[] = []
codes (String.◌∷◌ c s) = code c ∷ codes s

-- A character array by its bytes. Writing behind its end is a fault of the code that writes.
abbrev pub Buffer : Type 0
Buffer = ℕ → ℕ

-- The bytes of a list, and then those of a buffer.
abbrev pub overlay : List ℕ → Buffer → Buffer
overlay [] b i = b i
overlay (x ∷ xs) b zero = x
overlay (x ∷ xs) b (suc i) = overlay xs (λ k. b (suc k)) i

abbrev pub zeros : Buffer
zeros i = 0

-- The `n` bytes of a buffer from index `i` on.
abbrev pub slice : Buffer → ℕ → ℕ → List ℕ
slice b i zero = []
slice b i (suc n) = b i ∷ slice b (suc i) n

-- `BUFSIZ` of stdio.h
abbrev pub bufsiz : ℕ
bufsiz = 8192

abbrev pub http_ok_msg : List ℕ
http_ok_msg = codes "HTTP/1.0 200 OK\r\n\r\n"

abbrev pub http_not_found_msg : List ℕ
http_not_found_msg = codes "HTTP/1.0 404 Not Found\r\n\r\n"

abbrev pub aws_document_root : List ℕ
aws_document_root = codes "./"

abbrev pub aws_listen_port : ℕ
aws_listen_port = 8888

abbrev pub default_listen_backlog : ℕ
default_listen_backlog = 5

-- `enum connection_state`
pub data ConnectionState : Type 0 where
  data_received data_sent connection_closed : ConnectionState

-- `file_type`: STATIC, DYNAMIC, and any other value, of which FILE_NOT_FOUND is one.
pub data FileType : Type 0 where
  static dynamic other_type : FileType

-- `struct connection`. A file of `none` is -1. `iocbs` is how many elements of `iocb_r`, `iocb_w` and
-- `data_blocks` point to allocated memory; `path` is the text before the first NUL.
pub record Connection : Type 0 where
  pub sockfd : ℕ
  pub recv_buffer : Buffer
  pub recv_len : ℕ
  pub send_buffer : Buffer
  pub send_len : ℕ
  pub state : ConnectionState
  pub event_fd : ℕ
  pub aio_ctx : ℕ
  pub iocbs : ℕ
  pub path : List ℕ
  pub file : Option ℕ
  pub file_sz : ℕ
  pub file_type : FileType
  pub header_is_written : Bool

-- The handlers at their addresses.
abbrev pub Handlers : Type 0
Handlers = ℕ → Option Connection

abbrev pub set_handler : Handlers → ℕ → Option Connection → Handlers
set_handler h p c q = if q == p then c else h q

pub set_handler-same : (h : Handlers) (p : ℕ) (a : Option Connection) → set_handler h p a p ≡ a
set_handler-same h p a = ground arith

pub set_handler-again :
    (h : Handlers) (p : ℕ) (a b : Option Connection)
    → set_handler (set_handler h p a) p b ≡ set_handler h p b
set_handler-again h p a b i q = again-at h p a b q i
  where
    again-at :
        (h : Handlers) (p : ℕ) (a b : Option Connection) (q : ℕ)
        → set_handler (set_handler h p a) p b q ≡ set_handler h p b q
    again-at h p a b q = ground arith
