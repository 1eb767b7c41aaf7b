-- ===== src/Server/Delivery.antt =====
-- What a client receives of what aws.c sends: the promises of the system when its calls succeed.
pub mod Slices
pub mod Header
pub mod Static
pub mod Dynamic
pub mod Whole
use so.Common.{
  ℕ, zero, suc, ◌+◌, ◌≡◌, ◌≤◌, ◌<◌, Bool, true, Option, none, some, List, [], ◌∷◌, ◌++◌, length,
}
use so.Server.Types.{Buffer, slice}
use so.Server.System.{System, Iocb}
use so.Server.Monad.{Server, Outcome, returns}

abbrev pub take : ℕ → List ℕ → List ℕ
take zero xs = []
take (suc n) [] = []
take (suc n) (x ∷ xs) = x ∷ take n xs

-- The bytes that went to a socket, the offset of a file's descriptor, its bytes and their number, and
-- the request that waits in a context for asynchronous input and output.
pub record Wire (S : Type 0) : Type 0 where
  pub stream : S → ℕ → List ℕ
  pub pos : S → ℕ → ℕ
  pub content : ℕ → Buffer
  pub size : ℕ → ℕ
  pub pending : S → ℕ → Option Iocb

-- A call that returns a number of bytes from 1 to `most`, which go to the socket.
pub record Delivers {S : Type 0} (w : Wire S) (d most : ℕ) (bytes : ℕ → List ℕ) (s : S)
    (r : Option ℕ × S) : Type 0 where
  pub count : ℕ
  pub result : r.0 ≡ some count
  pub progress : 0 < count
  pub bound : count ≤ most
  pub arrived : w.stream r.1 d ≡ w.stream s d ++ bytes count

-- A call that succeeds and sends nothing.
pub record Succeeds {S A : Type 0} (w : Wire S) (s : S) (r : Option A × S) : Type 0 where
  pub value : A
  pub result : r.0 ≡ some value
  pub same : (d : ℕ) → w.stream r.1 d ≡ w.stream s d

-- The system while no call fails. A write may transfer fewer bytes than it was given, also one that is
-- asynchronous, which then reports their number.
pub record IsWire {S : Type 0} (sys : System S) (w : Wire S) : Type 0 where
  pub send_bytes :
      (d : ℕ) (bytes : List ℕ) (s : S)
      → 0 < length bytes
      → Delivers w d (length bytes) (λ n. take n bytes) s (sys.send d bytes s)
  pub sendfile_bytes :
      (d f count : ℕ) (s : S)
      → 0 < count
      → w.pos s f < w.size f
      → Delivers w d count (slice (w.content f) (w.pos s f)) s (sys.sendfile d f count s)
  pub sendfile_pos :
      (d f count n : ℕ) (s : S)
      → w.pos s f ≤ w.size f
      → (sys.sendfile d f count s).0 ≡ some n
      → (w.pos (sys.sendfile d f count s).1 f ≡ w.pos s f + n) × (w.pos s f + n ≤ w.size f)
  pub submitted :
      (c : ℕ) (i : Iocb) (s : S)
      → ((sys.io_submit c i s).0 ≡ true) × (w.pending (sys.io_submit c i s).1 c ≡ some i)
  pub submit_stream :
      (c d : ℕ) (i : Iocb) (s : S) → w.stream (sys.io_submit c i s).1 d ≡ w.stream s d
  pub read_done :
      (c f n o : ℕ) (s : S)
      → w.pending s c ≡ some (Iocb.pread f n o)
      → o + n ≤ w.size f
      → (sys.io_getevents c s).0 ≡ some (1, record { res = n; bytes = slice (w.content f) o n })
  pub read_stream :
      (c f n o d : ℕ) (s : S)
      → w.pending s c ≡ some (Iocb.pread f n o)
      → w.stream (sys.io_getevents c s).1 d ≡ w.stream s d
  pub write_done :
      (c d o : ℕ) (bytes : List ℕ) (s : S)
      → w.pending s c ≡ some (Iocb.pwrite d bytes o)
      → (written : ℕ) × (written ≤ length bytes)
        × ((sys.io_getevents c s).0 ≡ some (1, record { res = written; bytes = [] }))
        × (w.stream (sys.io_getevents c s).1 d ≡ w.stream s d ++ take written bytes)
  pub eventfd_known : (s : S) → Succeeds w s (sys.eventfd s)
  pub io_setup_known : (s : S) → Succeeds w s (sys.io_setup s)
  pub destroy_stream : (c d : ℕ) (s : S) → w.stream (sys.io_destroy c s).1 d ≡ w.stream s d
  pub block_stream : (d : ℕ) (s : S) → w.stream (sys.new_block s).1 d ≡ w.stream s d

-- Code that returns, with only the system changed, and that sent these bytes to the socket.
pub record Sends {S A : Type 0} (w : Wire S) (d : ℕ) (bytes : List ℕ) (a : A) (s : Server S)
    (o : Outcome S A) : Type 0 where
  pub final : S
  pub result : o ≡ returns a (record s { sys = final })
  pub arrived : w.stream final d ≡ w.stream s.sys d ++ bytes
