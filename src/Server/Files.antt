-- ===== src/Server/Files.antt =====
-- Homeworks/Asynchronous_Web_Server/aws.c: how the bytes of a file get to the client. A file has less
-- than 2 ^ 31 bytes, so an `int` holds its size. The allocations of the arrays succeed.
use so.Common.{ℕ, zero, suc, ◌+◌, ◌/◌, not, ltb, ◌==◌, if◌then◌else◌, ◌||◌}
use so.Server.Types.{
  overlay, slice, bufsiz, FileType, static, dynamic, other_type, data_sent, Connection,
}
use so.Server.System.{System, Whence, Iocb, IoEvent}
use so.Server.Monad.{M, Outcome, ◌>>=◌, ◌>>◌, done, call, die, or_die, found, load, modify, branch}

-- `MIN`
unfoldable pub min_size : ℕ → ℕ → ℕ
min_size a b = if ltb a b then a else b

-- A loop that ran out of fuel, and an access that has no meaning.
abbrev pub out_of_fuel : {S A : Type 0} → M S A
out_of_fuel s = Outcome.timeout

abbrev pub no_meaning : {S A : Type 0} → M S A
no_meaning s = Outcome.fault

module _ {S : Type 0} (sys : System S) where
  unfoldable pub get_file_sz : ℕ → M S ℕ
  get_file_sz p = do
    c ← load p
    file ← found c.file
    s ← call (sys.lseek file 0 Whence.seek_cur)
    file_size ← call (sys.lseek file 0 Whence.seek_end)
    back ← call (sys.lseek file s Whence.seek_set)
    done file_size

  -- The loop of `send_static_file`.
  unfoldable pub sendfile_loop : ℕ → ℕ → ℕ → ℕ → ℕ → M S (Unit {0})
  sendfile_loop zero sock file size sent = out_of_fuel
  sendfile_loop (suc fuel) sock file size sent =
      branch (ltb sent size)
        (do
          rc ← call (sys.sendfile sock file size)
          n ← or_die rc
          sendfile_loop fuel sock file size (sent + n))
        (done tt)

  unfoldable pub send_static_file : ℕ → ℕ → M S (Unit {0})
  unfolding sendfile_loop
  send_static_file fuel p = do
    c ← load p
    file ← found c.file
    sendfile_loop fuel c.sockfd file c.file_sz 0
    modify p (λ c'. record c' { state = data_sent })

  -- The arrays have `readb_sz` elements, of which the first `file_sz / readb_sz` get memory; more than
  -- there are, or a division by 0, is a fault.
  unfoldable pub iocb_setup : ℕ → M S (Unit {0})
  unfolding min_size
  iocb_setup p = do
    fd ← call sys.eventfd
    event_fd ← or_die fd
    c ← load p
    let readb_sz = min_size c.file_sz bufsiz
    let count = c.file_sz / readb_sz
    branch ((readb_sz == 0) || ltb readb_sz count) (no_meaning) (do
      ctx ← call sys.io_setup
      aio_ctx ← or_die ctx
      modify p (λ c'. record c' { event_fd = event_fd; iocbs = count; aio_ctx = aio_ctx }))

  -- The event stays in `conn->events`, where nothing reads its `res`.
  unfoldable pub async_io_wait : ℕ → ℕ → M S IoEvent
  async_io_wait zero aio_ctx = out_of_fuel
  async_io_wait (suc fuel) aio_ctx = do
    rc ← call (sys.io_getevents aio_ctx)
    events ← or_die rc
    branch (ltb events.0 1) (async_io_wait fuel aio_ctx) (done events.1)

  -- The body of the loop of `send_dynamic_file`, at block `i`. The elements of the arrays behind the
  -- first `iocbs` are not written. What a block holds before it is read into is asked for here.
  unfoldable pub send_block : ℕ → Connection → ℕ → ℕ → ℕ → ℕ → M S (Unit {0})
  unfolding async_io_wait
  send_block fuel c file readb_sz i sent =
      branch (ltb i c.iocbs)
        (do
          block ← call sys.new_block
          rc1 ← call (sys.io_submit c.aio_ctx (Iocb.pread file readb_sz sent))
          die (not rc1)
          event ← async_io_wait fuel c.aio_ctx
          rc2 ← call (
              sys.io_submit c.aio_ctx
                (Iocb.pwrite c.sockfd (slice (overlay event.bytes block) 0 readb_sz) 0))
          die (not rc2)
          event2 ← async_io_wait fuel c.aio_ctx
          done tt)
        (no_meaning)

  unfoldable pub block_loop : ℕ → Connection → ℕ → ℕ → ℕ → ℕ → M S (Unit {0})
  unfolding send_block
  block_loop zero c file readb_sz i sent = out_of_fuel
  block_loop (suc fuel) c file readb_sz i sent =
      branch (ltb sent c.file_sz)
        (do
          send_block (suc fuel) c file readb_sz i sent
          block_loop fuel c file readb_sz (suc i) (sent + readb_sz))
        (done tt)

  -- What is freed is what `iocb_setup` allocated.
  unfoldable pub io_free : ℕ → M S (Unit {0})
  io_free p = do c ← load p; rc ← call (sys.io_destroy c.aio_ctx); done tt

  unfoldable pub send_dynamic_file : ℕ → ℕ → M S (Unit {0})
  unfolding iocb_setup block_loop io_free min_size
  send_dynamic_file fuel p = do
    iocb_setup p
    c ← load p
    file ← found c.file
    block_loop fuel c file (min_size c.file_sz bufsiz) 0 0
    io_free p
    modify p (λ c'. record c' { state = data_sent })

  unfoldable pub send_by_type : ℕ → FileType → ℕ → M S (Unit {0})
  unfolding send_static_file send_dynamic_file
  send_by_type fuel static p = send_static_file fuel p
  send_by_type fuel dynamic p = send_dynamic_file fuel p
  send_by_type fuel other_type p = done tt

  unfoldable pub send_file_by_type : ℕ → ℕ → M S (Unit {0})
  unfolding send_by_type
  send_file_by_type fuel p = do c ← load p; send_by_type fuel c.file_type p
