-- ===== src/Server/Safety/Sending.antt =====
-- The sending of a file keeps the interest list sound.
use so.Common.{ℕ, zero, suc, Option, none, some}
use so.Server.Types.{Connection, FileType, static, dynamic, other_type}
use so.Server.System.{System, IsSystem}
use so.Server.Epoll.{EpollEvent}
use so.Server.Files.{
  sendfile_loop, send_static_file, iocb_setup, async_io_wait, send_block, block_loop, io_free,
  send_dynamic_file, send_by_type, send_file_by_type,
}
use so.Server.Reply.{send_content}
use so.Server.Safety.{Preserves, preserves, >>=-Preserves, call-Preserves, branch-Preserves}

module _ {S : Type 0} (sys : System S) (interest : S → ℕ → ℕ → Option EpollEvent)
    (laws : IsSystem sys interest) where
  sendfile_loop_lem : (fuel d f n t : ℕ) → Preserves interest (sendfile_loop sys fuel d f n t)
  unfolding sendfile_loop
  sendfile_loop_lem zero d f n t = search (preserves)
  sendfile_loop_lem (suc fuel) d f n t =
      search (preserves, laws.drops_sendfile, sendfile_loop_lem fuel) depth 12

  static_lem : (fuel p : ℕ) → Preserves interest (send_static_file sys fuel p)
  unfolding send_static_file
  static_lem fuel p = search (preserves, sendfile_loop_lem) depth 12

  setup_lem : (p : ℕ) → Preserves interest (iocb_setup sys p)
  unfolding iocb_setup
  setup_lem p = search (preserves, laws.drops_eventfd, laws.drops_io_setup) depth 14

  wait_lem : (fuel ctx : ℕ) → Preserves interest (async_io_wait sys fuel ctx)
  unfolding async_io_wait
  wait_lem zero ctx = search (preserves)
  wait_lem (suc fuel) ctx = search (preserves, laws.drops_io_getevents, wait_lem fuel) depth 12

  block_lem :
      (fuel : ℕ) (c : Connection) (f n i t : ℕ) → Preserves interest (send_block sys fuel c f n i t)
  unfolding send_block
  block_lem fuel c f n i t =
      branch-Preserves _
        (>>=-Preserves (call-Preserves sys.new_block laws.drops_new_block)
          (λ block. search (preserves, laws.drops_io_submit, wait_lem) depth 16))
        (search (preserves))

  block_loop_lem :
      (fuel : ℕ) (c : Connection) (f n i t : ℕ) → Preserves interest (block_loop sys fuel c f n i t)
  unfolding block_loop
  block_loop_lem zero c f n i t = search (preserves)
  block_loop_lem (suc fuel) c f n i t = search (preserves, block_lem, block_loop_lem fuel) depth 12

  io_free_lem : (p : ℕ) → Preserves interest (io_free sys p)
  unfolding io_free
  io_free_lem p = search (preserves, laws.drops_io_destroy) depth 12

  dynamic_lem : (fuel p : ℕ) → Preserves interest (send_dynamic_file sys fuel p)
  unfolding send_dynamic_file
  dynamic_lem fuel p = search (preserves, setup_lem, block_loop_lem, io_free_lem) depth 14

  by_type_lem : (fuel : ℕ) (t : FileType) (p : ℕ) → Preserves interest (send_by_type sys fuel t p)
  unfolding send_by_type
  by_type_lem fuel static p = static_lem fuel p
  by_type_lem fuel dynamic p = dynamic_lem fuel p
  by_type_lem fuel other_type p = search (preserves)

  pub send_content-Preserves :
      (fuel p : ℕ) (file : Option ℕ) → Preserves interest (send_content sys fuel p file)
  unfolding send_content send_file_by_type
  send_content-Preserves fuel p none = search (preserves)
  send_content-Preserves fuel p (some file) = search (preserves, by_type_lem) depth 10
