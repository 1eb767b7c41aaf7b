-- ===== src/Server/Delivery/Dynamic.antt =====
-- `send_dynamic_file` of aws.c: the loop over the blocks of the file.
use so.Common.{
  ℕ, zero, suc, ◌+◌, ◌*◌, ◌≡◌, ◌≤◌, ◌<◌, refl, ap, ◌∙◌, sym, not, some, List, [], ◌++◌, arith,
  lt→ltb, le→ltb,
}
use mathlib.Core.List.{append_assoc, append-nil}
use so.Server.Types.{overlay, slice, Connection}
use so.Server.System.{System, Iocb, IoEvent}
use so.Server.Monad.{
  Server, M, Outcome, returns, fault, and_then, ◌>>=◌, ◌>>◌, done, call, die, or_die, branch,
}
use so.Server.Files.{async_io_wait, send_block, block_loop}
use so.Server.Delivery.{Wire, IsWire, Sends, take}
use so.Server.Delivery.Slices.{length-slice, slice-overlay, take-slice, Prefixes}

module _ {S : Type 0} (sys : System S) (w : Wire S) (wire : IsWire sys w) where
  submit_then :
      {A : Type 0} (ctx : ℕ) (i : Iocb) (s : Server S) (k : M S A)
      → (call (sys.io_submit ctx i) >>= λ rc. (die (not rc) >> k)) s
        ≡ k (record s { sys = (sys.io_submit ctx i s.sys).1 })
  unfolding ◌>>=◌ ◌>>◌ call die
  submit_then ctx i s k = rw ((wire.submitted ctx i s.sys).0) refl

  wait_then :
      {A : Type 0} (fuel ctx : ℕ) (event : IoEvent) (s : Server S) (k : IoEvent → M S A)
      → (sys.io_getevents ctx s.sys).0 ≡ some (1, event)
      → (async_io_wait sys (suc fuel) ctx >>= k) s
        ≡ k event (record s { sys = (sys.io_getevents ctx s.sys).1 })
  unfolding async_io_wait ◌>>=◌ call or_die branch done
  wait_then fuel ctx event s k e = rw e refl

  -- What the client has behind a block.
  send_block-Sends :
      (fuel : ℕ) (c : Connection) (file r i sent : ℕ) (s : Server S)
      → i < c.iocbs
      → sent + r ≤ w.size file
      → (k : ℕ) × (k ≤ r)
        × Sends w c.sockfd
            (slice (w.content file) sent k)
            tt
            s
            (send_block sys (suc fuel) c file r i sent s)
  unfolding send_block ◌>>=◌ call branch done
  send_block-Sends fuel c file r i sent s more fits =
      let ctx = c.aio_ctx in
      let bytes = slice (w.content file) sent r in
      let read = Iocb.pread file r sent in
      let block = (sys.new_block s.sys).0 in
      let s1 = (sys.new_block s.sys).1 in
      let s2 = (sys.io_submit ctx read s1).1 in
      let s3 = (sys.io_getevents ctx s2).1 in
      let write = Iocb.pwrite c.sockfd (slice (overlay bytes block) 0 r) 0 in
      let s4 = (sys.io_submit ctx write s3).1 in
      let s5 = (sys.io_getevents ctx s4).1 in
      let waits = (wire.submitted ctx read s1).1 in
      let writes =
        wire.write_done ctx c.sockfd 0 (slice (overlay bytes block) 0 r) s4
          ((wire.submitted ctx write s3).1) in
      let copied : slice (overlay bytes block) 0 r ≡ bytes =
        ap (λ (n : ℕ). slice (overlay bytes block) 0 n) (sym (length-slice (w.content file) sent r))
        ∙ slice-overlay bytes block in
      let (k, le, result, sent_part) = writes in
      let k' : k ≤ r = omega (arith, le, length-slice (overlay bytes block) 0 r) in
      (
        k,
        k',
        record {
          final = s5;
          result = rw (lt→ltb _ _ more) (
              submit_then ctx read (record s { sys = s1 }) _
              ∙ wait_then fuel ctx (record { res = r; bytes = bytes }) (record s { sys = s2 }) _
                  (wire.read_done ctx file r sent s2 waits fits)
              ∙ submit_then ctx write (record s { sys = s3 }) _
              ∙ wait_then fuel ctx (record { res = k; bytes = [] }) (record s { sys = s4 }) _
                  result);
          arrived =
              sent_part
              ∙ ap (λ (xs : List ℕ). w.stream s4 c.sockfd ++ take k xs) copied
              ∙ ap (λ (xs : List ℕ). w.stream s4 c.sockfd ++ xs)
                  (take-slice (w.content file) sent k r k')
              ∙ ap (λ (xs : List ℕ). xs ++ slice (w.content file) sent k)
                  (wire.submit_stream ctx c.sockfd write s3
                    ∙ wire.read_stream ctx file r sent c.sockfd s2 waits
                    ∙ wire.submit_stream ctx c.sockfd read s1
                    ∙ wire.block_stream c.sockfd s.sys);
        },
      )

  loop_step :
      (fuel : ℕ) (c : Connection) (file r i sent k : ℕ) (s : Server S)
      → sent < c.file_sz
      → (block : Sends w c.sockfd
          (slice (w.content file) sent k)
          tt
          s
          (send_block sys (suc fuel) c file r i sent s))
      → block_loop sys (suc fuel) c file r i sent s
        ≡ block_loop sys fuel c file r (suc i) (sent + r) (record s { sys = block.final })
  unfolding block_loop branch ◌>>◌
  loop_step fuel c file r i sent k s more block = rw (lt→ltb _ _ more) (
      ap
        (λ (o : Outcome S (Unit {0})).
          and_then o (λ _. block_loop sys fuel c file r (suc i) (sent + r)))
        (block.result))

  -- The rounds for the blocks that have memory, before further rounds `more`.
  pub blocks-Sends :
      (left fuel : ℕ) (c : Connection) (file r i sent : ℕ) (s : Server S)
      → 0 < r
      → i + left ≡ c.iocbs
      → sent + left * r ≤ c.file_sz
      → c.file_sz ≡ w.size file
      → (final : S) × (bytes : List ℕ) × (block_loop sys (left + fuel) c file r i sent s
          ≡ block_loop sys fuel c file r c.iocbs (sent + left * r) (record s { sys = final }))
        × (w.stream final c.sockfd ≡ w.stream s.sys c.sockfd ++ bytes)
        × Prefixes (w.content file) r sent left bytes
  blocks-Sends zero fuel c file r i sent s pos count fits sized =
      let i' : i ≡ c.iocbs = omega (arith, count) in
      let sent' : sent ≡ sent + 0 * r = omega arith in
      let fuel' : 0 + fuel ≡ fuel = omega arith in
      (
        s.sys,
        [],
        ap (λ (n : ℕ). block_loop sys n c file r i sent s) fuel'
            ∙ ap (λ (n : ℕ). block_loop sys fuel c file r n sent s) i'
            ∙ ap (λ (n : ℕ). block_loop sys fuel c file r c.iocbs n s) sent',
        sym (append-nil (w.stream s.sys c.sockfd)),
        refl,
      )
  blocks-Sends (suc left) fuel c file r i sent s pos count fits sized =
      let split : suc left * r ≡ r + left * r = omega arith in
      let more : sent < c.file_sz = omega (arith, split, fits, pos) in
      let i' : i < c.iocbs = omega (arith, count) in
      let fits' : sent + r + left * r ≤ c.file_sz = omega (arith, split, fits) in
      let (k, le, block) =
        send_block-Sends (left + fuel) c file r i sent s i' (omega (arith, fits', sized)) in
      let (final, bytes, runs, arrived, parts) =
        blocks-Sends left fuel c file r (suc i) (sent + r) (record s { sys = block.final }) pos
          (omega (arith, count)) fits' sized in
      let fuel' : suc left + fuel ≡ suc (left + fuel) = omega arith in
      let end : sent + r + left * r ≡ sent + suc left * r = omega (arith, split) in
      (
        final,
        slice (w.content file) sent k ++ bytes,
        ap (λ (n : ℕ). block_loop sys n c file r i sent s) fuel'
            ∙ loop_step (left + fuel) c file r i sent k s more block
            ∙ runs
            ∙ ap (λ (n : ℕ). block_loop sys fuel c file r c.iocbs n (record s { sys = final })) end,
        arrived
            ∙ ap (λ (xs : List ℕ). xs ++ bytes) block.arrived
            ∙ append_assoc (w.stream s.sys c.sockfd) (slice (w.content file) sent k) bytes,
        (k, bytes, le, refl, parts),
      )

  pub block_loop-end :
      (fuel : ℕ) (c : Connection) (file r i sent : ℕ) (s : Server S)
      → c.file_sz ≤ sent
      → block_loop sys (suc fuel) c file r i sent s ≡ returns tt s
  unfolding block_loop branch done
  block_loop-end fuel c file r i sent s last = rw (le→ltb _ _ last) refl

  -- A block for which there is no memory.
  pub block_loop-short :
      (fuel : ℕ) (c : Connection) (file r i sent : ℕ) (s : Server S)
      → sent < c.file_sz
      → c.iocbs ≤ i
      → block_loop sys (suc fuel) c file r i sent s ≡ fault
  unfolding block_loop send_block branch ◌>>◌
  block_loop-short fuel c file r i sent s more short =
      rw (lt→ltb _ _ more) (rw (le→ltb _ _ short) refl)
