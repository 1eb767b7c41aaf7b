-- ===== src/Server/Delivery/Whole.antt =====
-- `send_dynamic_file` of aws.c, for each size of a file.
use so.Common.{
  ℕ, suc, ◌+◌, ◌-◌, ◌*◌, ◌/◌, ◌%◌, ◌≡◌, ◌≢◌, ◌≤◌, ◌<◌, ◌⊎◌, inl, inr, refl, ap, ◌∙◌, Bool, true,
  false, Option, some, List, ◌++◌, ◌||◌, ◌==◌, arith, ltb, le→ltb, ne→==,
}
use native.Mathlib.Nat.{div-add-mod'}
use so.Server.Types.{set_handler, set_handler-same, bufsiz, data_sent, Connection}
use so.Server.System.{System}
use so.Server.Monad.{
  Server, Outcome, returns, fault, and_then, ◌>>=◌, ◌>>◌, call, or_die, load, found, store, modify,
  branch,
}
use so.Server.Files.{min_size, iocb_setup, block_loop, io_free, send_dynamic_file}
use so.Server.Delivery.{Wire, IsWire}
use so.Server.Delivery.Slices.{Prefixes}
use so.Server.Delivery.Dynamic.{blocks-Sends, block_loop-short}

min_size-pos : (n : ℕ) → 0 < n → 0 < min_size n bufsiz
unfolding min_size
min_size-pos n pos = ground arith

module _ {S : Type 0} (sys : System S) (w : Wire S) (wire : IsWire sys w) where
  -- The handler that `iocb_setup` leaves.
  prepared : Connection → S → Connection
  prepared c s =
      let fd = wire.eventfd_known s in
      let ctx = wire.io_setup_known (sys.eventfd s).1 in
      record c {
        event_fd = fd.value;
        iocbs = c.file_sz / min_size c.file_sz bufsiz;
        aio_ctx = ctx.value;
      }

  iocb_setup-returns :
      (p : ℕ) (c : Connection) (s : Server S)
      → s.handlers p ≡ some c
      → 0 < c.file_sz
      → c.file_sz / min_size c.file_sz bufsiz ≤ min_size c.file_sz bufsiz
      → iocb_setup sys p s
        ≡ returns tt (record s {
          handlers = set_handler s.handlers p (some (prepared c s.sys));
          sys = (sys.io_setup (sys.eventfd s.sys).1).1;
        })
  unfolding iocb_setup prepared ◌>>=◌ ◌>>◌ call or_die load found branch modify store
  iocb_setup-returns p c s live pos few =
      let r = min_size c.file_sz bufsiz in
      let ne : (r == 0) ≡ false =
        ne→== r 0 (λ (e : r ≡ 0). absurd (omega (arith, e, min_size-pos c.file_sz pos))) in
      let test : ((r == 0) || ltb r (c.file_sz / r)) ≡ false =
        ap (λ (b : Bool). b || ltb r (c.file_sz / r)) ne ∙ le→ltb _ _ few in
      let fd = wire.eventfd_known s.sys in
      let ctx = wire.io_setup_known (sys.eventfd s.sys).1 in
      rw (fd.result) (rw live (rw test (rw (ctx.result) (rw live refl))))

  iocb_setup-empty :
      (p : ℕ) (c : Connection) (s : Server S)
      → s.handlers p ≡ some c
      → c.file_sz ≡ 0
      → iocb_setup sys p s ≡ fault
  unfolding iocb_setup min_size ◌>>=◌ ◌>>◌ call or_die load found branch
  iocb_setup-empty p c s live none_of =
      let fd = wire.eventfd_known s.sys in
      let test : ((min_size c.file_sz bufsiz == 0)
            || ltb (min_size c.file_sz bufsiz) (c.file_sz / min_size c.file_sz bufsiz))
          ≡ true =
        ap (λ (n : ℕ). (min_size n bufsiz == 0) || ltb (min_size n bufsiz) (n / min_size n bufsiz))
          none_of in
      rw (fd.result) (rw live (rw test refl))

  -- The state behind the blocks that have memory.
  blocks :
      (fuel p file : ℕ) (c : Connection) (s : Server S)
      → s.handlers p ≡ some c
      → c.file ≡ some file
      → c.file_sz ≡ w.size file
      → 0 < c.file_sz
      → c.file_sz / min_size c.file_sz bufsiz ≤ min_size c.file_sz bufsiz
      → (final : S) × (bytes : List ℕ) × (send_dynamic_file sys
            (c.file_sz / min_size c.file_sz bufsiz + fuel)
            p
            s
          ≡ and_then
              (block_loop sys fuel
                (prepared c s.sys)
                file
                (min_size c.file_sz bufsiz)
                (c.file_sz / min_size c.file_sz bufsiz)
                (c.file_sz / min_size c.file_sz bufsiz * min_size c.file_sz bufsiz)
                (record s {
                  handlers = set_handler s.handlers p (some (prepared c s.sys));
                  sys = final;
                }))
              (λ _. (io_free sys p >> modify p (λ c'. record c' { state = data_sent }))))
        × (w.stream final c.sockfd ≡ w.stream s.sys c.sockfd ++ bytes)
        × Prefixes
            (w.content file)
            (min_size c.file_sz bufsiz)
            0
            (c.file_sz / min_size c.file_sz bufsiz)
            bytes
  unfolding send_dynamic_file ◌>>=◌ ◌>>◌ load found prepared
  blocks fuel p file c s live open_file sized pos few =
      let r = min_size c.file_sz bufsiz in
      let n = c.file_sz / r in
      let c1 = prepared c s.sys in
      let s1 : Server S = record s {
        handlers = set_handler s.handlers p (some c1);
        sys = (sys.io_setup (sys.eventfd s.sys).1).1;
      } in
      let fits : 0 + n * r ≤ c.file_sz = omega (arith, div-add-mod' c.file_sz r) in
      let (final, bytes, runs, arrived, parts) =
        blocks-Sends sys w wire n fuel c1 file r 0 0 s1 (min_size-pos c.file_sz pos) (omega arith)
          fits sized in
      let start : 0 + n * r ≡ n * r = omega arith in
      let after : Outcome S (Unit {0}) → Outcome S (Unit {0}) = λ o.
        and_then o (λ _. (io_free sys p >> modify p (λ c'. record c' { state = data_sent }))) in
      (
        final,
        bytes,
        rw (iocb_setup-returns p c s live pos few) (
            rw (set_handler-same s.handlers p (some c1)) (
              ap
                (λ (o : Option ℕ). and_then (found o s1) (λ f.
                  (block_loop sys (n + fuel) c1 f r 0 0
                    >> (io_free sys p >> modify p (λ c'. record c' { state = data_sent })))))
                open_file
              ∙ ap after runs
              ∙ ap
                  (λ (k : ℕ). after (block_loop sys fuel c1 file r n k (record s1 { sys = final })))
                  start)),
        arrived
            ∙ ap (λ (xs : List ℕ). xs ++ bytes)
                ((wire.io_setup_known (sys.eventfd s.sys).1).same c.sockfd
                  ∙ (wire.eventfd_known s.sys).same c.sockfd),
        parts,
      )

  -- While no call of the system fails, `send_dynamic_file` has no defined meaning for a file of at most
  -- BUFSIZ whole blocks that is empty, or longer than BUFSIZ bytes and no whole number of blocks: it
  -- divides by 0 in the first case, and takes an `iocb` that was never allocated in the second.
  pub send_dynamic_file-faults :
      (fuel p file : ℕ) (c : Connection) (s : Server S)
      → s.handlers p ≡ some c
      → c.file ≡ some file
      → c.file_sz ≡ w.size file
      → c.file_sz / min_size c.file_sz bufsiz ≤ min_size c.file_sz bufsiz
      → (c.file_sz ≡ 0) ⊎ (c.file_sz % min_size c.file_sz bufsiz ≢ 0)
      → c.file_sz / min_size c.file_sz bufsiz < fuel
      → send_dynamic_file sys fuel p s ≡ fault
  unfolding send_dynamic_file ◌>>◌ prepared
  send_dynamic_file-faults fuel p file c s live open_file sized few (inl empty) enough =
      rw (iocb_setup-empty p c s live empty) refl
  send_dynamic_file-faults fuel p file c s live open_file sized few (inr uneven) enough =
      let r = min_size c.file_sz bufsiz in
      let n = c.file_sz / r in
      let c1 = prepared c s.sys in
      let parts = div-add-mod' c.file_sz r in
      let fuel' : fuel ≡ n + suc (fuel - n - 1) = omega (arith, enough) in
      let short : n * r < c.file_sz = omega (arith, parts, uneven) in
      let sent =
        blocks (suc (fuel - n - 1)) p file c s live open_file sized (omega (arith, short)) few in
      let s2 : Server S = record s {
        handlers = set_handler s.handlers p (some c1);
        sys = sent.0;
      } in
      let after : Outcome S (Unit {0}) → Outcome S (Unit {0}) = λ o.
        and_then o (λ _. (io_free sys p >> modify p (λ c'. record c' { state = data_sent }))) in
      ap (λ (k : ℕ). send_dynamic_file sys k p s) fuel'
      ∙ sent.2
      ∙ ap after
          (block_loop-short sys w wire (fuel - n - 1) c1 file r n (n * r) s2 short (omega arith))
