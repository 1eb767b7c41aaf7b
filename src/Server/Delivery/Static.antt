-- ===== src/Server/Delivery/Static.antt =====
-- `send_static_file` of aws.c.
use so.Common.{
  ℕ, zero, suc, ◌+◌, ◌-◌, ◌≡◌, ◌≤◌, ◌<◌, refl, ap, ◌∙◌, sym, Option, some, List, ◌++◌, arith,
  lt→ltb, le→ltb, dec_lt,
}
use mathlib.Core.List.{append_assoc, append-nil}
use so.Server.Types.{slice, set_handler, data_sent, Connection}
use so.Server.System.{System}
use so.Server.Monad.{
  Server, M, returns, and_then, ◌>>=◌, ◌>>◌, done, call, or_die, found, load, store, modify, branch,
}
use so.Server.Files.{sendfile_loop, send_static_file}
use so.Server.Delivery.{Wire, IsWire, Sends}
use so.Server.Delivery.Slices.{slice-append}

module _ {S : Type 0} (sys : System S) (w : Wire S) (wire : IsWire sys w) where
  after : ℕ → ℕ → Server S → Server S
  after sock file s = record s { sys = (sys.sendfile sock file (w.size file) s.sys).1 }

  loop_step :
      (fuel sock file sent n : ℕ) (s : Server S)
      → sent < w.size file
      → (sys.sendfile sock file (w.size file) s.sys).0 ≡ some n
      → sendfile_loop sys (suc fuel) sock file (w.size file) sent s
        ≡ sendfile_loop sys fuel sock file (w.size file) (sent + n) (after sock file s)
  unfolding sendfile_loop branch ◌>>=◌ call or_die after
  loop_step fuel sock file sent n s more result =
      rw (lt→ltb _ _ more, branch)
        (ap
          (λ (o : Option ℕ).
            and_then (or_die o (after sock file s))
              (λ k. sendfile_loop sys fuel sock file (w.size file) (sent + k)))
          result)

  loop_end :
      (fuel sock file sent : ℕ) (s : Server S)
      → w.size file ≤ sent
      → sendfile_loop sys (suc fuel) sock file (w.size file) sent s ≡ returns tt s
  unfolding sendfile_loop branch done
  loop_end fuel sock file sent s last = rw (le→ltb _ _ last, branch) refl

  loop_rest :
      (fuel sock file sent : ℕ) (s : Server S)
      → w.pos s.sys file ≡ sent
      → sent ≤ w.size file
      → w.size file < sent + fuel
      → Sends w sock
          (slice (w.content file) sent (w.size file - sent))
          tt
          s
          (sendfile_loop sys fuel sock file (w.size file) sent s)
  unfolding after
  loop_rest zero sock file sent s at le enough = absurd (omega arith)
  loop_rest (suc fuel) sock file sent s at le enough = elim (dec_lt sent (w.size file)) [
    | yes more ↦
        let d =
          wire.sendfile_bytes sock file (w.size file) s.sys (omega (arith, more))
            (omega (arith, at, more)) in
        let moved =
          wire.sendfile_pos sock file (w.size file) d.count s.sys (omega (arith, at, le))
            d.result in
        let next = sent + d.count in
        let pos : w.pos (after sock file s).sys file ≡ next =
          moved.0 ∙ ap (λ (n : ℕ). n + d.count) at in
        let le' : next ≤ w.size file = omega (arith, moved.1, at) in
        let enough' : w.size file < next + fuel = omega (arith, d.progress, enough) in
        let rest = loop_rest fuel sock file next (after sock file s) pos le' enough' in
        let size : d.count + (w.size file - next) ≡ w.size file - sent = omega (arith, le', more) in
        let tail = slice (w.content file) next (w.size file - next) in
        record {
          final = rest.final;
          result = loop_step fuel sock file sent d.count s more d.result ∙ rest.result;
          arrived =
              rest.arrived
              ∙ ap (λ (xs : List ℕ). xs ++ tail)
                  (d.arrived
                    ∙ ap (λ (n : ℕ). w.stream s.sys sock ++ slice (w.content file) n d.count) at)
              ∙ append_assoc (w.stream s.sys sock) (slice (w.content file) sent d.count) tail
              ∙ ap (λ (xs : List ℕ). w.stream s.sys sock ++ xs)
                  (slice-append (w.content file) sent d.count (w.size file - next)
                    ∙ ap (λ (n : ℕ). slice (w.content file) sent n) size);
        }
    | no last ↦
        let none_left : 0 ≡ w.size file - sent = omega (arith, last) in
        record {
          final = s.sys;
          result = loop_end fuel sock file sent s (omega (arith, last));
          arrived =
              sym (append-nil (w.stream s.sys sock))
              ∙ ap (λ (n : ℕ). w.stream s.sys sock ++ slice (w.content file) sent n) none_left;
        }
  ]

  -- While no `sendfile` fails, `send_static_file` of a file whose offset is 0 ends within a round more
  -- than it has bytes, however little each `sendfile` takes; the client has received exactly the file,
  -- behind what it had, and the handler's state is STATE_DATA_SENT.
  pub send_static_file-Sends :
      (fuel p file : ℕ) (c : Connection) (s : Server S)
      → s.handlers p ≡ some c
      → c.file ≡ some file
      → c.file_sz ≡ w.size file
      → w.pos s.sys file ≡ 0
      → w.size file < fuel
      → Sends w c.sockfd
          (slice (w.content file) 0 (w.size file))
          tt
          (record s { handlers = set_handler s.handlers p (some (record c { state = data_sent })) })
          (send_static_file sys fuel p s)
  unfolding send_static_file ◌>>=◌ ◌>>◌ load found modify store
  send_static_file-Sends fuel p file c s live open_file sized start enough =
      let whole = loop_rest fuel c.sockfd file 0 s start (omega arith) (omega (arith, enough)) in
      let size : w.size file - 0 ≡ w.size file = omega arith in
      let send : ℕ → ℕ → M S (Unit {0}) = λ file' n.
        sendfile_loop sys fuel c.sockfd file' n 0
        >> modify p (λ c'. record c' { state = data_sent }) in
      record {
        final = whole.final;
        result = rw live (
            ap (λ (o : Option ℕ). and_then (found o s) (λ file'. send file' c.file_sz)) open_file
            ∙ ap (λ (n : ℕ). send file n s) sized
            ∙ rw (whole.result) (rw live refl));
        arrived =
            whole.arrived
            ∙ ap (λ (n : ℕ). w.stream s.sys c.sockfd ++ slice (w.content file) 0 n) size;
      }
