-- ===== src/Server/Delivery/Header.antt =====
-- `send_message` of aws.c: the loop that sends the header of the reply.
use so.Common.{
  ℕ, zero, suc, ◌+◌, ◌-◌, ◌≡◌, ◌≤◌, ◌<◌, refl, ap, ◌∙◌, sym, Bool, true, false, not, ◌&&◌, Option,
  some, List, ◌++◌, arith, ltb, lt→ltb, le→ltb, dec_lt,
}
use mathlib.Core.List.{append_assoc, append-nil}
use so.Server.Types.{Connection, slice}
use so.Server.System.{System}
use so.Server.Monad.{Server, M, returns, ◌>>=◌, done, call, branch}
use so.Server.Reply.{header_loop, after_send}
use so.Server.Delivery.{Wire, IsWire, Delivers, Sends}
use so.Server.Delivery.Slices.{length-slice, take-slice, slice-append}

module _ {S : Type 0} (sys : System S) (w : Wire S) (wire : IsWire sys w) where
  after_send-pos : (next : ℕ → M S Bool) (m : ℕ) → 0 < m → after_send sys next (some m) ≡ next m
  unfolding after_send
  after_send-pos next zero pos = absurd (omega arith)
  after_send-pos next (suc m) pos = refl

  after : (c : Connection) (total : ℕ) (s : Server S) → Server S
  after c total s = record s {
    sys = (sys.send c.sockfd (slice c.send_buffer total (c.send_len - total)) s.sys).1;
  }

  sent :
      (c : Connection) (total : ℕ) (s : Server S)
      → total < c.send_len
      → Delivers w c.sockfd
          (c.send_len - total)
          (slice c.send_buffer total)
          s.sys
          (sys.send c.sockfd (slice c.send_buffer total (c.send_len - total)) s.sys)
  sent c total s more =
      let bytes : List ℕ = slice c.send_buffer total (c.send_len - total) in
      let size = length-slice c.send_buffer total (c.send_len - total) in
      let d = wire.send_bytes c.sockfd bytes s.sys (omega (arith, size)) in
      record {
        count = d.count;
        result = d.result;
        progress = d.progress;
        bound = omega (arith, size, d.bound);
        arrived =
            d.arrived
            ∙ ap (λ (xs : List ℕ). w.stream s.sys c.sockfd ++ xs)
                (take-slice c.send_buffer total d.count (c.send_len - total)
                  (omega (arith, size, d.bound)));
      }

  header_step :
      (fuel : ℕ) (c : Connection) (total : ℕ) (s : Server S)
      → c.header_is_written ≡ false
      → (more : total < c.send_len)
      → header_loop sys (suc fuel) c total s
        ≡ header_loop sys fuel c (total + (sent c total s more).count) (after c total s)
  unfolding header_loop branch ◌>>=◌ call after
  header_step fuel c total s new more =
      let d = sent c total s more in
      let next : ℕ → M S Bool = λ n. header_loop sys fuel c (total + n) in
      let test : (not c.header_is_written && ltb total c.send_len) ≡ true =
        ap (λ (w' : Bool). not w' && ltb total c.send_len) new ∙ lt→ltb _ _ more in
      rw (test, branch)
        (ap (λ (o : Option ℕ). after_send sys next o (after c total s)) d.result
          ∙ ap (λ (m : M S Bool). m (after c total s)) (after_send-pos next d.count d.progress))

  header_end :
      (fuel : ℕ) (c : Connection) (total : ℕ) (s : Server S)
      → c.header_is_written ≡ false
      → c.send_len ≤ total
      → header_loop sys (suc fuel) c total s ≡ returns true s
  unfolding header_loop branch done
  header_end fuel c total s new last =
      let test : (not c.header_is_written && ltb total c.send_len) ≡ false =
        ap (λ (w' : Bool). not w' && ltb total c.send_len) new ∙ le→ltb _ _ last in
      rw (test, branch) refl

  header_rest :
      (fuel : ℕ) (c : Connection) (total : ℕ) (s : Server S)
      → c.header_is_written ≡ false
      → total ≤ c.send_len
      → c.send_len < total + fuel
      → Sends w c.sockfd
          (slice c.send_buffer total (c.send_len - total))
          true
          s
          (header_loop sys fuel c total s)
  unfolding after
  header_rest zero c total s new le enough = absurd (omega arith)
  header_rest (suc fuel) c total s new le enough = elim (dec_lt total c.send_len) [
    | yes more ↦
        let d = sent c total s more in
        let at = total + d.count in
        let le' : at ≤ c.send_len = omega (arith, d.bound, more) in
        let enough' : c.send_len < at + fuel = omega (arith, d.progress, enough) in
        let rest = header_rest fuel c at (after c total s) new le' enough' in
        let size : d.count + (c.send_len - at) ≡ c.send_len - total =
          omega (arith, d.bound, more) in
        record {
          final = rest.final;
          result = header_step fuel c total s new more ∙ rest.result;
          arrived =
              rest.arrived
              ∙ ap (λ (xs : List ℕ). xs ++ slice c.send_buffer at (c.send_len - at)) d.arrived
              ∙ append_assoc (w.stream s.sys c.sockfd) (slice c.send_buffer total d.count)
                  (slice c.send_buffer at (c.send_len - at))
              ∙ ap (λ (xs : List ℕ). w.stream s.sys c.sockfd ++ xs)
                  (slice-append c.send_buffer total d.count (c.send_len - at)
                    ∙ ap (λ (n : ℕ). slice c.send_buffer total n) size);
        }
    | no last ↦
        let none_left : 0 ≡ c.send_len - total = omega (arith, last) in
        record {
          final = s.sys;
          result = header_end fuel c total s new (omega (arith, last));
          arrived =
              sym (append-nil (w.stream s.sys c.sockfd))
              ∙ ap (λ (n : ℕ). w.stream s.sys c.sockfd ++ slice c.send_buffer total n) none_left;
        }
  ]

  -- While no `send` fails, the loop of `send_message` ends within `send_len + 1` rounds, however little
  -- each `send` takes, and the client has received exactly the header, behind what it had.
  pub header_loop-Sends :
      (fuel : ℕ) (c : Connection) (s : Server S)
      → c.header_is_written ≡ false
      → c.send_len < fuel
      → Sends w c.sockfd (slice c.send_buffer 0 c.send_len) true s (header_loop sys fuel c 0 s)
  header_loop-Sends fuel c s new enough =
      let size : c.send_len - 0 ≡ c.send_len = omega arith in
      let whole = header_rest fuel c 0 s new (omega arith) (omega (arith, enough)) in
      record {
        final = whole.final;
        result = whole.result;
        arrived =
            whole.arrived ∙ ap (λ (n : ℕ). w.stream s.sys c.sockfd ++ slice c.send_buffer 0 n) size;
      }
