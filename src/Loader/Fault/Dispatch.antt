-- ===== src/Loader/Fault/Dispatch.antt =====
-- Which segment the handler of loader.c maps a page of.
use so.Common.{ℕ, ◌≡◌, refl, Bool, true, false, some, List, [], ◌∷◌, ◌++◌, ◌>>=◌, length, All}
use so.Loader.Types.{Seg, Exec}
use so.Loader.Kernel.{Kernel}
use so.Loader.Fault.{
  so_run_default_handler, so_pf_in_segment, Ran, so_map_page_in_memory, handle, sigsegv,
  segv_handler,
}

-- No segment of the list holds the address.
abbrev pub Misses : ℕ → List Seg → Type 0
Misses pf segs = All (λ (seg : Seg). so_pf_in_segment seg pf ≡ false) segs

module _ {S : Type 0} (k : Kernel S) (pagesz : ℕ) (allocated : Bool) (pf : ℕ) (s : S) where
  handle-first :
      (pre post : List Seg) (segment : Seg) (r : Ran S)
      → Misses pf pre
      → so_pf_in_segment segment pf ≡ true
      → so_map_page_in_memory k pagesz allocated segment pf s ≡ some r
      → handle k pagesz allocated pf (length (pre ++ segment ∷ post)) (pre ++ segment ∷ post) s
        ≡ some (record { exited = r.exited; segments = pre ++ r.seg ∷ post; kernel = r.kernel })
  unfolding handle
  handle-first [] post segment r misses hit mapped = rw (hit, handle) (rw (mapped, ◌>>=◌) refl)
  handle-first (x ∷ pre) post segment r misses hit mapped =
      rw (misses.0, handle) (rw (handle-first pre post segment r misses.1 hit mapped, ◌>>=◌) refl)

  handle-none :
      (segs : List Seg)
      → Misses pf segs
      → handle k pagesz allocated pf (length segs) segs s
        ≡ some
            (record { exited = false; segments = segs; kernel = so_run_default_handler k pf 0 s })
  unfolding handle
  handle-none [] misses = refl
  handle-none (x ∷ segs) misses = rw (misses.0, handle) (rw (handle-none segs misses.1, ◌>>=◌) refl)

  -- On SIGSEGV, with as many segments as the executable counts, the page is mapped in the first
  -- segment that holds the address, and the other segments stay as they are.
  pub segv_handler-first :
      (exec : Exec) (pre post : List Seg) (segment : Seg) (r : Ran S)
      → exec.segments ≡ pre ++ segment ∷ post
      → exec.segments_no ≡ length exec.segments
      → Misses pf pre
      → so_pf_in_segment segment pf ≡ true
      → so_map_page_in_memory k pagesz allocated segment pf s ≡ some r
      → segv_handler k pagesz allocated pf sigsegv exec s
        ≡ some (record { exited = r.exited; segments = pre ++ r.seg ∷ post; kernel = r.kernel })
  unfolding segv_handler
  segv_handler-first exec pre post segment r split count misses hit mapped =
      rw count (rw split (handle-first pre post segment r misses hit mapped))

  -- On SIGSEGV at an address that no segment holds, the handler only runs the default action: it maps
  -- nothing and changes no segment.
  segv_handler-unknown :
      (exec : Exec)
      → exec.segments_no ≡ length exec.segments
      → Misses pf exec.segments
      → segv_handler k pagesz allocated pf sigsegv exec s
        ≡ some (record {
          exited = false;
          segments = exec.segments;
          kernel = so_run_default_handler k pf 0 s;
        })
  unfolding segv_handler
  segv_handler-unknown exec count misses = rw count (handle-none exec.segments misses)
