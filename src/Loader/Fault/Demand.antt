-- ===== src/Loader/Fault/Demand.antt =====
-- Demand paging: what `so_map_page_in_memory` of loader.c does at each address of a segment.
use so.Common.{
  ℕ, ◌-◌, ◌*◌, ◌/◌, ◌^◌, ◌≡◌, ◌≤◌, ◌<◌, refl, ◌∙◌, inr, true, false, none, some, ◌==◌,
  if◌then◌else◌, arith, le→ltb,
}
use native.Mathlib.Nat.{le-div_iff_mul-le}
use so.Loader.Types.{sub32, Data, Seg}
use so.Loader.Kernel.{Kernel, View, IsKernel}
use so.Loader.Fault.{so_run_default_handler, so_map_page_in_memory, map_page}
use so.Loader.Fault.Page.{
  IsFault, IsPaged, page_idx, marked, before, paged_state, paged_state-IsPaged, page_start,
  map_page_lem, Tracks, with_data,
}

module _ {S : Type 0} (k : Kernel S) (v : View S) (laws : IsKernel k v) (pagesz : ℕ) where
  -- With system calls that succeed, and for a segment that the file holds and whose sizes and address
  -- are within the bounds of IsFault, a fault in a page for which a byte is allocated marks the page as
  -- mapped and ends with the page's part of the file, zeros behind it, and the segment's permissions
  -- in the page, and with all other bytes as they were. If the page was mapped already, the default
  -- action runs first, and the page is mapped again all the same.
  pub so_map_page_in_memory-IsPaged :
      ((a n : ℕ) (s : S) → (k.mmap a n s).0 ≡ true)
      → ((a n : ℕ) (s : S) → (k.read a n s).0 ≡ true)
      → (seg : Seg) (pf count : ℕ) (mapped : ℕ → ℕ) (s : S) → IsFault v pagesz seg pf
      → Tracks pagesz seg count mapped
      → (pf - seg.vaddr) / pagesz < count
      → (s' : S) × (so_map_page_in_memory k pagesz true seg pf s
          ≡ some (record {
            exited = false;
            seg = record seg {
              pages =
                  Data.pages count (λ i. if i == (pf - seg.vaddr) / pagesz then 1 else mapped i);
            };
            kernel = s';
          }))
        × IsPaged v pagesz seg
            ((pf - seg.vaddr) / pagesz * pagesz)
            (if mapped ((pf - seg.vaddr) / pagesz) == 1 then so_run_default_handler k pf 1 s else s)
            s'
  unfolding page_idx marked before
  so_map_page_in_memory-IsPaged mmap_ok read_ok seg pf count mapped s fault tracks inside =
      let off = page_idx k v laws pagesz mmap_ok read_ok seg pf fault in
      (
        paged_state k v laws pagesz mmap_ok read_ok seg pf fault (off * pagesz)
            (before k v laws pagesz mmap_ok read_ok seg pf fault mapped s),
        with_data k pagesz seg pf count mapped s tracks
            ∙ map_page_lem k v laws pagesz mmap_ok read_ok seg pf fault count mapped s inside,
        paged_state-IsPaged k v laws pagesz mmap_ok read_ok seg pf fault (off * pagesz) _
            (page_start k v laws pagesz mmap_ok read_ok seg pf fault),
      )

  -- The bytes that `calloc` allocates are one for each whole page of the segment: at an address behind
  -- its last whole page, the first fault of the segment reads past them.
  pub so_map_page_in_memory-faults :
      (seg : Seg) (pf : ℕ) (s : S)
      → 0 < pagesz
      → seg.vaddr ≤ pf
      → pf < 2 ^ 32
      → seg.pages ≡ Data.null
      → seg.mem_size / pagesz * pagesz ≤ pf - seg.vaddr
      → so_map_page_in_memory k pagesz true seg pf s ≡ none
  unfolding map_page Tracks
  so_map_page_in_memory-faults seg pf s page above address fresh behind =
      let diff : sub32 pf seg.vaddr ≡ pf - seg.vaddr = omega (arith, above, address) in
      let past : seg.mem_size / pagesz ≤ (pf - seg.vaddr) / pagesz =
        (le-div_iff_mul-le page).1 behind in
      with_data k pagesz seg pf (seg.mem_size / pagesz) (λ _. 0) s (inr (fresh, refl, refl))
      ∙ rw (diff, map_page) (rw (le→ltb _ _ past) refl)
