-- ===== src/Loader/Fault/Pages.antt =====
-- The pages of a segment over several faults: loader.c keeps what it mapped.
use so.Common.{
  ℕ, ◌+◌, ◌-◌, ◌*◌, ◌/◌, ◌≡◌, ◌≢◌, ◌≤◌, ◌<◌, refl, ◌∙◌, ap, inl, inr, true, false, some, ◌==◌,
  if◌then◌else◌, arith, ne→==, ℕ_discrete, dec_lt,
}
use so.Loader.Types.{Data, Seg}
use so.Loader.Kernel.{Kernel, View, IsKernel, Outside}
use so.Loader.Fault.{so_run_default_handler, so_map_page_in_memory}
use so.Loader.Fault.Page.{IsFault, Tracks, content}
use so.Loader.Fault.Demand.{so_map_page_in_memory-IsPaged}

-- Every page that `mapped` marks holds its part of the file, and zeros behind it.
unfoldable pub IsLoaded : {S : Type 0} → View S → ℕ → Seg → (ℕ → ℕ) → S → Type 0
IsLoaded v pagesz seg mapped s =
    (j i : ℕ)
    → mapped j ≡ 1
    → i < pagesz
    → v.byte s (seg.vaddr + j * pagesz + i) ≡ content v seg (j * pagesz + i)

next_page : (p j k : ℕ) → j < k → j * p + p ≤ k * p
next_page p j k lt = let later : k ≡ j + 1 + (k - (j + 1)) = omega arith in rw later (grind arith)

-- The bytes of another page are outside the page.
other_page : (a p j k i : ℕ) → j ≢ k → i < p → Outside (a + k * p) p (a + j * p + i)
other_page a p j k i ne lt = elim (dec_lt j k) [
  | yes less ↦ inl omega (arith, next_page p j k less)
  | no more ↦ inr omega (arith, next_page p k j (omega arith))
]

module _ {S : Type 0} (k : Kernel S) (v : View S) (laws : IsKernel k v) (pagesz : ℕ) where
  -- With system calls that succeed, and for a segment that the file holds and whose sizes and address
  -- are within the bounds of IsFault, a fault in a page that is not mapped yet, and for which a byte is
  -- allocated, keeps every page that was mapped before as it should be, and adds the page to them.
  pub so_map_page_in_memory-IsLoaded :
      ((a n : ℕ) (s : S) → (k.mmap a n s).0 ≡ true)
      → ((a n : ℕ) (s : S) → (k.read a n s).0 ≡ true)
      → (seg : Seg) (pf count : ℕ) (mapped : ℕ → ℕ) (s : S) → IsFault v pagesz seg pf
      → Tracks pagesz seg count mapped
      → (pf - seg.vaddr) / pagesz < count
      → mapped ((pf - seg.vaddr) / pagesz) ≢ 1
      → IsLoaded v pagesz seg mapped s
      → (s' : S) × (so_map_page_in_memory k pagesz true seg pf s
          ≡ some (record {
            exited = false;
            seg = record seg {
              pages =
                  Data.pages count (λ i. if i == (pf - seg.vaddr) / pagesz then 1 else mapped i);
            };
            kernel = s';
          }))
        × IsLoaded v pagesz seg (λ i. if i == (pf - seg.vaddr) / pagesz then 1 else mapped i) s'
  unfolding IsLoaded
  so_map_page_in_memory-IsLoaded mmap_ok read_ok seg pf count mapped s fault tracks inside new
        loaded =
      let idx = (pf - seg.vaddr) / pagesz in
      let paged =
        so_map_page_in_memory-IsPaged k v laws pagesz mmap_ok read_ok seg pf count mapped s fault
          tracks inside in
      let s0 : S = if mapped idx == 1 then so_run_default_handler k pf 1 s else s in
      let same : s0 ≡ s = rw (ne→== (mapped idx) 1 new) refl in
      (
        paged.0,
        paged.1,
        (λ j i marked lt. elim (ℕ_discrete j idx) [
          | yes this ↦ rw this (paged.2.filled i lt)
          | no other ↦
              paged.2.others _ (other_page seg.vaddr pagesz j idx i other lt)
              ∙ ap (λ (x : S). v.byte x (seg.vaddr + j * pagesz + i)) same
              ∙ loaded j i (rw (ne→== j idx other) at marked) lt
        ]),
      )
