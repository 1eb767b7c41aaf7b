-- ===== src/Loader/Program.antt =====
-- The parser and the handler together: what a program reads at an address of a PT_LOAD header.
use so.Common.{
  ℕ, ◌+◌, ◌-◌, ◌*◌, ◌/◌, ◌%◌, ◌^◌, ◌≡◌, ◌≤◌, ◌<◌, refl, sym, inr, ◌∙◌, ap, true, false, some, arith,
}
use native.Mathlib.Nat.{div-add-mod, mod-lt}
use so.Loader.Types.{Phdr, Data, Seg}
use so.Loader.Align.{pow2, pow2-pos}
use so.Loader.Kernel.{Kernel, View, IsKernel}
use so.Loader.Parser.{make_seg}
use so.Loader.Parser.Segment.{IsPlaced, make_seg-aligned}
use so.Loader.Fault.{Ran, so_map_page_in_memory}
use so.Loader.Fault.Page.{IsFault, IsPaged, Tracks, content, content-file}
use so.Loader.Fault.Demand.{so_map_page_in_memory-IsPaged}

-- A header whose part of the file exists, with pages and a file part below 2 ^ 31.
pub record IsBacked {S : Type 0} (v : View S) (pagesz : ℕ) (ph : Phdr) : Type 0 where
  pub placed : IsPlaced pagesz ph
  pub page_bound : pagesz < 2 ^ 31
  pub file_bound : ph.p_vaddr % pagesz + ph.p_filesz < 2 ^ 31
  pub offset_bound : ph.p_offset + ph.p_filesz < 2 ^ 32
  pub in_file : ph.p_offset + ph.p_filesz ≤ v.file_len

module _ {S : Type 0} (v : View S) (b : ℕ) (le : b ≤ 32) (ph : Phdr)
    (backed : IsBacked v (pow2 b) ph) where
  segment : Seg
  segment = make_seg (pow2 b) Data.null ph

  segment-IsFault : (pf : ℕ) → segment.vaddr ≤ pf → pf < 2 ^ 32 → IsFault v (pow2 b) segment pf
  unfolding segment
  segment-IsFault pf above address =
      let aligned = make_seg-aligned b Data.null ph le backed.placed in
      record {
        page = pow2-pos b;
        above = above;
        address = address;
        file_bound = omega (arith, aligned.0, aligned.3, backed.file_bound);
        page_bound = backed.page_bound;
        offset_bound = omega (arith, aligned.0, aligned.1, aligned.3, backed.offset_bound);
        in_file = omega (arith, aligned.0, aligned.1, aligned.3, backed.in_file);
      }

  -- The segment's byte at an address of the header is the file's.
  segment-content :
      (pf : ℕ)
      → ph.p_vaddr ≤ pf
      → pf < ph.p_vaddr + ph.p_filesz
      → content v segment (pf - segment.vaddr) ≡ v.file (ph.p_offset + (pf - ph.p_vaddr))
  unfolding segment
  segment-content pf above below =
      let aligned = make_seg-aligned b Data.null ph le backed.placed in
      content-file v (make_seg (pow2 b) Data.null ph) _ (omega (arith, aligned.0, aligned.3))
      ∙ ap v.file (omega (arith, aligned.0, aligned.1))

fresh_pages : (pagesz : ℕ) (ph : Phdr) → (make_seg pagesz Data.null ph).pages ≡ Data.null
unfolding make_seg
fresh_pages pagesz ph = refl

-- A byte of a page that is as it should be.
IsPaged-byte :
    {S : Type 0} (v : View S) (p : ℕ) (seg : Seg) (pf : ℕ) (s s' : S)
    → 0 < p
    → seg.vaddr ≤ pf
    → IsPaged v p seg ((pf - seg.vaddr) / p * p) s s'
    → v.byte s' pf ≡ content v seg (pf - seg.vaddr)
IsPaged-byte v p seg pf s s' pos above paged =
    let o = pf - seg.vaddr in
    let sum : o / p * p + o % p ≡ o = grind (arith, div-add-mod o p) in
    let at : seg.vaddr + o / p * p + o % p ≡ pf = omega (arith, sum, above) in
    ap (v.byte s') (sym at)
    ∙ paged.filled (o % p) (mod-lt o pos)
    ∙ ap (λ (n : ℕ). content v seg n) sum

-- With system calls that succeed, take a PT_LOAD header whose part of the file exists, within the
-- bounds of IsBacked, and the segment that the parser makes of it, with `data` NULL. A fault at an address of the header's part of the
-- file, in a whole page of the segment, returns with the byte of the file that the header puts there.
pub so_map_page_in_memory-byte :
    {S : Type 0} (k : Kernel S) (v : View S) (laws : IsKernel k v) (b : ℕ)
    → ((a n : ℕ) (s : S) → (k.mmap a n s).0 ≡ true)
    → ((a n : ℕ) (s : S) → (k.read a n s).0 ≡ true)
    → b ≤ 32
    → (ph : Phdr) → IsBacked v (pow2 b) ph
    → (pf : ℕ) (s : S) → ph.p_vaddr ≤ pf
    → pf < ph.p_vaddr + ph.p_filesz
    → pf < 2 ^ 32
    → (pf - (make_seg (pow2 b) Data.null ph).vaddr) / pow2 b
      < (make_seg (pow2 b) Data.null ph).mem_size / pow2 b
    → (r : Ran S) × (so_map_page_in_memory k (pow2 b) true (make_seg (pow2 b) Data.null ph) pf s
        ≡ some r)
      × (r.exited ≡ false)
      × (v.byte r.kernel pf ≡ v.file (ph.p_offset + (pf - ph.p_vaddr)))
unfolding segment Tracks
so_map_page_in_memory-byte k v laws b mmap_ok read_ok le ph backed pf s above below address whole =
    let seg : Seg = make_seg (pow2 b) Data.null ph in
    let aligned = make_seg-aligned b Data.null ph le backed.placed in
    let start : seg.vaddr ≤ pf = omega (arith, aligned.0) in
    let paged =
      so_map_page_in_memory-IsPaged k v laws (pow2 b) mmap_ok read_ok seg pf (seg.mem_size / pow2 b)
        (λ _. 0) s (segment-IsFault v b le ph backed pf start address)
        (inr (fresh_pages (pow2 b) ph, refl, refl)) whole in
    (
      _,
      paged.1,
      refl,
      IsPaged-byte v (pow2 b) seg pf s paged.0 (pow2-pos b) start paged.2
          ∙ segment-content v b le ph backed pf above below,
    )
