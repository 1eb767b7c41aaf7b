-- ===== src/Loader/Parser/Segment.antt =====
-- The body of the second loop of `so_parse_exec` in exec_parser.c: one segment from one header.
use Prim.Native.Nat.{bit_and, bit_or}
use so.Common.{
  min, ℕ, ◌+◌, ◌%◌, ◌^◌, ◌≡◌, ◌≤◌, ◌<◌, refl, Bool, true, false, not, ◌==◌, arith, if◌then◌else◌,
  List, [], ◌∷◌, All,
}
use so.Loader.Types.{Phdr, Data, Seg, sub32}
use so.Loader.Align.{align_down, align_down-mod, pow2}
use so.Loader.Parser.{make_seg, make_perm, lower_base}
use so.Loader.Parser.Spec.{lowest}

-- Whether a bit is set.
abbrev has : ℕ → ℕ → Bool
has flags bit = not (bit_and flags bit == 0)

-- `make_perm` by the results of its three tests for zero.
perm_of : Bool → Bool → Bool → ℕ
perm_of no_x no_r no_w =
    let px = if no_x then 0 else 4 in
    let pr = if no_r then px else bit_or px 1 in if no_w then pr else bit_or pr 2

perm_of-bits :
    (no_x no_r no_w : Bool)
    → (has (perm_of no_x no_r no_w) 4 ≡ not no_x)
      × (has (perm_of no_x no_r no_w) 1 ≡ not no_r)
      × (has (perm_of no_x no_r no_w) 2 ≡ not no_w)
unfolding perm_of
perm_of-bits true true true = (refl, refl, refl)
perm_of-bits true true false = (refl, refl, refl)
perm_of-bits true false true = (refl, refl, refl)
perm_of-bits true false false = (refl, refl, refl)
perm_of-bits false true true = (refl, refl, refl)
perm_of-bits false true false = (refl, refl, refl)
perm_of-bits false false true = (refl, refl, refl)
perm_of-bits false false false = (refl, refl, refl)

-- A segment is executable, readable and writable exactly if the header's flags say so.
make_perm-has :
    (flags : ℕ)
    → (has (make_perm flags) 4 ≡ has flags 1)
      × (has (make_perm flags) 1 ≡ has flags 4)
      × (has (make_perm flags) 2 ≡ has flags 2)
unfolding make_perm perm_of
make_perm-has flags =
    perm_of-bits (bit_and flags 1 == 0) (bit_and flags 4 == 0) (bit_and flags 2 == 0)

-- A header whose ranges stay below 2 ^ 32.
pub record IsPlaced (pagesz : ℕ) (ph : Phdr) : Type 0 where
  pub address : ph.p_vaddr < 2 ^ 32
  pub memory : ph.p_vaddr % pagesz + ph.p_memsz < 2 ^ 32
  pub file : ph.p_vaddr % pagesz + ph.p_filesz < 2 ^ 32
  pub offset : ph.p_offset < 2 ^ 32
  pub room : ph.p_vaddr % pagesz ≤ ph.p_offset

-- With pages of a power of two, a header within 32 bits, and an offset in the file of at least the
-- offset in the page, the segment starts at the start of the page, and it ends in memory and in the
-- file where the header says: it is extended to the start of its page in both.
pub make_seg-aligned :
    (k : ℕ) (garbage : Data) (ph : Phdr)
    → k ≤ 32
    → IsPlaced (pow2 k) ph
    → ((make_seg (pow2 k) garbage ph).vaddr + ph.p_vaddr % pow2 k ≡ ph.p_vaddr)
      × ((make_seg (pow2 k) garbage ph).offset + ph.p_vaddr % pow2 k ≡ ph.p_offset)
      × ((make_seg (pow2 k) garbage ph).vaddr + (make_seg (pow2 k) garbage ph).mem_size
          ≡ ph.p_vaddr + ph.p_memsz)
      × ((make_seg (pow2 k) garbage ph).vaddr + (make_seg (pow2 k) garbage ph).file_size
          ≡ ph.p_vaddr + ph.p_filesz)
unfolding make_seg
make_seg-aligned k garbage ph le placed =
    let start = align_down-mod k ph.p_vaddr le placed.address in
    let diff : sub32 ph.p_vaddr (align_down ph.p_vaddr (pow2 k)) ≡ ph.p_vaddr % pow2 k =
      omega (arith, start, placed.address) in
    rw diff (
      start,
      omega (arith, placed.offset, placed.room),
      omega (arith, start, placed.memory),
      omega (arith, start, placed.file),
    )

pub lower_base-min : (s : Seg) (base : ℕ) → lower_base s base ≡ min s.vaddr base
unfolding lower_base
lower_base-min s base = ground arith

-- No segment is below the least address.
pub lowest-IsLower :
    (segs : List Seg) (base : ℕ)
    → All (λ (s : Seg). lowest segs base ≤ s.vaddr) segs × (lowest segs base ≤ base)
lowest-IsLower [] base = (tt, omega arith)
lowest-IsLower (s ∷ segs) base =
    let rest = lowest-IsLower segs (min s.vaddr base) in
    ((omega (arith, rest.1), rest.0), omega (arith, rest.1))
