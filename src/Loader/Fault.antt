-- ===== src/Loader/Fault.antt =====
-- Homeworks/Executable Loader/loader/loader.c: the SIGSEGV handler. `none` is an access outside the
-- allocated memory or through a pointer that was never assigned.
pub mod Page
pub mod Demand
pub mod Pages
pub mod Dispatch
use so.Common.{
  ℕ, zero, suc, ◌+◌, ◌-◌, ◌*◌, ◌/◌, ◌%◌, ◌^◌, Bool, true, false, Option, none, some, List, [], ◌∷◌,
  ◌==◌, if◌then◌else◌, ◌>>=◌, ltb, leb, ◌&&◌,
}
use so.Loader.Types.{add32, sub32, Data, Seg, Exec}
use so.Loader.Kernel.{Kernel}

-- An `int` and the number with the same 32 bits: adding 2 ^ 31 turns the order of `int` into that of ℕ.
abbrev int_gt : ℕ → ℕ → Bool
int_gt a b = ltb ((b + 2 ^ 31) % 2 ^ 32) ((a + 2 ^ 31) % 2 ^ 32)

-- `min`, of two `int`.
unfoldable pub min_int : ℕ → ℕ → ℕ
min_int a b = if int_gt a b then b else a

unfoldable pub so_pf_in_segment : Seg → ℕ → Bool
so_pf_in_segment segment pf_addr =
    leb pf_addr (add32 segment.vaddr segment.mem_size) && leb segment.vaddr pf_addr

-- How a call ends: whether it ended the process, and the segment and the system after it.
pub record Ran (S : Type 0) : Type 0 where
  pub exited : Bool
  pub seg : Seg
  pub kernel : S

abbrev pub sigsegv : ℕ
sigsegv = 11

-- The message depends on `err_case`.
unfoldable pub so_run_default_handler : {S : Type 0} → Kernel S → ℕ → ℕ → S → S
so_run_default_handler k pf_addr err_case s = k.raise sigsegv (
    if err_case == 0
    then k.print_unknown pf_addr (k.signal_default sigsegv s)
    else k.print_invalid pf_addr (k.signal_default sigsegv s))

module _ {S : Type 0} (k : Kernel S) (pagesz : ℕ) where
  -- `if (segment->file_size > page_offset) { lseek; read }`
  unfoldable pub read_page : Seg → ℕ → S → Bool × S
  unfolding min_int
  read_page segment page_offset s =
      if ltb page_offset segment.file_size
      then k.read (add32 segment.vaddr page_offset)
          (min_int (sub32 segment.file_size page_offset) pagesz)
          (k.lseek (add32 segment.offset page_offset) s)
      else (true, s)

  -- From the test of `file_size` on; the argument is what `read_page` returns.
  unfoldable pub protect_page : Seg → ℕ → Bool × S → Ran S
  protect_page segment page_offset (true, s) = record {
    exited = false;
    seg = segment;
    kernel = k.mprotect (add32 segment.vaddr page_offset) pagesz segment.perm s;
  }
  protect_page segment page_offset (false, s) = record { exited = true; seg = segment; kernel = s }

  -- From the test of `mmap`'s result on, which is the argument; `count` bytes are allocated.
  unfoldable pub fill_page : Seg → ℕ → (ℕ → ℕ) → ℕ → Bool × S → Ran S
  unfolding read_page protect_page
  fill_page segment count mapped page_idx (true, s) =
      let mapped' : ℕ → ℕ = λ i. if i == page_idx then 1 else mapped i in
      let segment' : Seg = record segment { pages = Data.pages count mapped' } in
      let page_offset = page_idx * pagesz in
      protect_page segment' page_offset (read_page segment' page_offset s)
  fill_page segment count mapped page_idx (false, s) = record {
    exited = true;
    seg = record segment { pages = Data.pages count mapped };
    kernel = s;
  }

  -- `so_map_page_in_memory` once `data` points to `count` bytes.
  unfoldable pub map_page : Seg → ℕ → (ℕ → ℕ) → ℕ → S → Option (Ran S)
  unfolding fill_page
  map_page segment count mapped pf_addr s =
      let page_idx = sub32 pf_addr segment.vaddr / pagesz in
      elim (ltb page_idx count) [
        | true ↦
            let s1 = if mapped page_idx == 1 then so_run_default_handler k pf_addr 1 s else s in
            some (
              fill_page segment count mapped page_idx
                (k.mmap (add32 segment.vaddr (page_idx * pagesz)) pagesz s1))
        | false ↦ none
      ]

  -- The Boolean says whether `calloc` succeeds.
  unfoldable pub map_with_data : Data → Bool → Seg → ℕ → S → Option (Ran S)
  unfolding map_page
  map_with_data Data.null true segment pf_addr s =
      map_page segment (segment.mem_size / pagesz) (λ _. 0) pf_addr s
  map_with_data Data.null false segment pf_addr s =
      some (record { exited = true; seg = segment; kernel = s })
  map_with_data (Data.pages count mapped) allocated segment pf_addr s =
      map_page segment count mapped pf_addr s
  map_with_data Data.wild allocated segment pf_addr s = none

  unfoldable pub so_map_page_in_memory : Bool → Seg → ℕ → S → Option (Ran S)
  unfolding map_with_data
  so_map_page_in_memory allocated segment pf_addr s =
      map_with_data segment.pages allocated segment pf_addr s

-- How the handler ends: the segments and the system after it.
pub record Handled (S : Type 0) : Type 0 where
  pub exited : Bool
  pub segments : List Seg
  pub kernel : S

module _ {S : Type 0} (k : Kernel S) (pagesz : ℕ) (allocated : Bool) (pf_addr : ℕ) where
  -- The loop of `segv_handler` over the segments that are left, with `n` rounds left.
  unfoldable pub handle : ℕ → List Seg → S → Option (Handled S)
  unfolding so_map_page_in_memory so_pf_in_segment
  handle zero segs s =
      some
        (record { exited = false; segments = segs; kernel = so_run_default_handler k pf_addr 0 s })
  handle (suc n) [] s = none
  handle (suc n) (segment ∷ segs) s = elim (so_pf_in_segment segment pf_addr) [
    | true ↦ (do
      r ← so_map_page_in_memory k pagesz allocated segment pf_addr s
      some (record { exited = r.exited; segments = r.seg ∷ segs; kernel = r.kernel }))
    | false ↦ (do
      r ← handle n segs s
      some (record { exited = r.exited; segments = segment ∷ r.segments; kernel = r.kernel }))
  ]

  -- For any other signal the handler calls through a `struct sigaction` that it never assigned.
  unfoldable pub segv_handler : ℕ → Exec → S → Option (Handled S)
  unfolding handle
  segv_handler signum exec s =
      if signum == sigsegv then handle exec.segments_no exec.segments s else none
