-- ===== src/Loader/Fault/Page.antt =====
-- What a page fault in a segment leaves in memory: `so_map_page_in_memory` of loader.c.
use so.Common.{
  ℕ, ◌+◌, ◌-◌, ◌*◌, ◌/◌, ◌%◌, ◌^◌, ◌≡◌, ◌≤◌, ◌<◌, refl, sym, ap, ◌∙◌, inl, inr, ◌⊎◌, Bool, true,
  false, some, ◌==◌, if◌then◌else◌, ltb, lt→ltb, le→ltb, ltb→le, ltb→lt, arith, Bool-cases, dec_lt,
}
use native.Mathlib.Nat.{div-add-mod}
use so.Loader.Types.{add32, sub32, Data, Seg}
use so.Loader.Kernel.{Kernel, View, IsKernel, Outside}
use so.Loader.Fault.{
  so_run_default_handler, min_int, read_page, protect_page, fill_page, map_page, map_with_data,
  so_map_page_in_memory,
}

-- A fault at `pf` in a segment within 32 bits whose file part the file has; no size is 2 ^ 31 or more.
pub record IsFault {S : Type 0} (v : View S) (pagesz : ℕ) (seg : Seg) (pf : ℕ) : Type 0 where
  pub page : 0 < pagesz
  pub above : seg.vaddr ≤ pf
  pub address : pf < 2 ^ 32
  pub file_bound : seg.file_size < 2 ^ 31
  pub page_bound : pagesz < 2 ^ 31
  pub offset_bound : seg.offset + seg.file_size < 2 ^ 32
  pub in_file : seg.offset + seg.file_size ≤ v.file_len

-- The byte at `i` of a segment: that of the file, or zero behind the file part.
abbrev pub content : {S : Type 0} → View S → Seg → ℕ → ℕ
content v seg i = if ltb i seg.file_size then v.file (seg.offset + i) else 0

-- The page that starts `off` bytes into the segment has its content and its permissions after a
-- call, and all other bytes are those from before.
pub record IsPaged {S : Type 0} (v : View S) (pagesz : ℕ) (seg : Seg) (off : ℕ) (s s' : S)
    : Type 0 where
  pub filled : (i : ℕ) → i < pagesz → v.byte s' (seg.vaddr + off + i) ≡ content v seg (off + i)
  pub prot : (i : ℕ) → i < pagesz → v.prot s' (seg.vaddr + off + i) ≡ seg.perm
  pub others : (x : ℕ) → Outside (seg.vaddr + off) pagesz x → v.byte s' x ≡ v.byte s x

pub content-file :
    {S : Type 0} (v : View S) (seg : Seg) (i : ℕ)
    → i < seg.file_size
    → content v seg i ≡ v.file (seg.offset + i)
content-file v seg i lt = rw (lt→ltb _ _ lt) refl

content-zero :
    {S : Type 0} (v : View S) (seg : Seg) (i : ℕ) → seg.file_size ≤ i → content v seg i ≡ 0
content-zero v seg i le = rw (le→ltb _ _ le) refl

min_int_lem :
    (a b : ℕ)
    → a < 2 ^ 31
    → b < 2 ^ 31
    → ((min_int a b ≡ a) × (a ≤ b)) ⊎ ((min_int a b ≡ b) × (b < a))
unfolding min_int
min_int_lem a b ha hb =
    let ea : (a + 2 ^ 31) % 2 ^ 32 ≡ a + 2 ^ 31 = omega arith in
    let eb : (b + 2 ^ 31) % 2 ^ 32 ≡ b + 2 ^ 31 = omega arith in
    elim (Bool-cases (ltb (b + 2 ^ 31) (a + 2 ^ 31))) [
      | inl t ↦ inr (rw (ea, eb, t) refl, omega (arith, ltb→lt _ _ t))
      | inr f ↦ inl (rw (ea, eb, f) refl, omega (arith, ltb→le _ _ f))
    ]

module _ {S : Type 0} (k : Kernel S) (v : View S) (laws : IsKernel k v) (pagesz : ℕ)
    (mmap_ok : (a n : ℕ) (s : S) → (k.mmap a n s).0 ≡ true)
    (read_ok : (a n : ℕ) (s : S) → (k.read a n s).0 ≡ true) (seg : Seg) (pf : ℕ)
    (fault : IsFault v pagesz seg pf) where
  -- What `read_page` leaves in a page that is all zero.
  Reads : ℕ → S → Bool × S → Type 0
  Reads off s r =
      (r.0 ≡ true)
      × ((i : ℕ) → i < pagesz → v.byte r.1 (seg.vaddr + off + i) ≡ content v seg (off + i))
      × ((x : ℕ) → Outside (seg.vaddr + off) pagesz x → v.byte r.1 x ≡ v.byte s x)

  read_part :
      (off n : ℕ) (s : S)
      → seg.vaddr + off ≤ pf
      → off < seg.file_size
      → ((n ≡ seg.file_size - off) × (seg.file_size - off ≤ pagesz))
        ⊎ ((n ≡ pagesz) × (pagesz < seg.file_size - off))
      → ((i : ℕ) → i < pagesz → v.byte s (seg.vaddr + off + i) ≡ 0)
      → Reads off s (k.read (seg.vaddr + off) n (k.lseek (seg.offset + off) s))
  unfolding Reads
  read_part off n s le part least zeros =
      let o = seg.offset + off in
      let a = seg.vaddr + off in
      let s1 : S = k.lseek o s in
      let at_o : v.pos s1 ≡ o = laws.lseek_pos o s in
      let kept : (x : ℕ) → Outside a n x → v.byte (k.read a n s1).1 x ≡ v.byte s x =
        λ x out. laws.read_outside a n x s1 out ∙ laws.lseek_byte o x s in
      (
        read_ok a n s1,
        (λ i lt. elim (dec_lt (off + i) seg.file_size) [
          | yes inside ↦
              laws.read_inside a n i s1 (read_ok a n s1) (grind arith)
                (omega (arith, at_o, fault.in_file))
              ∙ ap v.file (omega (arith, at_o))
              ∙ sym (content-file v seg (off + i) inside)
          | no past ↦
              kept (a + i) (inr (grind arith))
              ∙ zeros i lt
              ∙ sym (content-zero v seg (off + i) (omega arith))
        ]),
        (λ x out. kept x (grind arith)),
      )

  read_page-Reads :
      (off : ℕ) (s : S)
      → seg.vaddr + off ≤ pf
      → ((i : ℕ) → i < pagesz → v.byte s (seg.vaddr + off + i) ≡ 0)
      → Reads off s (read_page k pagesz seg off s)
  unfolding read_page Reads
  read_page-Reads off s le zeros = elim (Bool-cases (ltb off seg.file_size)) [
    | inl t ↦
        let part = ltb→lt _ _ t in
        let to : add32 seg.vaddr off ≡ seg.vaddr + off = omega (arith, fault.address) in
        let size : sub32 seg.file_size off ≡ seg.file_size - off =
          omega (arith, fault.file_bound) in
        let from : add32 seg.offset off ≡ seg.offset + off = omega (arith, fault.offset_bound) in
        rw (t, to, size, from)
          (read_part off _ s le part
            (min_int_lem (seg.file_size - off) pagesz (omega (arith, fault.file_bound))
              fault.page_bound)
            zeros)
    | inr f ↦
        let past = ltb→le _ _ f in
        rw f (
          refl,
          (λ i lt. zeros i lt ∙ sym (content-zero v seg (off + i) (omega arith))),
          (λ x out. refl),
        )
  ]

  -- The state after a fault at a page that is not mapped.
  pub paged_state : ℕ → S → S
  paged_state off s =
      k.mprotect (seg.vaddr + off) pagesz seg.perm
        (read_page k pagesz seg off (k.mmap (seg.vaddr + off) pagesz s).1).1

  mmap_zeros :
      (off : ℕ) (s : S) (i : ℕ)
      → i < pagesz
      → v.byte (k.mmap (seg.vaddr + off) pagesz s).1 (seg.vaddr + off + i) ≡ 0
  mmap_zeros off s i lt =
      laws.mmap_inside _ pagesz _ s (mmap_ok _ pagesz s) (omega arith) (omega arith)

  pub paged_state-IsPaged :
      (off : ℕ) (s : S) → seg.vaddr + off ≤ pf → IsPaged v pagesz seg off s (paged_state off s)
  unfolding paged_state Reads
  paged_state-IsPaged off s le =
      let a = seg.vaddr + off in
      let s1 : S = (k.mmap a pagesz s).1 in
      let reads = read_page-Reads off s1 le (mmap_zeros off s) in
      record {
        filled = λ i lt. laws.mprotect_byte a pagesz seg.perm (a + i) _ ∙ reads.1 i lt;
        prot = λ i lt. laws.mprotect_inside a pagesz seg.perm (a + i) _ (omega arith) (omega arith);
        others = λ x out.
            laws.mprotect_byte a pagesz seg.perm x _
            ∙ reads.2 x out
            ∙ laws.mmap_outside a pagesz x s out;
      }

  -- The page that holds `pf`, and the segment once it is marked.
  unfoldable pub page_idx : ℕ
  page_idx = (pf - seg.vaddr) / pagesz

  unfoldable pub marked : ℕ → (ℕ → ℕ) → Seg
  marked count mapped = record seg {
    pages = Data.pages count (λ i. if i == page_idx then 1 else mapped i);
  }

  pub page_start : seg.vaddr + page_idx * pagesz ≤ pf
  unfolding page_idx
  page_start = grind (arith, div-add-mod (pf - seg.vaddr) pagesz, fault.above)

  fill_page_lem :
      (count : ℕ) (mapped : ℕ → ℕ) (s : S)
      → fill_page k pagesz seg count mapped page_idx
          (k.mmap (seg.vaddr + page_idx * pagesz) pagesz s)
        ≡ record {
          exited = false;
          seg = marked count mapped;
          kernel = paged_state (page_idx * pagesz) s;
        }
  unfolding fill_page protect_page read_page paged_state marked Reads
  fill_page_lem count mapped s =
      let a = seg.vaddr + page_idx * pagesz in
      let to : add32 seg.vaddr (page_idx * pagesz) ≡ a = omega (arith, page_start, fault.address) in
      let got =
        (read_page-Reads (page_idx * pagesz) (k.mmap a pagesz s).1 page_start (mmap_zeros _ s)).0 in
      rw (mmap_ok a pagesz s, fill_page)
        (rw (got, protect_page) (rw (to, paged_state, read_page) refl))

  -- What `map_page` starts from: a page that is mapped already runs the default action first.
  unfoldable pub before : (ℕ → ℕ) → S → S
  before mapped s = if mapped page_idx == 1 then so_run_default_handler k pf 1 s else s

  pub map_page_lem :
      (count : ℕ) (mapped : ℕ → ℕ) (s : S)
      → page_idx < count
      → map_page k pagesz seg count mapped pf s
        ≡ some (record {
          exited = false;
          seg = marked count mapped;
          kernel = paged_state (page_idx * pagesz) (before mapped s);
        })
  unfolding map_page page_idx before
  map_page_lem count mapped s inside =
      let diff : sub32 pf seg.vaddr ≡ pf - seg.vaddr = omega (arith, fault.above, fault.address) in
      let to : add32 seg.vaddr (page_idx * pagesz) ≡ seg.vaddr + page_idx * pagesz =
        omega (arith, page_start, fault.address) in
      rw (diff, map_page)
        (rw (lt→ltb _ _ inside)
          (rw diff (rw to (ap some (fill_page_lem count mapped (before mapped s))))))

-- The handler's record of a segment's mapped pages: `count` bytes, of which `mapped` gives the
-- values. A segment without one gets one of `mem_size / pagesz` zero bytes.
unfoldable pub Tracks : ℕ → Seg → ℕ → (ℕ → ℕ) → Type 0
Tracks pagesz seg count mapped =
    (seg.pages ≡ Data.pages count mapped)
    ⊎ ((seg.pages ≡ Data.null) × (count ≡ seg.mem_size / pagesz) × (mapped ≡ (λ _. 0)))

pub with_data :
    {S : Type 0} (k : Kernel S) (pagesz : ℕ) (seg : Seg) (pf count : ℕ) (mapped : ℕ → ℕ) (s : S)
    → Tracks pagesz seg count mapped
    → so_map_page_in_memory k pagesz true seg pf s ≡ map_page k pagesz seg count mapped pf s
unfolding Tracks so_map_page_in_memory map_with_data
with_data k pagesz seg pf count mapped s (inl known) = rw (known, map_with_data) refl
with_data k pagesz seg pf count mapped s (inr fresh) =
    rw (fresh.0, map_with_data) (rw (fresh.1, fresh.2) refl)
