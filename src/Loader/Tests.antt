-- ===== src/Loader/Tests.antt =====
-- Loader theorems at concrete inputs: a small ELF file, and a system with memory and one file.
mod Starts
use so.Common.{
  ℕ, ◌+◌, ◌-◌, ◌*◌, ◌%◌, ◌≡◌, ◌≤◌, ◌<◌, refl, inl, inr, ◌/◌, Bool, true, false, Option, none, some,
  List, [], ◌∷◌, ◌==◌, if◌then◌else◌, ltb, leb, lt→ltb, ◌&&◌, arith, ◌↔◌, All,
}
use so.Loader.Types.{Ehdr, Phdr, Buffer, ElfLayout, Data, Seg, Exec}
use so.Loader.Align.{pow2, align_down}
use so.Loader.Kernel.{Kernel, View, IsKernel, Outside}
use so.Loader.Parser.{
  Calls, Parsed, ParseError, refused, make_perm, make_seg, so_parse_exec, header_error,
}
use so.Loader.Parser.Spec.{IsExec32, loaded, Reports}
use so.Loader.Parser.Header.{header_error-IsExec32}
use so.Loader.Parser.Outcome.{
  so_parse_exec-loaded, so_parse_exec-refused, so_parse_exec-faults, so_parse_exec-Reports,
}
use so.Loader.Parser.Segment.{IsPlaced, make_seg-aligned}
use so.Loader.Fault.{
  so_run_default_handler, Ran, so_pf_in_segment, so_map_page_in_memory, segv_handler, sigsegv,
}
use so.Loader.Fault.Page.{IsFault, IsPaged, Tracks}
use so.Loader.Fault.Demand.{so_map_page_in_memory-IsPaged, so_map_page_in_memory-faults}
use so.Loader.Fault.Pages.{IsLoaded, so_map_page_in_memory-IsLoaded}
use so.Loader.Program.{IsBacked, so_map_page_in_memory-byte}
use so.Loader.Fault.Dispatch.{segv_handler-first}

-- A buffer that is zero but for the listed bytes.
abbrev pub bytes : List (ℕ × ℕ) → Buffer
bytes [] i = 0
bytes (b ∷ bs) i = if i == b.0 then b.1 else bytes bs i

abbrev pub le16 : Buffer → ℕ → ℕ
le16 b i = b i + 256 * b (i + 1)

abbrev pub le32 : Buffer → ℕ → ℕ
le32 b i = le16 b i + 65536 * le16 b (i + 2)

-- The offsets of elf.h.
abbrev pub elf32 : ElfLayout
elf32 = record {
  sizeof_ehdr = 52;
  sizeof_phdr = 32;
  ehdr = λ b. record {
    ei_mag0 = b 0;
    ei_mag1 = b 1;
    ei_mag2 = b 2;
    ei_mag3 = b 3;
    ei_class = b 4;
    ei_data = b 5;
    ei_version = b 6;
    ei_osabi = b 7;
    e_type = le16 b 16;
    e_machine = le16 b 18;
    e_version = le32 b 20;
    e_entry = le32 b 24;
    e_phoff = le32 b 28;
    e_phentsize = le16 b 42;
    e_phnum = le16 b 44;
  };
  phdr = λ b i. record {
    p_type = le32 b i;
    p_offset = le32 b (i + 4);
    p_vaddr = le32 b (i + 8);
    p_filesz = le32 b (i + 16);
    p_memsz = le32 b (i + 20);
    p_flags = le32 b (i + 24);
  };
}

-- An executable with one PT_LOAD header at 52 plus `shift`, and one other header.
abbrev pub elf_file : ℕ → Buffer
elf_file shift = bytes (
    (0, 127)
    ∷ (1, 69)
    ∷ (2, 76)
    ∷ (3, 70)
    ∷ (4, 1)
    ∷ (5, 1)
    ∷ (6, 1)
    ∷ (16, 2)
    ∷ (18, 3)
    ∷ (20, 1)
    ∷ (25, 128)
    ∷ (26, 4)
    ∷ (27, 8)
    ∷ (28, 52)
    ∷ (29, shift)
    ∷ (42, 32)
    ∷ (44, 2)
    ∷ (52, 1)
    ∷ (56, 52)
    ∷ (60, 52)
    ∷ (61, 128)
    ∷ (62, 4)
    ∷ (63, 8)
    ∷ (68, 200)
    ∷ (73, 1)
    ∷ (76, 5)
    ∷ (84, 2)
    ∷ [])

abbrev pub calls : ℕ → Option ℕ → Calls
calls shift got = record {
  opened = true;
  read_bytes = got;
  hdr = elf_file shift;
  pagesz = 4096;
  exec_allocated = true;
  segments_allocated = true;
  garbage = λ _. Data.null;
}

abbrev pub file_ehdr : ℕ → Ehdr
file_ehdr shift = elf32.ehdr (elf_file shift)

pub file_IsExec32 : (shift : ℕ) → IsExec32 elf32 400 (file_ehdr shift)
file_IsExec32 shift = record {
  room = omega arith;
  mag0 = refl;
  mag1 = refl;
  mag2 = refl;
  mag3 = refl;
  class32 = refl;
  lsb = refl;
  ident = refl;
  abi = inr refl;
  exec = refl;
  i386 = refl;
  version = refl;
  all_read = omega arith;
}

header_error-IsExec32_example :
    (header_error elf32 400 (file_ehdr 0) ≡ none) ↔ IsExec32 elf32 400 (file_ehdr 0)
header_error-IsExec32_example = header_error-IsExec32 elf32 400 (file_ehdr 0)

abbrev loaded_result : Parsed
loaded_result = record {
  exec = some (loaded elf32 (calls 0 (some 400)) (file_ehdr 0));
  message = none;
  closed = true;
}

so_parse_exec-loaded_example :
    (so_parse_exec elf32 (calls 0 (some 400)) ≡ some loaded_result)
    × All
        (λ (s : Seg). (loaded elf32 (calls 0 (some 400)) (file_ehdr 0)).base_addr ≤ s.vaddr)
        (loaded elf32 (calls 0 (some 400)) (file_ehdr 0)).segments
so_parse_exec-loaded_example =
    so_parse_exec-loaded elf32 (calls 0 (some 400)) 400 refl refl refl refl (file_IsExec32 0)
      (omega arith)

so_parse_exec-faults_example : so_parse_exec elf32 (calls 9 (some 400)) ≡ none
so_parse_exec-faults_example =
    so_parse_exec-faults elf32 (calls 9 (some 400)) 400 refl refl refl (file_IsExec32 9)
      (omega arith) (omega arith)

short_file : ¬ IsExec32 elf32 60 (file_ehdr 0)
short_file valid = absurd (omega (arith, valid.room))

so_parse_exec-refused_example :
    (m : ParseError) × (so_parse_exec elf32 (calls 0 (some 60)) ≡ some (refused m))
so_parse_exec-refused_example =
    so_parse_exec-refused elf32 (calls 0 (some 60)) 60 refl refl short_file

so_parse_exec-Reports_example : (true ≡ true) × Reports loaded_result
so_parse_exec-Reports_example =
    so_parse_exec-Reports elf32 (calls 0 (some 400)) loaded_result
      (so_parse_exec-loaded elf32 (calls 0 (some 400)) 400 refl refl refl refl (file_IsExec32 0)
        (omega arith)).0

abbrev load_header : Phdr
load_header = record {
  p_type = 1;
  p_offset = 60;
  p_vaddr = 8252;
  p_filesz = 200;
  p_memsz = 9000;
  p_flags = 5;
}

load_header-IsPlaced : IsPlaced (pow2 12) load_header
unfolding pow2
load_header-IsPlaced = record {
  address = omega arith;
  memory = omega arith;
  file = omega arith;
  offset = omega arith;
  room = omega arith;
}

make_seg-aligned_example :
    ((make_seg (pow2 12) Data.null load_header).vaddr + 8252 % pow2 12 ≡ 8252)
    × ((make_seg (pow2 12) Data.null load_header).offset + 8252 % pow2 12 ≡ 60)
    × ((make_seg (pow2 12) Data.null load_header).vaddr
          + (make_seg (pow2 12) Data.null load_header).mem_size
        ≡ 8252 + 9000)
    × ((make_seg (pow2 12) Data.null load_header).vaddr
          + (make_seg (pow2 12) Data.null load_header).file_size
        ≡ 8252 + 200)
make_seg-aligned_example =
    make_seg-aligned 12 Data.null load_header (omega arith) load_header-IsPlaced

-- Memory, its permissions, and the offset in the file.
record Ram : Type 0 where
  mem : ℕ → ℕ
  perms : ℕ → ℕ
  offset : ℕ

abbrev within : ℕ → ℕ → ℕ → Bool
within a n x = leb a x && ltb x (a + n)

-- The byte of the file at an offset, if the file has one.
abbrev read_byte : ℕ → ℕ → ℕ
read_byte o old = if ltb o 6000 then o % 251 else old

abbrev system : Kernel Ram
system = record {
  mmap = λ a n s. (true, record s { mem = λ x. if within a n x then 0 else s.mem x });
  lseek = λ o s. record s { offset = o };
  read = λ a n s. (
    true,
    record s {
      mem = λ x. if within a n x then read_byte (s.offset + (x - a)) (s.mem x) else s.mem x;
      offset = s.offset + n;
    },
  );
  mprotect = λ a n p s. record s { perms = λ x. if within a n x then p else s.perms x };
  signal_default = λ signum s. s;
  print_unknown = λ addr s. s;
  print_invalid = λ addr s. s;
  raise = λ signum s. s;
}

abbrev view : View Ram
view = record {
  byte = λ s. s.mem;
  prot = λ s. s.perms;
  pos = λ s. s.offset;
  file = λ o. o % 251;
  file_len = 6000;
}

within-inside : (a n x : ℕ) → a ≤ x → x < a + n → within a n x ≡ true
within-inside a n x ge lt = ground arith

within-Outside : (a n x : ℕ) → Outside a n x → within a n x ≡ false
within-Outside a n x out = ground arith

system-IsKernel : IsKernel system view
system-IsKernel = record {
  mmap_inside = λ a n x s ok ge lt. rw (within-inside a n x ge lt) refl;
  mmap_outside = λ a n x s out. rw (within-Outside a n x out) refl;
  lseek_byte = λ o x s. refl;
  lseek_pos = λ o s. refl;
  read_inside = λ a n i s ok lt fits.
      let back : a + i - a ≡ i = omega arith in
      rw (within-inside a n (a + i) (omega arith) (omega arith))
        (rw back (rw (lt→ltb _ _ fits) refl));
  read_outside = λ a n x s out. rw (within-Outside a n x out) refl;
  mprotect_byte = λ a n p x s. refl;
  mprotect_inside = λ a n p x s ge lt. rw (within-inside a n x ge lt) refl;
}

abbrev ram : Ram
ram = record { mem = λ _. 7; perms = λ _. 0; offset = 0 }

-- Two whole pages and part of a third.
abbrev segment : Seg
segment = record {
  vaddr = 8192;
  file_size = 5000;
  mem_size = 9000;
  offset = 100;
  perm = 5;
  pages = Data.null;
}

segment-IsFault : IsFault view 4096 segment 12300
segment-IsFault = record {
  page = omega arith;
  above = omega arith;
  address = omega arith;
  file_bound = omega arith;
  page_bound = omega arith;
  offset_bound = omega arith;
  in_file = omega arith;
}

segment-Tracks : Tracks 4096 segment 2 (λ _. 0)
unfolding Tracks
segment-Tracks = inr (refl, refl, refl)

abbrev segment_paged : Seg
segment_paged = record segment { pages = Data.pages 2 (λ i. if i == 1 then 1 else 0) }

-- The state after the fault, with what it holds.
paged :
    (s' : Ram) × (so_map_page_in_memory system 4096 true segment 12300 ram
      ≡ some (record { exited = false; seg = segment_paged; kernel = s' }))
    × IsPaged view 4096 segment 4096 ram s'
paged =
    so_map_page_in_memory-IsPaged system view system-IsKernel 4096 (λ a n s. refl) (λ a n s. refl)
      segment 12300 2 (λ _. 0) ram segment-IsFault segment-Tracks (omega arith)

abbrev low_segment : Seg
low_segment = record segment { vaddr = 0; mem_size = 4096 }

in_segment :
    (so_pf_in_segment low_segment 12300 ≡ false)
    × (so_pf_in_segment segment 12300 ≡ true)
    × (so_pf_in_segment low_segment 5000 ≡ false)
    × (so_pf_in_segment segment 5000 ≡ false)
unfolding so_pf_in_segment
in_segment = (refl, refl, refl, refl)

so_map_page_in_memory-IsPaged_example :
    (s' : Ram) × (so_map_page_in_memory system 4096 true segment 12300 ram
      ≡ some (record { exited = false; seg = segment_paged; kernel = s' }))
    × IsPaged view 4096 segment 4096 ram s'
so_map_page_in_memory-IsPaged_example =
    so_map_page_in_memory-IsPaged system view system-IsKernel 4096 (λ a n s. refl) (λ a n s. refl)
      segment 12300 2 (λ _. 0) ram segment-IsFault segment-Tracks (omega arith)

no_pages : IsLoaded view 4096 segment (λ _. 0) ram
unfolding IsLoaded
no_pages j i marked lt = absurd (omega (arith, marked))

-- After a first fault, in the second page of the segment.
first_fault :
    (s' : Ram) × (so_map_page_in_memory system 4096 true segment 12300 ram
      ≡ some (record { exited = false; seg = segment_paged; kernel = s' }))
    × IsLoaded view 4096 segment (λ i. if i == 1 then 1 else 0) s'
first_fault =
    so_map_page_in_memory-IsLoaded system view system-IsKernel 4096 (λ a n s. refl) (λ a n s. refl)
      segment 12300 2 (λ _. 0) ram segment-IsFault segment-Tracks (omega arith)
      (λ (e : 0 ≡ 1). absurd (omega (arith, e))) no_pages

segment_paged-IsFault : IsFault view 4096 segment_paged 8200
segment_paged-IsFault = record {
  page = omega arith;
  above = omega arith;
  address = omega arith;
  file_bound = omega arith;
  page_bound = omega arith;
  offset_bound = omega arith;
  in_file = omega arith;
}

segment_paged-Tracks : Tracks 4096 segment_paged 2 (λ i. if i == 1 then 1 else 0)
unfolding Tracks
segment_paged-Tracks = inl refl

first_fault-IsLoaded : IsLoaded view 4096 segment_paged (λ i. if i == 1 then 1 else 0) first_fault.0
unfolding IsLoaded
first_fault-IsLoaded j i marked lt = first_fault.2 j i marked lt

abbrev both_mapped : ℕ → ℕ
both_mapped i = if i == 0 then 1 else if i == 1 then 1 else 0

so_map_page_in_memory-IsLoaded_example :
    (s' : Ram) × (so_map_page_in_memory system 4096 true segment_paged 8200 first_fault.0
      ≡ some (record {
        exited = false;
        seg = record segment { pages = Data.pages 2 both_mapped };
        kernel = s';
      }))
    × IsLoaded view 4096 segment_paged both_mapped s'
so_map_page_in_memory-IsLoaded_example =
    so_map_page_in_memory-IsLoaded system view system-IsKernel 4096 (λ a n s. refl) (λ a n s. refl)
      segment_paged 8200 2 (λ i. if i == 1 then 1 else 0) first_fault.0 segment_paged-IsFault
      segment_paged-Tracks (omega arith) (λ (e : 0 ≡ 1). absurd (omega (arith, e)))
      first_fault-IsLoaded

so_map_page_in_memory-faults_example :
    so_map_page_in_memory system 4096 true segment 17000 ram ≡ none
so_map_page_in_memory-faults_example =
    so_map_page_in_memory-faults system view system-IsKernel 4096 segment 17000 ram (omega arith)
      (omega arith) (omega arith) refl (omega arith)

abbrev exec : Exec
exec = record {
  base_addr = 0;
  entry = 8192;
  segments_no = 2;
  segments = low_segment ∷ segment ∷ [];
}

segv_handler-first_example :
    segv_handler system 4096 true 12300 sigsegv exec ram
    ≡ some
        (record { exited = false; segments = low_segment ∷ segment_paged ∷ []; kernel = paged.0 })
segv_handler-first_example =
    segv_handler-first system 4096 true 12300 ram exec (low_segment ∷ []) [] segment
      (record { exited = false; seg = segment_paged; kernel = paged.0 }) refl refl
      (in_segment.0, tt) in_segment.1 paged.1

load_header-IsBacked : IsBacked view (pow2 12) load_header
unfolding pow2
load_header-IsBacked = record {
  placed = load_header-IsPlaced;
  page_bound = omega arith;
  file_bound = omega arith;
  offset_bound = omega arith;
  in_file = omega arith;
}

load_header_whole :
    (8300 - (make_seg (pow2 12) Data.null load_header).vaddr) / pow2 12
    < (make_seg (pow2 12) Data.null load_header).mem_size / pow2 12
unfolding pow2 make_seg align_down
load_header_whole = omega arith

so_map_page_in_memory-byte_example :
    (r : Ran Ram) × (so_map_page_in_memory system
        (pow2 12)
        true
        (make_seg (pow2 12) Data.null load_header)
        8300
        ram
      ≡ some r)
    × (r.exited ≡ false)
    × (r.kernel.mem 8300 ≡ 108)
so_map_page_in_memory-byte_example =
    so_map_page_in_memory-byte system view system-IsKernel 12 (λ a n s. refl) (λ a n s. refl)
      (omega arith) load_header load_header-IsBacked 8300 ram (omega arith) (omega arith)
      (omega arith) load_header_whole
