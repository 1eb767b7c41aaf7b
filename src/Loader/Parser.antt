-- ===== src/Loader/Parser.antt =====
-- Homeworks/Executable Loader/loader/exec_parser.c: `so_parse_exec`.
--
-- The system's calls are its inputs: whether `open` succeeds, what `read` returns and leaves in
-- `hdr`, the page size, and what `malloc` returns and leaves in a segment's `data`.
pub mod Spec
pub mod Loops
pub mod Header
pub mod Outcome
pub mod Segment
use Prim.Native.Nat.{bit_and, bit_or}
use so.Common.{
  ℕ, zero, suc, ◌+◌, ◌-◌, ◌*◌, ◌^◌, Bool, true, false, Option, none, some, List, [], ◌∷◌, ◌==◌, not,
  ◌&&◌, ◌||◌, if◌then◌else◌, ◌>>=◌, ltb, leb,
}
use so.Loader.Types.{add32, sub32, Ehdr, Phdr, Buffer, ElfLayout, Data, Seg, Exec}
use so.Loader.Align.{align_down}

abbrev pub bufsize : ℕ
bufsize = 1024

-- The messages of `so_parse_exec`, in the order of its tests.
pub data ParseError : Type 0 where
  open_failed read_failed too_small invalid_magic not_32_bit not_lsb invalid_ei_version : ParseError
  invalid_abi invalid_type invalid_machine invalid_version too_many_headers : ParseError
  out_of_memory : ParseError

unfoldable pub has_magic : Ehdr → Bool
has_magic e = (e.ei_mag0 == 127) && (e.ei_mag1 == 69) && (e.ei_mag2 == 76) && (e.ei_mag3 == 70)

-- The first rule that fails: a rule is a condition and the message for it.
unfoldable pub first_error : List (Bool × ParseError) → Option ParseError
first_error [] = none
first_error ((true, m) ∷ rules) = some m
first_error ((false, m) ∷ rules) = first_error rules

-- The tests between `read` and `malloc`; `ret` is the number of bytes read.
unfoldable pub header_rules : ElfLayout → ℕ → Ehdr → List (Bool × ParseError)
unfolding has_magic
header_rules l ret e =
    (ltb ret (l.sizeof_ehdr + l.sizeof_phdr), ParseError.too_small)
    ∷ (not (has_magic e), ParseError.invalid_magic)
    ∷ (not (e.ei_class == 1), ParseError.not_32_bit)
    ∷ (not (e.ei_data == 1), ParseError.not_lsb)
    ∷ (not (e.ei_version == 1), ParseError.invalid_ei_version)
    ∷ (not (e.ei_osabi == 3) && not (e.ei_osabi == 0), ParseError.invalid_abi)
    ∷ (not (e.e_type == 2), ParseError.invalid_type)
    ∷ (not (e.e_machine == 3), ParseError.invalid_machine)
    ∷ (not (e.e_version == 1), ParseError.invalid_version)
    ∷ (ltb ret (l.sizeof_ehdr + e.e_phnum * e.e_phentsize), ParseError.too_many_headers)
    ∷ []

unfoldable pub header_error : ElfLayout → ℕ → Ehdr → Option ParseError
header_error l ret e = first_error (header_rules l ret e)

-- `phdr[i]`: the array starts `e_phoff` bytes into `hdr`, and no test looks at `e_phoff`.
unfoldable pub read_phdr : ElfLayout → Buffer → ℕ → ℕ → Option Phdr
read_phdr l hdr phoff i =
    let at = phoff + i * l.sizeof_phdr in
    if leb (at + l.sizeof_phdr) bufsize then some (l.phdr hdr at) else none

abbrev pub is_load : Phdr → Bool
is_load ph = ph.p_type == 1

-- The first loop from index `i` on, with `n` rounds left.
unfoldable pub count_load : ElfLayout → Buffer → ℕ → ℕ → ℕ → Option ℕ
count_load l hdr phoff zero i = some 0
count_load l hdr phoff (suc n) i = do
  ph ← read_phdr l hdr phoff i
  c ← count_load l hdr phoff n (i + 1)
  some (if is_load ph then suc c else c)

-- `seg->perm`, from PF_X, PF_R and PF_W.
unfoldable pub make_perm : ℕ → ℕ
make_perm flags =
    let px = if bit_and flags 1 == 0 then 0 else 4 in
    let pr = if bit_and flags 4 == 0 then px else bit_or px 1 in
    if bit_and flags 2 == 0 then pr else bit_or pr 2

-- The body of the second loop; `data` is not assigned, so the segment keeps what `malloc` left.
unfoldable pub make_seg : ℕ → Data → Phdr → Seg
unfolding align_down make_perm
make_seg pagesz garbage ph =
    let vaddr = align_down ph.p_vaddr pagesz in
    let diff = sub32 ph.p_vaddr vaddr in
    record {
      vaddr = vaddr;
      file_size = add32 ph.p_filesz diff;
      mem_size = add32 ph.p_memsz diff;
      offset = sub32 ph.p_offset diff;
      perm = make_perm ph.p_flags;
      pages = garbage;
    }

-- `if (seg->vaddr < exec->base_addr) exec->base_addr = seg->vaddr;`
unfoldable pub lower_base : Seg → ℕ → ℕ
lower_base seg base = if ltb seg.vaddr base then seg.vaddr else base

-- The second loop from index `i` on, with `n` rounds left. `room` elements of `segments` from index
-- `j` on are not yet filled, and writing past them faults. The base address and the elements.
unfoldable pub fill_segs :
    ElfLayout → Buffer → ℕ → (ℕ → Data) → ℕ → ℕ → ℕ → ℕ → ℕ → ℕ → Option (ℕ × List Seg)
unfolding make_seg lower_base read_phdr
fill_segs l hdr pagesz garbage phoff zero i room j base = some (base, [])
fill_segs l hdr pagesz garbage phoff (suc n) i room j base = do
  ph ← read_phdr l hdr phoff i
  elim (is_load ph) [
    | true ↦ elim room [
      | zero ↦ none
      | suc room' ↦ (do
        let seg = make_seg pagesz (garbage j) ph
        out ← fill_segs l hdr pagesz garbage phoff n (i + 1) room' (suc j) (lower_base seg base)
        some (out.0, seg ∷ out.1))
    ]
    | false ↦ fill_segs l hdr pagesz garbage phoff n (i + 1) room j base
  ]

-- What the system does: `read_bytes` is none where `read` fails, and `segments_allocated` says
-- whether the second `malloc` succeeds, which the parser does not test.
pub record Calls : Type 0 where
  pub opened : Bool
  pub read_bytes : Option ℕ
  pub hdr : Buffer
  pub pagesz : ℕ
  pub exec_allocated : Bool
  pub segments_allocated : Bool
  pub garbage : ℕ → Data

-- What `so_parse_exec` returns and prints, and whether it closed a file.
pub record Parsed : Type 0 where
  pub exec : Option Exec
  pub message : Option ParseError
  pub closed : Bool

abbrev pub refused : ParseError → Parsed
refused m = record { exec = none; message = some m; closed = true }

unfoldable pub parse_segments : ElfLayout → Calls → Ehdr → Option Parsed
unfolding count_load fill_segs
parse_segments l c e = do
  num ← count_load l c.hdr e.e_phoff e.e_phnum 0
  let room = if c.segments_allocated then num else 0
  out ← fill_segs l c.hdr c.pagesz c.garbage e.e_phoff e.e_phnum 0 room 0 (2 ^ 32 - 1)
  let x : Exec = record {
    base_addr = out.0;
    entry = e.e_entry;
    segments_no = num;
    segments = out.1;
  }
  some (record { exec = some x; message = none; closed = true })

unfoldable pub parse_allocated : ElfLayout → Calls → Ehdr → Bool → Option Parsed
unfolding parse_segments
parse_allocated l c e true = parse_segments l c e
parse_allocated l c e false = some (refused ParseError.out_of_memory)

unfoldable pub parse_checked : ElfLayout → Calls → Ehdr → Option ParseError → Option Parsed
unfolding parse_allocated
parse_checked l c e (some m) = some (refused m)
parse_checked l c e none = parse_allocated l c e c.exec_allocated

unfoldable pub parse_read : ElfLayout → Calls → Option ℕ → Option Parsed
unfolding parse_checked header_error
parse_read l c none = some (refused ParseError.read_failed)
parse_read l c (some ret) = parse_checked l c (l.ehdr c.hdr) (header_error l ret (l.ehdr c.hdr))

unfoldable pub so_parse_exec : ElfLayout → Calls → Option Parsed
unfolding parse_read
so_parse_exec l c = elim c.opened [
  | true ↦ parse_read l c c.read_bytes
  | false ↦ some (record { exec = none; message = some ParseError.open_failed; closed = false })
]
