-- ===== src/Loader/Parser/Spec.antt =====
-- What `so_parse_exec` of exec_parser.c computes, on lists.
use so.Common.{
  ℕ, zero, suc, ◌+◌, ◌*◌, ◌≡◌, ◌≤◌, ◌⊎◌, List, [], ◌∷◌, if◌then◌else◌, ◌-◌, ◌^◌, length, none, some,
  ◌==◌, min,
}
use so.Loader.Types.{Ehdr, Phdr, Buffer, ElfLayout, Data, Seg, Exec}
use so.Loader.Parser.{make_seg, Calls, ParseError, Parsed}

-- The `n` program headers from index `i` on.
abbrev pub phdrs : ElfLayout → Buffer → ℕ → ℕ → ℕ → List Phdr
phdrs l hdr phoff zero i = []
phdrs l hdr phoff (suc n) i = l.phdr hdr (phoff + i * l.sizeof_phdr) ∷ phdrs l hdr phoff n (i + 1)

-- A segment for each header of type PT_LOAD, which is 1, from index `j` on.
abbrev pub segs_of : ℕ → (ℕ → Data) → ℕ → List Phdr → List Seg
segs_of pagesz garbage j [] = []
segs_of pagesz garbage j (ph ∷ phs) =
    if ph.p_type == 1
    then make_seg pagesz (garbage j) ph ∷ segs_of pagesz garbage (suc j) phs
    else segs_of pagesz garbage j phs

-- The least of `base` and the addresses of the segments.
abbrev pub lowest : List Seg → ℕ → ℕ
lowest [] base = base
lowest (s ∷ ss) base = lowest ss (min s.vaddr base)

-- The header of a 32-bit executable for the i386 whose headers were all read.
pub record IsExec32 (l : ElfLayout) (ret : ℕ) (e : Ehdr) : Type 0 where
  pub room : l.sizeof_ehdr + l.sizeof_phdr ≤ ret
  pub mag0 : e.ei_mag0 ≡ 127
  pub mag1 : e.ei_mag1 ≡ 69
  pub mag2 : e.ei_mag2 ≡ 76
  pub mag3 : e.ei_mag3 ≡ 70
  pub class32 : e.ei_class ≡ 1
  pub lsb : e.ei_data ≡ 1
  pub ident : e.ei_version ≡ 1
  pub abi : (e.ei_osabi ≡ 3) ⊎ (e.ei_osabi ≡ 0)
  pub exec : e.e_type ≡ 2
  pub i386 : e.e_machine ≡ 3
  pub version : e.e_version ≡ 1
  pub all_read : l.sizeof_ehdr + e.e_phnum * e.e_phentsize ≤ ret

-- The executable of a file with the header `e`.
abbrev pub loaded : ElfLayout → Calls → Ehdr → Exec
loaded l c e =
    let segs = segs_of c.pagesz c.garbage 0 (phdrs l c.hdr e.e_phoff e.e_phnum 0) in
    record {
      base_addr = lowest segs (2 ^ 32 - 1);
      entry = e.e_entry;
      segments_no = length segs;
      segments = segs;
    }

-- Either a message and no executable, or an executable and no message.
abbrev pub Reports : Parsed → Type 0
Reports r =
    ((m : ParseError) × (r.exec ≡ none) × (r.message ≡ some m))
    ⊎ ((x : Exec) × (r.exec ≡ some x) × (r.message ≡ none))
