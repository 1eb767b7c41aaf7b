-- ===== src/Loader/Types.antt =====
-- Homeworks/Executable Loader/loader/exec_parser.h, and the structures of the system's elf.h that
-- exec_parser.c reads.
use so.Common.{ℕ, ◌+◌, ◌-◌, ◌%◌, ◌^◌, List}

-- `uint32_t` addition and subtraction; all addresses and sizes of the loader have 32 bits.
abbrev pub add32 : ℕ → ℕ → ℕ
add32 a b = (a + b) % 2 ^ 32

abbrev pub sub32 : ℕ → ℕ → ℕ
sub32 a b = (a + 2 ^ 32 - b) % 2 ^ 32

-- The fields of `Elf32_Ehdr` that the parser reads.
pub record Ehdr : Type 0 where
  pub ei_mag0 : ℕ
  pub ei_mag1 : ℕ
  pub ei_mag2 : ℕ
  pub ei_mag3 : ℕ
  pub ei_class : ℕ
  pub ei_data : ℕ
  pub ei_version : ℕ
  pub ei_osabi : ℕ
  pub e_type : ℕ
  pub e_machine : ℕ
  pub e_version : ℕ
  pub e_entry : ℕ
  pub e_phoff : ℕ
  pub e_phentsize : ℕ
  pub e_phnum : ℕ

-- The fields of `Elf32_Phdr` that the parser reads.
pub record Phdr : Type 0 where
  pub p_type : ℕ
  pub p_offset : ℕ
  pub p_vaddr : ℕ
  pub p_filesz : ℕ
  pub p_memsz : ℕ
  pub p_flags : ℕ

-- The bytes of `hdr`.
abbrev pub Buffer : Type 0
Buffer = ℕ → ℕ

-- How elf.h lays its structures out in memory: their sizes, and what they hold at an offset.
pub record ElfLayout : Type 0 where
  pub sizeof_ehdr : ℕ
  pub sizeof_phdr : ℕ
  pub ehdr : Buffer → Ehdr
  pub phdr : Buffer → ℕ → Phdr

-- `void *data` of a segment: NULL, an array of bytes from `calloc`, or what `malloc` left there.
pub data Data : Type 0 where
  null : Data
  pages : (count : ℕ) → (byte : ℕ → ℕ) → Data
  wild : Data

-- `so_seg_t`
pub record Seg : Type 0 where
  pub vaddr : ℕ
  pub file_size : ℕ
  pub mem_size : ℕ
  pub offset : ℕ
  pub perm : ℕ
  pub pages : Data

-- `so_exec_t`
pub record Exec : Type 0 where
  pub base_addr : ℕ
  pub entry : ℕ
  pub segments_no : ℕ
  pub segments : List Seg
