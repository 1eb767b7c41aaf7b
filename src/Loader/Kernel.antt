-- ===== src/Loader/Kernel.antt =====
-- The system calls of loader.c, which are not its code: operations on a state of any type, and what
-- their manual pages say of the memory and of the file that `fd` names.
use so.Common.{ℕ, ◌+◌, ◌≡◌, ◌≤◌, ◌<◌, ◌⊎◌, Bool, true}

-- A Boolean result says whether the call succeeds.
pub record Kernel (S : Type 0) : Type 0 where
  -- `mmap(addr, length, PROT_WRITE, MAP_FIXED | MAP_SHARED | MAP_ANONYMOUS, -1, 0)`
  pub mmap : ℕ → ℕ → S → Bool × S
  -- `lseek(fd, offset, SEEK_SET)`
  pub lseek : ℕ → S → S
  -- `read(fd, addr, count)`
  pub read : ℕ → ℕ → S → Bool × S
  -- `mprotect(addr, length, perm)`
  pub mprotect : ℕ → ℕ → ℕ → S → S
  -- `signal(signum, SIG_DFL)`
  pub signal_default : ℕ → S → S
  -- `fprintf(stderr, ...)` of the message for an unknown address, or for invalid permissions.
  pub print_unknown : ℕ → S → S
  pub print_invalid : ℕ → S → S
  -- `raise(signum)`: SIGSEGV is blocked while its handler runs, so this returns.
  pub raise : ℕ → S → S

-- The bytes in memory and their permissions, the offset of `fd`, and the bytes of its file.
pub record View (S : Type 0) : Type 0 where
  pub byte : S → ℕ → ℕ
  pub prot : S → ℕ → ℕ
  pub pos : S → ℕ
  pub file : ℕ → ℕ
  pub file_len : ℕ

abbrev pub Outside : ℕ → ℕ → ℕ → Type 0
Outside a n x = (x < a) ⊎ (a + n ≤ x)

pub record IsKernel {S : Type 0} (k : Kernel S) (v : View S) : Type 0 where
  pub mmap_inside :
      (a n x : ℕ) (s : S)
      → (k.mmap a n s).0 ≡ true
      → a ≤ x
      → x < a + n
      → v.byte (k.mmap a n s).1 x ≡ 0
  pub mmap_outside : (a n x : ℕ) (s : S) → Outside a n x → v.byte (k.mmap a n s).1 x ≡ v.byte s x
  pub lseek_byte : (o x : ℕ) (s : S) → v.byte (k.lseek o s) x ≡ v.byte s x
  pub lseek_pos : (o : ℕ) (s : S) → v.pos (k.lseek o s) ≡ o
  pub read_inside :
      (a n i : ℕ) (s : S)
      → (k.read a n s).0 ≡ true
      → i < n
      → v.pos s + i < v.file_len
      → v.byte (k.read a n s).1 (a + i) ≡ v.file (v.pos s + i)
  pub read_outside : (a n x : ℕ) (s : S) → Outside a n x → v.byte (k.read a n s).1 x ≡ v.byte s x
  pub mprotect_byte : (a n p x : ℕ) (s : S) → v.byte (k.mprotect a n p s) x ≡ v.byte s x
  pub mprotect_inside :
      (a n p x : ℕ) (s : S) → a ≤ x → x < a + n → v.prot (k.mprotect a n p s) x ≡ p
