-- ===== src/Loader/Start.antt =====
-- Homeworks/Executable Loader/loader/exec_parser.c, the start of a loaded program: fix_auxv and
-- so_start_exec; and loader.c, so_init_loader and so_execute. The stack is a list of words of 32 bits;
-- `none` is an access behind the words that are known.
pub mod Handover
use so.Common.{
  ℕ, zero, suc, ◌+◌, Bool, true, false, Option, none, some, List, [], ◌∷◌, ◌++◌, ◌==◌,
  if◌then◌else◌, ◌>>=◌,
}
use so.Loader.Types.{add32, sub32, Ehdr, Exec, ElfLayout}
use so.Loader.Parser.{Calls, Parsed, so_parse_exec}

abbrev pub at_null : ℕ
at_null = 0

abbrev pub at_phdr : ℕ
at_phdr = 3

abbrev pub at_base : ℕ
at_base = 7

abbrev pub at_entry : ℕ
at_entry = 9

abbrev pub at_execfn : ℕ
at_execfn = 31

-- `while (*envp) envp++`: the words through the zero, and those behind it.
unfoldable pub skip_words : List ℕ → Option (List ℕ × List ℕ)
skip_words [] = none
skip_words (w ∷ ws) =
    let behind = skip_words ws in
    if w == 0 then some (w ∷ [], ws) else (do r ← behind; some (w ∷ r.0, r.1))

-- The `switch`: the value of an entry of a type, with `base` the address of the ELF header.
unfoldable pub fix_entry : ℕ → Ehdr → ℕ → ℕ → ℕ
fix_entry base ehdr a_type a_val =
    if a_type == at_phdr
    then add32 base ehdr.e_phoff
    else if a_type == at_base
    then 0
    else if a_type == at_entry
    then ehdr.e_entry
    else if a_type == at_execfn
    then 0
    else a_val

-- The loop over the entries, of two words each.
unfoldable pub fix_entries : ℕ → Ehdr → List ℕ → Option (List ℕ)
unfolding fix_entry
fix_entries base ehdr [] = none
fix_entries base ehdr (a_type ∷ []) = if a_type == at_null then some (a_type ∷ []) else none
fix_entries base ehdr (a_type ∷ (a_val ∷ ws)) =
    let rest = fix_entries base ehdr ws in
    if a_type == at_null
    then some (a_type ∷ a_val ∷ ws)
    else (do r ← rest; some (a_type ∷ fix_entry base ehdr a_type a_val ∷ r))

-- The words from `envp` on. The second loop over `envp` changes nothing, but reads up to a zero.
unfoldable pub fix_auxv : ℕ → Ehdr → List ℕ → Option (List ℕ)
unfolding skip_words fix_entries
fix_auxv base ehdr envp = do
  r ← skip_words envp
  skipped ← skip_words r.1
  auxv ← fix_entries base ehdr r.1
  some (r.0 ++ auxv)

-- Where the program starts, with the words from the stack pointer on. The other registers are 0.
pub record Start : Type 0 where
  pub eip : ℕ
  pub stack : List ℕ

-- `argc` is the word before the one before `argv`; `args` are the words from `argv` up to `__environ`
-- and `envp` those from there on. `ehdr` is what the memory at the base address holds.
unfoldable pub so_start_exec : Exec → Ehdr → ℕ → List ℕ → List ℕ → Option Start
unfolding fix_auxv
so_start_exec exec ehdr argc args envp = do
  fixed ← fix_auxv exec.base_addr ehdr envp
  some (record { eip = exec.entry; stack = sub32 argc 1 ∷ args ++ fixed })

-- `so_execute` returns -1, or the program starts; `fd` is what the second `open` returned.
pub data Executed : Type 0 where
  not_executed : Executed
  started : (fd : Option ℕ) → Start → Executed

-- From the test of `exec` on.
unfoldable pub execute : Option Exec → (ℕ → Ehdr) → Option ℕ → ℕ → List ℕ → List ℕ → Option Executed
unfolding so_start_exec
execute none memory fd argc args envp = some Executed.not_executed
execute (some exec) memory fd argc args envp = do
  start ← so_start_exec exec (memory exec.base_addr) argc args envp
  some (Executed.started fd start)

unfoldable pub so_execute :
    ElfLayout → Calls → (ℕ → Ehdr) → Option ℕ → ℕ → List ℕ → List ℕ → Option Executed
unfolding execute so_parse_exec
so_execute l c memory fd argc args envp = do
  parsed ← so_parse_exec l c
  execute parsed.exec memory fd argc args envp

-- What a signal can be given: `segv_handler`, with SA_SIGINFO.
pub data SigAction : Type 0 where
  segv_siginfo : SigAction

-- `true` for the result 0, `false` for -1; `sigaction` is the system's.
unfoldable pub so_init_loader : {S : Type 0} → (ℕ → SigAction → S → Bool × S) → S → Bool × S
so_init_loader sigaction s = sigaction 11 SigAction.segv_siginfo s
