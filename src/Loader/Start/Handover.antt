-- ===== src/Loader/Start/Handover.antt =====
-- The stack that a started program finds.
use so.Common.{
  ◌%◌, ◌^◌, if◌then◌else◌, ℕ, ◌+◌, ◌*◌, ◌≡◌, ◌≢◌, ◌≤◌, refl, ap, true, Option, some, List, [], ◌∷◌,
  ◌++◌, map, All, ◌==◌, ne→==, Bool-cases, ◌>>=◌, inl, inr,
}
use mathlib.Core.List.{append_assoc}
use so.Loader.Types.{sub32, Ehdr, Exec, ElfLayout}
use so.Loader.Parser.{Calls, bufsize}
use so.Loader.Parser.Spec.{IsExec32, loaded}
use so.Loader.Parser.Outcome.{so_parse_exec-loaded}
use so.Loader.Start.{
  skip_words, fix_entry, fix_entries, fix_auxv, Start, so_start_exec, Executed, execute, so_execute,
}

-- The auxiliary vector: its entries' types and values, then AT_NULL with a value, and what is behind.
abbrev pub vector : List (ℕ × ℕ) → ℕ → List ℕ → List ℕ
vector [] v rest = 0 ∷ v ∷ rest
vector ((a_type, a_val) ∷ entries) v rest = a_type ∷ a_val ∷ vector entries v rest

-- The value that a table has for a type, or else `v`.
abbrev pub value_in : List (ℕ × ℕ) → ℕ → ℕ → ℕ
value_in [] a_type v = v
value_in ((k, x) ∷ table) a_type v = if a_type == k then x else value_in table a_type v

-- What a program with the ELF header `ehdr` at `base` must find: AT_PHDR (3) is the address of its
-- program headers, AT_BASE (7) and AT_EXECFN (31) are 0, and AT_ENTRY (9) is its entry point.
abbrev pub of_program : ℕ → Ehdr → List (ℕ × ℕ)
of_program base ehdr =
    (3, (base + ehdr.e_phoff) % 2 ^ 32) ∷ (7, 0) ∷ (9, ehdr.e_entry) ∷ (31, 0) ∷ []

fix_entry-value_in :
    (base : ℕ) (ehdr : Ehdr) (a_type a_val : ℕ)
    → fix_entry base ehdr a_type a_val ≡ value_in (of_program base ehdr) a_type a_val
unfolding fix_entry
fix_entry-value_in base ehdr a_type a_val = refl

abbrev pub fixed : ℕ → Ehdr → List (ℕ × ℕ) → List (ℕ × ℕ)
fixed base ehdr entries =
    map (λ (e : ℕ × ℕ). (e.0, value_in (of_program base ehdr) e.0 e.1)) entries

skip_words-env :
    (env ws : List ℕ) → All (λ w. w ≢ 0) env → skip_words (env ++ 0 ∷ ws) ≡ some (env ++ 0 ∷ [], ws)
unfolding skip_words
skip_words-env [] ws ok = refl
skip_words-env (w ∷ env) ws (ne, ok) = rw (ne→== w 0 ne, skip_words-env env ws ok, ◌>>=◌) refl

skip_word :
    (w : ℕ) (ws : List ℕ)
    → ((r : List ℕ × List ℕ) × (skip_words ws ≡ some r))
    → (r : List ℕ × List ℕ) × (skip_words (w ∷ ws) ≡ some r)
unfolding skip_words
skip_word w ws (r, e) = elim (Bool-cases (w == 0)) [
  | inl last ↦ ((w ∷ [], ws), rw (last) refl)
  | inr more ↦ ((w ∷ r.0, r.1), rw (more, e, ◌>>=◌) refl)
]

-- The type AT_NULL ends the second loop over `envp`, if no word ends it before.
skip_words-ends :
    (entries : List (ℕ × ℕ)) (v : ℕ) (rest : List ℕ)
    → (r : List ℕ × List ℕ) × (skip_words (vector entries v rest) ≡ some r)
unfolding skip_words
skip_words-ends [] v rest = ((0 ∷ [], v ∷ rest), refl)
skip_words-ends ((a_type, a_val) ∷ entries) v rest =
    skip_word a_type (a_val ∷ vector entries v rest)
      (skip_word a_val (vector entries v rest) (skip_words-ends entries v rest))

fix_entries-fixed :
    (base : ℕ) (ehdr : Ehdr) (entries : List (ℕ × ℕ)) (v : ℕ) (rest : List ℕ)
    → All (λ e. e.0 ≢ 0) entries
    → fix_entries base ehdr (vector entries v rest) ≡ some (vector (fixed base ehdr entries) v rest)
unfolding fix_entries
fix_entries-fixed base ehdr [] v rest ok = refl
fix_entries-fixed base ehdr ((a_type, a_val) ∷ entries) v rest (ne, ok) =
    rw
      (
        ne→== a_type 0 ne,
        fix_entries-fixed base ehdr entries v rest ok,
        fix_entry-value_in base ehdr a_type a_val,
        ◌>>=◌,
      )
      refl

-- The environment stays, and the entries of the auxiliary vector are the new program's.
so_start_exec-hands_over :
    (exec : Exec) (ehdr : Ehdr) (argc : ℕ) (args env : List ℕ) (entries : List (ℕ × ℕ)) (v : ℕ)
    (rest : List ℕ)
    → All (λ w. w ≢ 0) env
    → All (λ e. e.0 ≢ 0) entries
    → so_start_exec exec ehdr argc args (env ++ 0 ∷ vector entries v rest)
      ≡ some (record {
        eip = exec.entry;
        stack =
            sub32 argc 1 ∷ args ++ (env ++ 0 ∷ vector (fixed exec.base_addr ehdr entries) v rest);
      })
unfolding so_start_exec fix_auxv
so_start_exec-hands_over exec ehdr argc args env entries v rest words types =
    let ends = skip_words-ends entries v rest in
    let at_entry_point : List ℕ → Option Start =
      λ ws. some (record { eip = exec.entry; stack = sub32 argc 1 ∷ args ++ ws }) in
    rw (skip_words-env env (vector entries v rest) words, ◌>>=◌)
      (rw (ends.1, ◌>>=◌)
        (rw (fix_entries-fixed exec.base_addr ehdr entries v rest types, ◌>>=◌)
          (ap at_entry_point
            (append_assoc env (0 ∷ []) (vector (fixed exec.base_addr ehdr entries) v rest)))))

-- For a file that `so_parse_exec` loads, on a stack with the environment's words, a zero, and the entries
-- of the auxiliary vector up to AT_NULL, `so_execute` ends in the start of the program at its entry
-- point: `argc` is one less and stands where the program's own name was, the arguments and the
-- environment stay, and of the auxiliary vector AT_PHDR is the address of the program
-- headers, AT_BASE and AT_EXECFN are 0, AT_ENTRY is the entry point, and the rest is as it was.
pub so_execute-starts :
    (l : ElfLayout) (c : Calls) (ret : ℕ) (memory : ℕ → Ehdr) (fd : Option ℕ) (argc : ℕ)
    (args env : List ℕ) (entries : List (ℕ × ℕ)) (v : ℕ) (rest : List ℕ)
    → c.opened ≡ true
    → c.read_bytes ≡ some ret
    → c.exec_allocated ≡ true
    → c.segments_allocated ≡ true
    → IsExec32 l ret (l.ehdr c.hdr)
    → (l.ehdr c.hdr).e_phoff + (l.ehdr c.hdr).e_phnum * l.sizeof_phdr ≤ bufsize
    → All (λ w. w ≢ 0) env
    → All (λ e. e.0 ≢ 0) entries
    → so_execute l c memory fd argc args (env ++ 0 ∷ vector entries v rest)
      ≡ some (
          Executed.started fd (record {
            eip = (l.ehdr c.hdr).e_entry;
            stack =
                sub32 argc 1 ∷ args
                ++ (env
                    ++ 0
                      ∷ vector
                          (fixed
                            (loaded l c (l.ehdr c.hdr)).base_addr
                            (memory (loaded l c (l.ehdr c.hdr)).base_addr)
                            entries)
                          v
                          rest);
          }))
unfolding so_execute execute
so_execute-starts l c ret memory fd argc args env entries v rest opened got room more valid fits
      words types =
    let e = l.ehdr c.hdr in
    let exec = loaded l c e in
    rw ((so_parse_exec-loaded l c ret opened got room more valid fits).0, ◌>>=◌)
      (rw
        (
          so_start_exec-hands_over exec (memory exec.base_addr) argc args env entries v rest words
              types,
          ◌>>=◌,
        )
        refl)
