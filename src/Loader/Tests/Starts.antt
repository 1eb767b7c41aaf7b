-- ===== src/Loader/Tests/Starts.antt =====
-- The start of a program, at concrete inputs.
use so.Common.{ℕ, ◌+◌, ◌≡◌, ◌≢◌, refl, some, List, [], ◌∷◌, ◌++◌, arith}
use so.Loader.Parser.Spec.{loaded}
use so.Loader.Start.{Executed, so_execute}
use so.Loader.Start.Handover.{vector, fixed, so_execute-starts}
use so.Loader.Tests.{elf32, calls, file_ehdr, file_IsExec32}

-- AT_PHDR, AT_BASE, AT_PAGESZ, AT_ENTRY and AT_EXECFN of the loader itself.
abbrev entries : List (ℕ × ℕ)
entries = (3, 1000) ∷ (7, 2000) ∷ (6, 4096) ∷ (9, 3000) ∷ (31, 4000) ∷ []

abbrev base : ℕ
base = (loaded elf32 (calls 0 (some 400)) (file_ehdr 0)).base_addr

so_execute-starts_example :
    so_execute elf32
      (calls 0 (some 400))
      (λ a. file_ehdr 0)
      (some 4)
      3
      (500 ∷ 501 ∷ 0 ∷ [])
      ((600 ∷ 601 ∷ []) ++ 0 ∷ vector entries 0 (7 ∷ []))
    ≡ some (
        Executed.started (some 4) (record {
          eip = 134512640;
          stack =
              2 ∷ (500 ∷ 501 ∷ 0 ∷ [])
              ++ ((600 ∷ 601 ∷ []) ++ 0 ∷ vector (fixed base (file_ehdr 0) entries) 0 (7 ∷ []));
        }))
so_execute-starts_example =
    so_execute-starts elf32 (calls 0 (some 400)) 400 (λ a. file_ehdr 0) (some 4) 3
      (500 ∷ 501 ∷ 0 ∷ []) (600 ∷ 601 ∷ []) entries 0 (7 ∷ []) refl refl refl refl (file_IsExec32 0)
      (omega arith) (word 599, (word 600, tt)) (word 2, (word 6, (word 5, (word 8, (word 30, tt)))))
  where
    word : (n : ℕ) → n + 1 ≢ 0
    word n e = absurd (omega (arith, e))
