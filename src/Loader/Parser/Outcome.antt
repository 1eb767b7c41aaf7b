-- ===== src/Loader/Parser/Outcome.antt =====
-- What `so_parse_exec` of exec_parser.c returns: the segments, a message, or a fault.
use so.Common.{
  ℕ, ◌+◌, ◌*◌, ◌-◌, ◌^◌, ◌≡◌, ◌≤◌, ◌<◌, refl, sym, ◌∙◌, inl, inr, Bool, true, false, Option, none,
  some, arith, Option-cases, Bool-cases, IfReturns, IfReturns->>=, IfReturns-some, ◌>>=◌,
  if◌then◌else◌, length, List, All,
}
use so.Loader.Types.{Ehdr, ElfLayout, Seg}
use so.Loader.Parser.{
  ParseError, header_error, bufsize, Calls, Parsed, refused, count_load, fill_segs, parse_segments,
  parse_allocated, parse_checked, parse_read, so_parse_exec,
}
use so.Loader.Parser.Spec.{IsExec32, loaded, Reports, phdrs, segs_of}
use so.Loader.Parser.Loops.{count_load-outside, count_load_lem, fill_segs_lem}
use so.Loader.Parser.Segment.{lowest-IsLower}
use so.Loader.Parser.Header.{header_error-IsExec32}

-- From `read` on, if the header passes the tests and memory is left.
from_segments :
    (l : ElfLayout) (c : Calls) (ret : ℕ)
    → c.opened ≡ true
    → c.read_bytes ≡ some ret
    → c.exec_allocated ≡ true
    → IsExec32 l ret (l.ehdr c.hdr)
    → so_parse_exec l c ≡ parse_segments l c (l.ehdr c.hdr)
unfolding so_parse_exec parse_read parse_checked parse_allocated
from_segments l c ret opened got memory valid = rw opened (
    rw got
      (rw ((header_error-IsExec32 l ret (l.ehdr c.hdr)).1 valid, parse_checked) (rw memory refl)))

-- For a file that opens, whose header is that of a 32-bit i386 executable and whose program headers
-- all lie in the 1024 bytes of the buffer, and with memory for the result, `so_parse_exec` returns
-- the executable: one segment for each header of type PT_LOAD, in order, their number, the lowest
-- of their addresses, which no segment is below, and the entry point. It prints nothing and closes
-- the file.
pub so_parse_exec-loaded :
    (l : ElfLayout) (c : Calls) (ret : ℕ)
    → c.opened ≡ true
    → c.read_bytes ≡ some ret
    → c.exec_allocated ≡ true
    → c.segments_allocated ≡ true
    → IsExec32 l ret (l.ehdr c.hdr)
    → (l.ehdr c.hdr).e_phoff + (l.ehdr c.hdr).e_phnum * l.sizeof_phdr ≤ bufsize
    → (so_parse_exec l c
        ≡ some (record { exec = some (loaded l c (l.ehdr c.hdr)); message = none; closed = true }))
      × All
          (λ (s : Seg). (loaded l c (l.ehdr c.hdr)).base_addr ≤ s.vaddr)
          (loaded l c (l.ehdr c.hdr)).segments
unfolding parse_segments
so_parse_exec-loaded l c ret opened got memory room valid fits =
    let e : Ehdr = l.ehdr c.hdr in
    let segs : List Seg = segs_of c.pagesz c.garbage 0 (phdrs l c.hdr e.e_phoff e.e_phnum 0) in
    let fits' : e.e_phoff + (0 + e.e_phnum) * l.sizeof_phdr ≤ bufsize = grind arith in
    let counted = count_load_lem l c.hdr e.e_phoff c.pagesz c.garbage e.e_phnum 0 0 fits' in
    let filled =
      fill_segs_lem l c.hdr e.e_phoff c.pagesz c.garbage e.e_phnum 0 0 (length segs) (2 ^ 32 - 1)
        fits' (omega arith) in
    (
      from_segments l c ret opened got memory valid
          ∙ rw (counted, ◌>>=◌) (rw room (rw (filled, ◌>>=◌) refl)),
      (lowest-IsLower segs (2 ^ 32 - 1)).0,
    )

-- For a file that opens but whose header is not that of a 32-bit i386 executable, or of which too few
-- bytes were read, `so_parse_exec` prints one message, closes the file and returns NULL.
pub so_parse_exec-refused :
    (l : ElfLayout) (c : Calls) (ret : ℕ)
    → c.opened ≡ true
    → c.read_bytes ≡ some ret
    → ¬ IsExec32 l ret (l.ehdr c.hdr)
    → (m : ParseError) × (so_parse_exec l c ≡ some (refused m))
unfolding so_parse_exec parse_read parse_checked
so_parse_exec-refused l c ret opened got wrong =
    elim (Option-cases (header_error l ret (l.ehdr c.hdr))) [
      | inl valid ↦ absurd (wrong ((header_error-IsExec32 l ret (l.ehdr c.hdr)).0 valid))
      | inr (m, fails) ↦ (m, rw opened (rw got (rw (fails, parse_checked) refl)))
    ]

-- Nothing checks where the program headers start: if a valid header has program headers and the first
-- of them does not end within the 1024 bytes of the buffer, `so_parse_exec` reads past the buffer.
pub so_parse_exec-faults :
    (l : ElfLayout) (c : Calls) (ret : ℕ)
    → c.opened ≡ true
    → c.read_bytes ≡ some ret
    → c.exec_allocated ≡ true
    → IsExec32 l ret (l.ehdr c.hdr)
    → 0 < (l.ehdr c.hdr).e_phnum
    → bufsize < (l.ehdr c.hdr).e_phoff + l.sizeof_phdr
    → so_parse_exec l c ≡ none
unfolding parse_segments
so_parse_exec-faults l c ret opened got memory valid some_headers outside =
    let outside_first = count_load-outside l c.hdr (l.ehdr c.hdr).e_phoff _ some_headers outside in
    from_segments l c ret opened got memory valid ∙ rw (outside_first, ◌>>=◌) refl

-- A result that closed the file.
Closes : Parsed → Type 0
Closes r = (r.closed ≡ true) × Reports r

segments_Closes : (l : ElfLayout) (c : Calls) (e : Ehdr) → IfReturns Closes (parse_segments l c e)
unfolding parse_segments Closes
segments_Closes l c e = IfReturns->>= Closes (count_load l c.hdr e.e_phoff e.e_phnum 0) _ (λ num.
    IfReturns->>= Closes
      (fill_segs l c.hdr c.pagesz c.garbage e.e_phoff e.e_phnum 0
        (if c.segments_allocated then num else 0) 0 (2 ^ 32 - 1))
      _ (λ out. (refl, inr (_, refl, refl))))

allocated_Closes :
    (l : ElfLayout) (c : Calls) (e : Ehdr) (enough : Bool)
    → IfReturns Closes (parse_allocated l c e enough)
unfolding parse_allocated Closes
allocated_Closes l c e true = segments_Closes l c e
allocated_Closes l c e false = (refl, inl (_, refl, refl))

checked_Closes :
    (l : ElfLayout) (c : Calls) (e : Ehdr) (o : Option ParseError)
    → IfReturns Closes (parse_checked l c e o)
unfolding parse_checked Closes
checked_Closes l c e (some m) = (refl, inl (m, refl, refl))
checked_Closes l c e none = allocated_Closes l c e c.exec_allocated

read_Closes : (l : ElfLayout) (c : Calls) (got : Option ℕ) → IfReturns Closes (parse_read l c got)
unfolding parse_read Closes
read_Closes l c none = (refl, inl (_, refl, refl))
read_Closes l c (some ret) = checked_Closes l c (l.ehdr c.hdr) (header_error l ret (l.ehdr c.hdr))

-- Whenever `so_parse_exec` returns, it closed the file exactly if it opened it, and it either printed
-- one message and returns NULL or printed none and returns an executable.
pub so_parse_exec-Reports :
    (l : ElfLayout) (c : Calls) (r : Parsed)
    → so_parse_exec l c ≡ some r
    → (r.closed ≡ c.opened) × Reports r
unfolding so_parse_exec Closes
so_parse_exec-Reports l c r ran = elim (Bool-cases c.opened) [
  | inl opened ↦
      let closes : Closes r =
        IfReturns-some Closes (parse_read l c c.read_bytes) r (read_Closes l c c.read_bytes)
          (rw opened at ran) in
      (closes.0 ∙ sym opened, closes.1)
  | inr failed ↦
      let stays : (r.closed ≡ false) × Reports r =
        IfReturns-some (λ (x : Parsed). (x.closed ≡ false) × Reports x) (some _) r
          (refl, inl (_, refl, refl)) (rw failed at ran) in
      (stays.0 ∙ sym failed, stays.1)
]
