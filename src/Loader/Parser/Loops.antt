-- ===== src/Loader/Parser/Loops.antt =====
-- The two loops of `so_parse_exec` in exec_parser.c.
use so.Common.{
  min, ℕ, zero, suc, ◌+◌, ◌*◌, ◌≡◌, ◌≤◌, ◌<◌, refl, inl, inr, none, some, ◌>>=◌, length, arith,
  le→leb, lt→leb, Bool-cases,
}
use so.Loader.Types.{Buffer, ElfLayout, Data, Phdr}
use so.Loader.Parser.{bufsize, read_phdr, is_load, count_load, fill_segs, make_seg}
use so.Loader.Parser.Segment.{lower_base-min}
use so.Loader.Parser.Spec.{phdrs, segs_of, lowest}

room_for : (k room : ℕ) → suc k ≤ room → (r : ℕ) × (room ≡ suc r) × (k ≤ r)
room_for k zero le = absurd (omega arith)
room_for k (suc r) le = (r, refl, omega arith)

module _ (l : ElfLayout) (hdr : Buffer) (phoff : ℕ) where
  pub read_phdr-inside :
      (i : ℕ)
      → phoff + i * l.sizeof_phdr + l.sizeof_phdr ≤ bufsize
      → read_phdr l hdr phoff i ≡ some (l.phdr hdr (phoff + i * l.sizeof_phdr))
  unfolding read_phdr
  read_phdr-inside i fits = rw (le→leb _ _ fits) refl

  pub read_phdr-outside :
      (i : ℕ) → bufsize < phoff + i * l.sizeof_phdr + l.sizeof_phdr → read_phdr l hdr phoff i ≡ none
  unfolding read_phdr
  read_phdr-outside i out = rw (lt→leb _ _ out) refl

  -- The first of several headers is inside if all are.
  first_inside :
      (n i : ℕ)
      → phoff + (i + suc n) * l.sizeof_phdr ≤ bufsize
      → phoff + i * l.sizeof_phdr + l.sizeof_phdr ≤ bufsize
  first_inside n i fits = grind arith

  rest_inside :
      (n i : ℕ)
      → phoff + (i + suc n) * l.sizeof_phdr ≤ bufsize
      → phoff + (i + 1 + n) * l.sizeof_phdr ≤ bufsize
  rest_inside n i fits = grind arith

  pub count_load_lem :
      (pagesz : ℕ) (garbage : ℕ → Data) (n i j : ℕ)
      → phoff + (i + n) * l.sizeof_phdr ≤ bufsize
      → count_load l hdr phoff n i
        ≡ some (length (segs_of pagesz garbage j (phdrs l hdr phoff n i)))
  unfolding count_load
  count_load_lem pagesz garbage zero i j fits = refl
  count_load_lem pagesz garbage (suc n) i j fits =
      let inside = read_phdr-inside i (first_inside n i fits) in
      let rest = rest_inside n i fits in
      elim (Bool-cases (is_load (l.phdr hdr (phoff + i * l.sizeof_phdr)))) [
        | inl t ↦
            rw (inside, ◌>>=◌)
              (rw (count_load_lem pagesz garbage n (i + 1) (suc j) rest, ◌>>=◌) (rw t refl))
        | inr f ↦
            rw (inside, ◌>>=◌)
              (rw (count_load_lem pagesz garbage n (i + 1) j rest, ◌>>=◌) (rw f refl))
      ]

  pub fill_segs_lem :
      (pagesz : ℕ) (garbage : ℕ → Data) (n i j room base : ℕ)
      → phoff + (i + n) * l.sizeof_phdr ≤ bufsize
      → length (segs_of pagesz garbage j (phdrs l hdr phoff n i)) ≤ room
      → fill_segs l hdr pagesz garbage phoff n i room j base
        ≡ some (
          lowest (segs_of pagesz garbage j (phdrs l hdr phoff n i)) base,
          segs_of pagesz garbage j (phdrs l hdr phoff n i),
        )
  unfolding fill_segs
  fill_segs_lem pagesz garbage zero i j room base fits enough = refl
  fill_segs_lem pagesz garbage (suc n) i j room base fits enough =
      let inside = read_phdr-inside i (first_inside n i fits) in
      let rest = rest_inside n i fits in
      elim (Bool-cases (is_load (l.phdr hdr (phoff + i * l.sizeof_phdr)))) [
        | inl t ↦
            let ph : Phdr = l.phdr hdr (phoff + i * l.sizeof_phdr) in
            let more = segs_of pagesz garbage (suc j) (phdrs l hdr phoff n (i + 1)) in
            let base' = min (make_seg pagesz (garbage j) ph).vaddr base in
            let found = room_for (length more) room (rw t at enough) in
            rw (inside, ◌>>=◌)
              (rw t (
                rw (found.1, lower_base-min (make_seg pagesz (garbage j) ph) base)
                  (rw
                    (
                      fill_segs_lem pagesz garbage n (i + 1) (suc j) found.0 base' rest found.2,
                      ◌>>=◌,
                    )
                    refl)))
        | inr f ↦
            rw (inside, ◌>>=◌)
              (rw f (fill_segs_lem pagesz garbage n (i + 1) j room base rest (rw f at enough)))
      ]

  pub count_load-outside :
      (n : ℕ) → 0 < n → bufsize < phoff + l.sizeof_phdr → count_load l hdr phoff n 0 ≡ none
  unfolding count_load
  count_load-outside zero pos out = absurd (omega arith)
  count_load-outside (suc n) pos out = rw (read_phdr-outside 0 (omega arith), ◌>>=◌) refl
