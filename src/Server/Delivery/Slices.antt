-- ===== src/Server/Delivery/Slices.antt =====
-- Slices of a buffer.
use so.Common.{
  ◌*◌, ◌<◌, ◌⊎◌, inl, inr, sym, dec_lt, length-append, ℕ, zero, suc, ◌+◌, ◌≡◌, ◌≤◌, refl, ap, ◌∙◌,
  List, [], ◌∷◌, ◌++◌, length, arith,
}
use native.Mathlib.Nat.{suc-mul}
use so.Server.Types.{Buffer, slice, overlay}
use so.Server.Delivery.{take}

pub length-slice : (b : Buffer) (i n : ℕ) → length (slice b i n) ≡ n
length-slice b i zero = refl
length-slice b i (suc n) = omega (arith, length-slice b (suc i) n)

pub take-slice : (b : Buffer) (i m n : ℕ) → m ≤ n → take m (slice b i n) ≡ slice b i m
take-slice b i zero n le = refl
take-slice b i (suc m) zero le = absurd (omega arith)
take-slice b i (suc m) (suc n) le =
    ap (λ (xs : List ℕ). b i ∷ xs) (take-slice b (suc i) m n (omega arith))

pub slice-append : (b : Buffer) (i m n : ℕ) → slice b i m ++ slice b (i + m) n ≡ slice b i (m + n)
slice-append b i zero n =
    let at : i + 0 ≡ i = omega arith in let count : 0 + n ≡ n = omega arith in rw (at, count) refl
slice-append b i (suc m) n =
    let at : i + suc m ≡ suc i + m = omega arith in
    let count : suc m + n ≡ suc (m + n) = omega arith in
    rw (at, count) (ap (λ (xs : List ℕ). b i ∷ xs) (slice-append b (suc i) m n))

-- A slice from index `i + 1` on, by the buffer without its first byte.
slice-suc : (b : Buffer) (i n : ℕ) → slice b (suc i) n ≡ slice (λ k. b (suc k)) i n
slice-suc b i zero = refl
slice-suc b i (suc n) = ap (λ (xs : List ℕ). b (suc i) ∷ xs) (slice-suc b (suc i) n)

pub slice-overlay : (xs : List ℕ) (b : Buffer) → slice (overlay xs b) 0 (length xs) ≡ xs
slice-overlay [] b = refl
slice-overlay (x ∷ xs) b =
    ap (λ (ys : List ℕ). x ∷ ys)
      (slice-suc (overlay (x ∷ xs) b) 0 (length xs) ∙ slice-overlay xs (λ k. b (suc k)))

-- The bytes are a prefix of each of `n` blocks of `r` bytes, one behind the other, from index `i` on.
abbrev pub Prefixes : Buffer → ℕ → ℕ → ℕ → List ℕ → Type 0
Prefixes b r i zero bytes = bytes ≡ []
Prefixes b r i (suc n) bytes =
    (k : ℕ) × (rest : List ℕ) × (k ≤ r)
    × (bytes ≡ slice b i k ++ rest)
    × Prefixes b r (i + r) n rest

-- Unless bytes are missing, the prefixes are the blocks.
pub Prefixes-whole :
    (b : Buffer) (r i n : ℕ) (bytes : List ℕ)
    → Prefixes b r i n bytes
    → (length bytes < n * r) ⊎ (bytes ≡ slice b i (n * r))
Prefixes-whole b r i zero bytes e =
    let none_left : 0 ≡ 0 * r = omega arith in inr (e ∙ ap (slice b i) none_left)
Prefixes-whole b r i (suc n) bytes (k, rest, le, e, more) =
    let one_more : suc n * r ≡ r + n * r = omega (arith, suc-mul n r) in
    let long : length bytes ≡ k + length rest =
      ap length e
      ∙ length-append (slice b i k) rest
      ∙ ap (λ m. m + length rest) (length-slice b i k) in
    elim (Prefixes-whole b r (i + r) n rest more) [
      | inl short ↦ inl (omega (arith, one_more, long, short, le))
      | inr whole ↦ elim (dec_lt k r) [
        | yes less ↦
            let rest_long : length rest ≡ n * r =
              ap length whole ∙ length-slice b (i + r) (n * r) in
            inl (omega (arith, one_more, long, rest_long, less))
        | no full ↦
            let all : k ≡ r = omega (arith, le, full) in
            inr (
              e
              ∙ ap (λ m. slice b i m ++ rest) all
              ∙ ap (λ (xs : List ℕ). slice b i r ++ xs) whole
              ∙ slice-append b i r (n * r)
              ∙ ap (slice b i) (sym one_more))
      ]
    ]
