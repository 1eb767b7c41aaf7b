-- ===== src/Loader/Align.antt =====
-- ALIGN_DOWN of exec_parser.h: for a page of 2 ^ k bytes the mask clears the offset in the page.
use Prim.Native.Nat.{bit_and, bit_and-bitwise, digits}
use so.Common.{
  ℕ, zero, suc, ◌+◌, ◌-◌, ◌*◌, ◌/◌, ◌%◌, ◌^◌, ◌≡◌, ◌≤◌, ◌<◌, refl, sym, ap, ◌∙◌, min, arith,
}
use native.Mathlib.Nat.{mul-add-mod_self_left, mod-eq_of_lt, div-add-mod, mod-lt}

-- `v & ~(a - 1)` on 32 bits: the complement of `a - 1` is `2 ^ 32 - a`.
unfoldable pub align_down : ℕ → ℕ → ℕ
align_down v a = bit_and v (2 ^ 32 - a)

-- `2 ^ k` by doubling, on which the proofs recur.
unfoldable pub pow2 : ℕ → ℕ
pow2 zero = 1
pow2 (suc k) = pow2 k * 2

-- More rounds than digits make no difference.
rounds : (n m a b : ℕ) → a ≤ n → a ≤ m → digits (λ c. zero) min n a b ≡ digits (λ c. zero) min m a b
rounds zero zero a b p q = refl
rounds zero (suc m) zero b p q = refl
rounds zero (suc m) (suc a) b p q = absurd (omega arith)
rounds (suc n) zero zero b p q = refl
rounds (suc n) zero (suc a) b p q = absurd (omega arith)
rounds (suc n) (suc m) zero b p q = refl
rounds (suc n) (suc m) (suc a) b p q =
    omega (arith, rounds n m (suc a / 2) (b / 2) (omega arith) (omega arith))

and_zero : (b : ℕ) → bit_and 0 b ≡ 0
and_zero b = bit_and-bitwise 0 b

-- The lowest digit of a conjunction.
and_lowest : (a b : ℕ) → bit_and a b ≡ bit_and (a / 2) (b / 2) * 2 + min (a % 2) (b % 2)
and_lowest zero b = omega (arith, and_zero b, and_zero (b / 2))
and_lowest (suc a) b = omega (
  arith,
  bit_and-bitwise (suc a) b,
  bit_and-bitwise (suc a / 2) (b / 2),
  rounds a (suc a / 2) (suc a / 2) (b / 2) (omega arith) (omega arith),
)

and_double : (v m : ℕ) → bit_and v (m * 2) ≡ bit_and (v / 2) m * 2
and_double v m =
    let half : m * 2 / 2 ≡ m = omega arith in and_lowest v (m * 2) ∙ rw half (omega arith)

pub pow2-pos : (k : ℕ) → 0 < pow2 k
unfolding pow2
pow2-pos zero = omega arith
pow2-pos (suc k) = omega (arith, pow2-pos k)

and_ones : (w v : ℕ) → v < pow2 w → bit_and v (pow2 w - 1) ≡ v
unfolding pow2
and_ones zero v lt = let z : v ≡ 0 = omega arith in rw z (and_zero (1 - 1))
and_ones (suc w) v lt =
    let half : (pow2 w * 2 - 1) / 2 ≡ pow2 w - 1 = omega (arith, pow2-pos w) in
    and_lowest v (pow2 w * 2 - 1)
    ∙ rw (half, and_ones w (v / 2) (omega arith)) (omega (arith, pow2-pos w))

mod-double : (v p : ℕ) → 0 < p → v % (p * 2) ≡ v / 2 % p * 2 + v % 2
mod-double v p pos =
    let q : ℕ = v / 2 / p in
    let r : ℕ = v / 2 % p in
    let parts : p * q + r ≡ v / 2 = div-add-mod (v / 2) p in
    let whole : p * 2 * q + (r * 2 + v % 2) ≡ v = grind (arith, parts) in
    ap (λ (n : ℕ). n % (p * 2)) (sym whole)
    ∙ mul-add-mod_self_left (p * 2) q (r * 2 + v % 2)
    ∙ mod-eq_of_lt (omega (arith, mod-lt (v / 2) pos))

and_mask : (w k v : ℕ) → k ≤ w → v < pow2 w → bit_and v (pow2 w - pow2 k) + v % pow2 k ≡ v
unfolding pow2
and_mask w zero v le lt = omega (arith, and_ones w v lt)
and_mask zero (suc k) v le lt = absurd (omega arith)
and_mask (suc w) (suc k) v le lt =
    let mask : pow2 w * 2 - pow2 k * 2 ≡ (pow2 w - pow2 k) * 2 = omega arith in
    rw (mask, and_double)
      (omega (
        arith,
        and_mask w k (v / 2) (omega arith) (omega arith),
        mod-double v (pow2 k) (pow2-pos k),
      ))

-- A page of `pow2 k` bytes: the aligned address is the start of the page that holds the address.
pub align_down-mod : (k v : ℕ) → k ≤ 32 → v < 2 ^ 32 → align_down v (pow2 k) + v % pow2 k ≡ v
unfolding align_down
align_down-mod k v le lt =
    let width : pow2 32 ≡ 2 ^ 32 = (unfold pow2 in refl) in
    rw width at (and_mask 32 k v le (rw width lt))
