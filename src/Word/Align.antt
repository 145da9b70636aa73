-- ===== src/Word/Align.antt =====
-- `value & ~(alignment - 1)` at a power of two is rounding down to a multiple of it.

use native.Mathlib.Nat.{div-div-eq-div-mul}
use native.Mathlib.Decide.{dec_lt}
use nv0ken_linux.Prelude.{
  ℕ, zero, suc, ◌+◌, ◌-◌, ◌*◌, ◌/◌, ◌^◌, ◌≤◌, ◌<◌, ◌≡◌, sym, ap, ◌∙◌, arith, ltb, if◌then◌else◌,
}
use nv0ken_linux.Word.{complement, add64, sub64, align_down, align_up}
use nv0ken_linux.Word.Bits.{
  bit, bit-lt, bit-bit_and, bit-complement, zero-bit, two-pow-pos, two-pow-suc, two-pow-lt,
  two-pow-le,
}

-- Words with the same digits are equal.
bit_ext : (n a b : ℕ) → a ≤ n → b ≤ n → ((j : ℕ) → bit a j ≡ bit b j) → a ≡ b
bit_ext zero a b h h' all = omega arith
bit_ext (suc n) a b h h' all =
    omega (arith, all 0, bit_ext n (a / 2) (b / 2) (omega arith) (omega arith) (λ j. all (suc j)))

bit_small : (x j : ℕ) → x < 2 ^ j → bit x j ≡ 0
bit_small x zero h = omega arith
bit_small x (suc j) h = bit_small (x / 2) j (omega (arith, two-pow-suc j))

-- `2 ^ k - 1` has the digits below `k`.
bit_mask : (k j : ℕ) → bit (2 ^ k - 1) j ≡ (if ltb j k then 1 else 0)
unfolding complement
bit_mask k j = elim (dec_lt j k) [
  | yes h ↦ ground (arith, bit-complement k 0 j (two-pow-pos k) h, zero-bit j)
  | no h ↦ ground (arith, bit_small (2 ^ k - 1) j (below h))
]
  where
    below : ¬ (j < k) → 2 ^ k - 1 < 2 ^ j
    below h = omega (arith, two-pow-le k j (omega arith), two-pow-pos k)

-- The multiple of `2 ^ k` at or below `x`.
abbrev floor : ℕ → ℕ → ℕ
floor x k = x / 2 ^ k * 2 ^ k

floor-suc : (x k : ℕ) → floor x (suc k) ≡ 2 * floor (x / 2) k
floor-suc x k =
    ap (λ (t : ℕ). x / t * t) (two-pow-suc k)
    ∙ ap (λ (t : ℕ). t * (2 * 2 ^ k)) (sym (div-div-eq-div-mul x 2 (2 ^ k)))
    ∙ grind arith

bit-floor : (x k j : ℕ) → bit (floor x k) j ≡ (if ltb j k then 0 else bit x j)
bit-floor x zero j = ap (λ t. bit t j) one_floor ∙ ground arith
  where
    one_floor : floor x 0 ≡ x
    one_floor = omega arith
bit-floor x (suc k) zero = ground (arith, floor-suc x k)
bit-floor x (suc k) (suc j) = ap (λ t. bit t j) halved ∙ bit-floor (x / 2) k j ∙ ground arith
  where
    halved : floor x (suc k) / 2 ≡ floor (x / 2) k
    halved = omega (arith, floor-suc x k)

module _ (k : ℕ) (small : k < 64) where
  bit-align_down : (x j : ℕ) → x < 2 ^ 64 → bit (align_down x (2 ^ k)) j ≡ bit (floor x k) j
  unfolding align_down
  bit-align_down x j h = elim (dec_lt j 64) [
    | yes p ↦ ground (
      arith,
      ones_mask,
      bit-bit_and x (complement 64 (2 ^ k - 1)) j,
      bit-complement 64 (2 ^ k - 1) j (omega (arith, two-pow-lt k 64 small)) p,
      bit_mask k j,
      bit-lt x j,
      bit-floor x k j,
    )
    | no p ↦ ground (
      arith,
      bit-bit_and x (complement 64 (sub64 (2 ^ k) 1)) j,
      bit_small x j (omega (arith, two-pow-le 64 j (omega arith))),
      bit-floor x k j,
    )
  ]
    where
      ones_mask : sub64 (2 ^ k) 1 ≡ 2 ^ k - 1
      ones_mask = omega (arith, two-pow-lt k 64 small, two-pow-pos k)

  -- `align_down_u64` at a power of two rounds down to a multiple of it.
  pub align_down_lem : (x : ℕ) → x < 2 ^ 64 → align_down x (2 ^ k) ≡ x / 2 ^ k * 2 ^ k
  align_down_lem x h =
      bit_ext (align_down x (2 ^ k) + floor x k) (align_down x (2 ^ k)) (floor x k) (omega arith)
        (omega arith) (λ j. bit-align_down x j h)

  -- `align_up_u64` rounds up, where the sum of the two does not wrap.
  pub align_up_lem :
      (x : ℕ) → x + 2 ^ k < 2 ^ 64 → align_up x (2 ^ k) ≡ (x + (2 ^ k - 1)) / 2 ^ k * 2 ^ k
  unfolding align_up
  align_up_lem x h =
      ap (λ t. align_down t (2 ^ k)) sum
      ∙ align_down_lem (x + (2 ^ k - 1)) (omega (arith, two-pow-pos k))
    where
      sum : sub64 (add64 x (2 ^ k)) 1 ≡ x + (2 ^ k - 1)
      sum = omega (arith, two-pow-pos k)
