-- ===== src/Word/Bits.antt =====
-- The binary digits of a word, and what `&`, `|`, `~` and `1 << k` do to each of them.
use Prim.Native.Nat.{bit_and, bit_or, digits, bit_and-bitwise, bit_or-bitwise}
use native.Mathlib.Nat.{pow-suc, one-le-pow}
use native.Mathlib.Decide.{ℕ_discrete}
use nv0ken_linux.Prelude.{
  subst, ℕ, zero, suc, ◌+◌, ◌-◌, ◌*◌, ◌/◌, ◌%◌, ◌^◌, ◌≤◌, ◌<◌, min, max, ◌≡◌, refl, ap, ◌≢◌, arith,
  ◌==◌, if◌then◌else◌, ◌∙◌, sym,
}
use nv0ken_linux.Word.{complement, test_mask}

-- The digit of weight 2 ^ k.
abbrev pub bit : ℕ → ℕ → ℕ
bit x zero = x % 2
bit x (suc k) = bit (x / 2) k

pub bit-lt : (x k : ℕ) → bit x k < 2
bit-lt x zero = omega arith
bit-lt x (suc k) = bit-lt (x / 2) k

pub zero-bit : (k : ℕ) → bit 0 k ≡ 0
zero-bit zero = refl
zero-bit (suc k) = zero-bit k

-- Any operation that works digit by digit.
module _ (z : ℕ → ℕ) (f : ℕ → ℕ → ℕ) (z_law : (b j : ℕ) → bit (z b) j ≡ f 0 (bit b j))
    (f_small : (x y : ℕ) → x < 2 → y < 2 → f x y < 2) where
  low_digit : (r x y : ℕ) → x < 2 → y < 2 → (r * 2 + f x y) % 2 ≡ f x y
  low_digit r x y h k = omega (arith, f_small x y h k)

  high_digits : (r x y : ℕ) → x < 2 → y < 2 → (r * 2 + f x y) / 2 ≡ r
  high_digits r x y h k = omega (arith, f_small x y h k)

  bit-digits : (n a b j : ℕ) → a ≤ n → bit (digits z f n a b) j ≡ f (bit a j) (bit b j)
  bit-digits zero zero b j h = z_law b j ∙ ap (λ t. f t (bit b j)) (sym (zero-bit j))
  bit-digits zero (suc a) b j h = absurd (omega arith)
  bit-digits (suc n) zero b j h = z_law b j ∙ ap (λ t. f t (bit b j)) (sym (zero-bit j))
  bit-digits (suc n) (suc a) b zero h =
      low_digit (digits z f n (suc a / 2) (b / 2)) (suc a % 2) (b % 2) (omega arith) (omega arith)
  bit-digits (suc n) (suc a) b (suc j) h =
      ap (λ t. bit t j)
        (high_digits (digits z f n (suc a / 2) (b / 2)) (suc a % 2) (b % 2) (omega arith)
          (omega arith))
      ∙ bit-digits n (suc a / 2) (b / 2) j (omega arith)

pub bit-bit_and : (a b j : ℕ) → bit (bit_and a b) j ≡ min (bit a j) (bit b j)
bit-bit_and a b j =
    ap (λ t. bit t j) (bit_and-bitwise a b)
    ∙ bit-digits (λ b. 0) min (λ b j. omega (arith, zero-bit j)) (λ x y h k. omega arith) a a b j
        (omega arith)

pub bit-bit_or : (a b j : ℕ) → bit (bit_or a b) j ≡ max (bit a j) (bit b j)
bit-bit_or a b j =
    ap (λ t. bit t j) (bit_or-bitwise a b)
    ∙ bit-digits (λ b. b) max (λ b j. omega arith) (λ x y h k. omega arith) a a b j (omega arith)

pub two-pow-suc : (k : ℕ) → 2 ^ suc k ≡ 2 * 2 ^ k
two-pow-suc k = omega (arith, pow-suc 2 k)

half-two-pow : (k : ℕ) → 2 ^ suc k / 2 ≡ 2 ^ k
half-two-pow k = omega (arith, two-pow-suc k)

-- `1 << k` has the one digit.
pub bit-two-pow : (k j : ℕ) → bit (2 ^ k) j ≡ (if k == j then 1 else 0)
bit-two-pow zero zero = refl
bit-two-pow zero (suc j) = zero-bit j ∙ ground arith
bit-two-pow (suc k) zero = ground (arith, two-pow-suc k)
bit-two-pow (suc k) (suc j) = ap (λ t. bit t j) (half-two-pow k) ∙ bit-two-pow k j ∙ ground arith

pub two-pow-pos : (k : ℕ) → 0 < 2 ^ k
two-pow-pos k = one-le-pow k 2 (omega arith)

pub two-pow-lt : (k w : ℕ) → k < w → 2 ^ k < 2 ^ w
two-pow-lt k zero h = absurd (omega arith)
two-pow-lt zero (suc w) h = omega (arith, two-pow-suc w, two-pow-pos w)
two-pow-lt (suc k) (suc w) h =
    omega (arith, two-pow-suc w, two-pow-suc k, two-pow-lt k w (omega arith))

-- `~x` flips each digit of the word.
pub bit-complement : (w x j : ℕ) → x < 2 ^ w → j < w → bit (complement w x) j ≡ 1 - bit x j
unfolding complement
bit-complement zero x j h k = absurd (omega arith)
bit-complement (suc w) x zero h k = omega (arith, two-pow-suc w)
bit-complement (suc w) x (suc j) h k =
    ap (λ t. bit t j) halved
    ∙ bit-complement w (x / 2) j (omega (arith, two-pow-suc w)) (omega arith)
  where
    halved : (2 ^ suc w - 1 - x) / 2 ≡ 2 ^ w - 1 - x / 2
    halved = omega (arith, two-pow-suc w)

-- A number with no digit is 0.
zero_of_bits : (n a : ℕ) → a ≤ n → ((j : ℕ) → bit a j ≡ 0) → a ≡ 0
zero_of_bits zero a h all = omega arith
zero_of_bits (suc n) zero h all = refl
zero_of_bits (suc n) (suc a) h all =
    omega (arith, all 0, zero_of_bits n (suc a / 2) (omega arith) (λ j. all (suc j)))

masked_bit : (x k j : ℕ) → bit x k ≡ 0 → bit (bit_and x (2 ^ k)) j ≡ 0
masked_bit x k j h = elim (ℕ_discrete k j) [
  | yes e ↦ omega (arith, bit-bit_and x (2 ^ k) j, subst (λ t. bit x t ≡ 0) e h)
  | no ne ↦ omega (arith, bit-bit_and x (2 ^ k) j, other ne)
]
  where
    other : k ≢ j → bit (2 ^ k) j ≡ 0
    other ne = bit-two-pow k j ∙ ground arith

-- `(x & (1 << k)) != 0` reads the digit.
pub test_mask_lem : (x k : ℕ) → test_mask x k ≡ (bit x k == 1)
unfolding test_mask
test_mask_lem x k = elim (ℕ_discrete (bit x k) 0) [
  | yes e ↦
      ground (arith, zero_of_bits (bit_and x (2 ^ k)) _ (omega arith) (λ j. masked_bit x k j e))
  | no ne ↦ elim (ℕ_discrete (bit_and x (2 ^ k)) 0) [
    | yes e ↦ absurd (
        omega
          (arith, zero-bit k, ap (λ t. bit t k) e, bit-bit_and x (2 ^ k) k, bit-two-pow k k ∙ own))
    | no m ↦ ground (arith, bit-lt x k)
  ]
]
  where
    own : ◌≡◌ {A = ℕ} (if k == k then 1 else 0) 1
    own = ground arith

pub two-pow-le : (k w : ℕ) → k ≤ w → 2 ^ k ≤ 2 ^ w
two-pow-le k w h = elim (ℕ_discrete k w) [
  | yes e ↦ omega (arith, ap (λ (t : ℕ). 2 ^ t) e)
  | no ne ↦ omega (arith, two-pow-lt k w (omega arith))
]

-- A number is below `2 ^ w` when its digits from `w` on are 0, and only then.
small_of_bits : (w a : ℕ) → ((j : ℕ) → w ≤ j → bit a j ≡ 0) → a < 2 ^ w
small_of_bits zero a all = omega (arith, zero_of_bits a a (omega arith) (λ j. all j (omega arith)))
small_of_bits (suc w) a all =
    omega (arith, two-pow-suc w, small_of_bits w (a / 2) (λ j h. all (suc j) (omega arith)))

bits_of_small : (w a j : ℕ) → a < 2 ^ w → w ≤ j → bit a j ≡ 0
bits_of_small zero a j h k = ap (λ t. bit t j) zero_here ∙ zero-bit j
  where
    zero_here : a ≡ 0
    zero_here = omega arith
bits_of_small (suc w) a zero h k = absurd (omega arith)
bits_of_small (suc w) a (suc j) h k =
    bits_of_small w (a / 2) j (omega (arith, two-pow-suc w)) (omega arith)

pub bit_or-lt : (w a b : ℕ) → a < 2 ^ w → b < 2 ^ w → bit_or a b < 2 ^ w
bit_or-lt w a b h k = small_of_bits w (bit_or a b) (λ j above.
    omega (arith, bit-bit_or a b j, bits_of_small w a j h above, bits_of_small w b j k above))

pub bit_and-lt : (w a b : ℕ) → a < 2 ^ w → bit_and a b < 2 ^ w
bit_and-lt w a b h =
    small_of_bits w (bit_and a b)
      (λ j above. omega (arith, bit-bit_and a b j, bits_of_small w a j h above))
