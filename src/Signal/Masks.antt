-- ===== src/Signal/Masks.antt =====
-- The masks, signal by signal.

use Prim.Native.Nat.{bit_and, bit_or}
use nv0ken_linux.Prelude.{ℕ, ◌^◌, ◌<◌, ◌≡◌, arith, Bool, not, ◌&&◌, ◌||◌, ◌==◌}
use nv0ken_linux.Word.{complement, test_mask}
use nv0ken_linux.Word.Bits.{
  bit-lt, bit-bit_and, bit-bit_or, bit-two-pow, bit-complement, two-pow-lt, test_mask_lem,
}
use nv0ken_linux.Signal.{Signals, sig_max, deliverable}

abbrev pub is_pending : Signals → ℕ → Bool
is_pending s k = test_mask s.pending_mask k

abbrev pub is_blocked : Signals → ℕ → Bool
is_blocked s k = test_mask s.blocked_mask k

pub record IsValid (s : Signals) : Type 0 where
  pub small : s.blocked_mask < 2 ^ sig_max

module _ (x k j : ℕ) where
  pub set_bit : test_mask (bit_or x (2 ^ k)) j ≡ (test_mask x j || k == j)
  set_bit = ground (
    arith,
    test_mask_lem (bit_or x (2 ^ k)) j,
    test_mask_lem x j,
    bit-bit_or x (2 ^ k) j,
    bit-two-pow k j,
    bit-lt x j,
  )

  pub clear_bit :
      k < sig_max
      → j < sig_max
      → test_mask (bit_and x (complement sig_max (2 ^ k))) j ≡ (test_mask x j && not (k == j))
  clear_bit h h' = ground (
    arith,
    test_mask_lem (bit_and x (complement sig_max (2 ^ k))) j,
    test_mask_lem x j,
    bit-bit_and x (complement sig_max (2 ^ k)) j,
    bit-complement sig_max (2 ^ k) j (two-pow-lt k sig_max h) h',
    bit-two-pow k j,
    bit-lt x j,
  )

pub deliverable_lem :
    (s : Signals) (j : ℕ)
    → IsValid s
    → j < sig_max
    → test_mask (deliverable s) j ≡ (is_pending s j && not (is_blocked s j))
unfolding deliverable
deliverable_lem s j v h = ground (
  arith,
  test_mask_lem (bit_and s.pending_mask (complement sig_max s.blocked_mask)) j,
  test_mask_lem s.pending_mask j,
  test_mask_lem s.blocked_mask j,
  bit-bit_and s.pending_mask (complement sig_max s.blocked_mask) j,
  bit-complement sig_max s.blocked_mask j v.small h,
  bit-lt s.pending_mask j,
  bit-lt s.blocked_mask j,
)
