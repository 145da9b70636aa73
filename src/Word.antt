-- ===== src/Word.antt =====
-- Machine words: the widths the kernel's types have, and the operators `|`, `&`, `~` and `<<` as
-- the C code writes them, on the native numbers.
pub mod Bits
pub mod Align
use Prim.Native.Nat.{bit_and}
use nv0ken_linux.Prelude.{ℕ, ◌+◌, ◌*◌, ◌%◌, ◌-◌, ◌^◌, Bool, not, ◌==◌}

-- `~x` on a `w`-bit unsigned value.
unfoldable pub complement : ℕ → ℕ → ℕ
complement w x = 2 ^ w - 1 - x

-- `(x & (1 << k)) != 0`.
unfoldable pub test_mask : ℕ → ℕ → Bool
test_mask x k = not (bit_and x (2 ^ k) == 0)

-- `size_t` and `uint64_t` arithmetic.
abbrev pub u64_mod : ℕ
u64_mod = 2 ^ 64

abbrev pub add64 : ℕ → ℕ → ℕ
add64 a b = (a + b) % u64_mod

abbrev pub sub64 : ℕ → ℕ → ℕ
sub64 a b = (a + u64_mod - b) % u64_mod

abbrev pub mul64 : ℕ → ℕ → ℕ
mul64 a b = (a * b) % u64_mod

-- kernel/lib/math.h: `align_down_u64` and `align_up_u64`.
unfoldable pub align_down : ℕ → ℕ → ℕ
align_down value alignment = bit_and value (complement 64 (sub64 alignment 1))

unfoldable pub align_up : ℕ → ℕ → ℕ
unfolding align_down
align_up value alignment = align_down (sub64 (add64 value alignment) 1) alignment
