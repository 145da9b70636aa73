-- ===== src/Numbers/Tests.antt =====
-- 250 in hexadecimal, and texts with spaces, signs and prefixes.
use nv0ken_linux.Prelude.{◌≡◌, refl, arith, true, [], ◌∷◌}
use nv0ken_linux.Prelude.Int.{negsuc, ◌-ℤ◌}
use nv0ken_linux.Numbers.{strtoul, strtol, skip_space, prefix, digits_from, digit_value}
use nv0ken_linux.Numbers.RoundTrip.{strtoul-emit_unsigned}
use nv0ken_linux.Printf.{emit_unsigned, digits_of}

strtol_runs : strtol (b' ' ∷ b'-' ∷ b'7' ∷ b'2' ∷ b'k' ∷ []) 10 ≡ (negsuc 71, b'k' ∷ [])
unfolding strtol strtoul skip_space prefix digits_from digit_value ◌-ℤ◌
strtol_runs = refl

strtoul_runs : strtoul (b'0' ∷ b'x' ∷ b'F' ∷ b'a' ∷ []) 0 ≡ (250, [])
unfolding strtoul skip_space prefix digits_from digit_value
strtoul_runs = refl

strtoul-emit_unsigned_example : strtoul (b'F' ∷ b'A' ∷ []) 16 ≡ (250, [])
unfolding emit_unsigned digits_of
strtoul-emit_unsigned_example =
    strtoul-emit_unsigned 250 16 true (omega arith) (omega arith) (omega arith)
