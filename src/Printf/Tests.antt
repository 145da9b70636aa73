-- ===== src/Printf/Tests.antt =====
-- A format with a text, a negative number and an address.
use nv0ken_linux.Prelude.{◌≡◌, refl, [], ◌∷◌, some}
use nv0ken_linux.Printf.{kvprintf, convert, number, string, emit_signed, emit_unsigned, digits_of}

kvprintf_runs :
    kvprintf 20
      (b'%' ∷ b's' ∷ b'=' ∷ b'%' ∷ b'l' ∷ b'd' ∷ b'%' ∷ b'x' ∷ [])
      (string (some (b'a' ∷ [])) ∷ number 18446744073709551611 ∷ number 31 ∷ [])
    ≡ some (b'a' ∷ b'=' ∷ b'-' ∷ b'5' ∷ b'1' ∷ b'f' ∷ [])
unfolding kvprintf convert emit_signed emit_unsigned digits_of
kvprintf_runs = refl
