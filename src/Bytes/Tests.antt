-- ===== src/Bytes/Tests.antt =====
-- A memory whose bytes count up, and two strings in one.
use nv0ken_linux.Prelude.{ℕ, ◌≡◌, ◌↔◌, refl, arith, List, [], ◌∷◌, some, if◌then◌else◌, ltb}
use nv0ken_linux.Prelude.Int.{ℤ, pos}
use nv0ken_linux.Bytes.{Memory, memmove, copy_down, strcmp}
use nv0ken_linux.Bytes.Moves.{memmove_lem}
use nv0ken_linux.Bytes.Compares.{strcmp_lem}

-- The byte at an address is the address, up to 100; behind it zeros.
abbrev counting : Memory
counting a = if ltb a 100 then a else 0

memmove_runs : memmove 3 1 5 counting 7 ≡ 5
unfolding memmove copy_down
memmove_runs = refl

memmove_lem_example : memmove 3 1 5 counting 4 ≡ 2
memmove_lem_example = memmove_lem 3 1 5 counting 4

strcmp_lem_example :
    (r : ℤ) × (strcmp 9 98 98 counting ≡ some r)
    × ((r ≡ pos 0) ↔ (◌≡◌ {A = List ℕ} (98 ∷ 99 ∷ []) (98 ∷ 99 ∷ [])))
strcmp_lem_example =
    strcmp_lem 9 98 98 counting (98 ∷ 99 ∷ []) (98 ∷ 99 ∷ []) (omega arith) (omega arith)
      (omega arith)
