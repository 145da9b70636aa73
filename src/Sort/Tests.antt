-- ===== src/Sort/Tests.antt =====
-- Numbers in the usual order.
use mathlib.Core.List.{Perm}
use nv0ken_linux.Prelude.{ℕ, ◌≡◌, refl, arith, true, false, [], ◌∷◌}
use nv0ken_linux.Prelude.Int.{ℤ, sub_ℕ}
use nv0ken_linux.Sort.{at_most_zero, swap_at, in_order, settle, sort_from, qsort}
use nv0ken_linux.Sort.Laws.{Ordered, qsort_lem}

abbrev difference : ℕ → ℕ → ℤ
difference a b = sub_ℕ a b

sort_runs : qsort difference (3 ∷ 1 ∷ 2 ∷ 1 ∷ []) ≡ 1 ∷ 1 ∷ 2 ∷ 3 ∷ []
unfolding qsort sort_from settle in_order swap_at
sort_runs = refl

difference_total :
    (a b : ℕ) → at_most_zero (difference a b) ≡ false → at_most_zero (difference b a) ≡ true
difference_total a b h = ground arith

qsort_lem_example :
    Perm (qsort difference (3 ∷ 1 ∷ 2 ∷ 1 ∷ [])) (3 ∷ 1 ∷ 2 ∷ 1 ∷ [])
    × Ordered difference (qsort difference (3 ∷ 1 ∷ 2 ∷ 1 ∷ []))
qsort_lem_example = qsort_lem difference difference_total (3 ∷ 1 ∷ 2 ∷ 1 ∷ [])
