-- ===== src/Sort.antt =====
-- kernel/lib/stdlib.c: `qsort`, an insertion sort. The array is the list of its elements; swapping
-- the bytes of two elements exchanges them. The comparison is the caller's.
pub mod Orders
pub mod Laws
mod Tests
use nv0ken_linux.Prelude.{
  ℕ, zero, suc, ◌+◌, ◌-◌, ◌≡◌, Bool, true, false, not, List, [], ◌∷◌, ltb, if◌then◌else◌, length,
}
use nv0ken_linux.Prelude.Int.{ℤ, pos, ltb_ℤ}

abbrev pub at_most_zero : ℤ → Bool
at_most_zero c = not (ltb_ℤ (pos 0) c)

module _ {ℓ} {A : Type ℓ} where
  -- `swap_bytes` of the elements at `j` and `j + 1`.
  unfoldable pub swap_at : ℕ → List A → List A
  swap_at j [] = []
  swap_at j (a ∷ []) = a ∷ []
  swap_at zero (a ∷ b ∷ xs) = b ∷ a ∷ xs
  swap_at (suc j) (a ∷ b ∷ xs) = a ∷ swap_at j (b ∷ xs)

module _ {ℓ} {A : Type ℓ} (compar : A → A → ℤ) where
  -- `compar(a, b) <= 0` for the elements at `j` and `j + 1`.
  unfoldable pub in_order : ℕ → List A → Bool
  in_order j [] = true
  in_order j (a ∷ []) = true
  in_order zero (a ∷ b ∷ xs) = at_most_zero (compar a b)
  in_order (suc j) (a ∷ b ∷ xs) = in_order j (b ∷ xs)

  -- The inner loop, from the element at `j` down.
  unfoldable pub settle : ℕ → List A → List A
  settle zero xs = xs
  settle (suc j) xs = let rest = settle j (swap_at j xs) in if in_order j xs then xs else rest

  -- The outer loop: `rounds` rounds from `i` on.
  unfoldable pub sort_from : ℕ → ℕ → List A → List A
  sort_from zero i xs = xs
  sort_from (suc rounds) i xs = sort_from rounds (i + 1) (settle i xs)

  unfoldable pub qsort : List A → List A
  qsort xs = if ltb (length xs) 2 then xs else sort_from (length xs - 1) 1 xs
