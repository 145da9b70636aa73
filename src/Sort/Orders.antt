-- ===== src/Sort/Orders.antt =====
-- kernel/lib/stdlib.c: the loops of `qsort` put one element after the other in. The sorted front of the array is held the
-- last element first.
use nv0ken_linux.Prelude.{
  ℕ, suc, ◌+◌, ◌-◌, ◌≡◌, refl, sym, ap, ◌∙◌, arith, Bool, false, List, [], ◌∷◌, ltb, if◌then◌else◌,
  length, Bool-cases, inl, inr,
}
use nv0ken_linux.Prelude.Int.{ℤ}
use nv0ken_linux.Sort.{at_most_zero, swap_at, in_order, settle, sort_from, qsort}

module _ {ℓ} {A : Type ℓ} where
  -- A list behind the reverse of another.
  unfoldable pub onto : List A → List A → List A
  onto [] xs = xs
  onto (p ∷ ps) xs = onto ps (p ∷ xs)

  swap_at-onto :
      (ps : List A) (j : ℕ) (a b : A) (xs : List A)
      → swap_at (length ps + j) (onto ps (a ∷ b ∷ xs)) ≡ onto ps (swap_at j (a ∷ b ∷ xs))
  unfolding onto swap_at
  swap_at-onto [] j a b xs = ap (λ (n : ℕ). swap_at n (a ∷ b ∷ xs)) plus
    where
      plus : 0 + j ≡ j
      plus = omega arith
  swap_at-onto (p ∷ ps) j a b xs =
      ap (λ (n : ℕ). swap_at n (onto ps (p ∷ a ∷ b ∷ xs))) plus
      ∙ swap_at-onto ps (suc j) p a (b ∷ xs)
    where
      plus : suc (length ps) + j ≡ length ps + suc j
      plus = omega arith

module _ {ℓ} {A : Type ℓ} (compar : A → A → ℤ) where
  abbrev pub before : A → A → Bool
  before a b = at_most_zero (compar a b)

  in_order-onto :
      (ps : List A) (j : ℕ) (a b : A) (xs : List A)
      → in_order compar (length ps + j) (onto ps (a ∷ b ∷ xs)) ≡ in_order compar j (a ∷ b ∷ xs)
  unfolding onto in_order
  in_order-onto [] j a b xs = ap (λ (n : ℕ). in_order compar n (a ∷ b ∷ xs)) plus
    where
      plus : 0 + j ≡ j
      plus = omega arith
  in_order-onto (p ∷ ps) j a b xs =
      ap (λ (n : ℕ). in_order compar n (onto ps (p ∷ a ∷ b ∷ xs))) plus
      ∙ in_order-onto ps (suc j) p a (b ∷ xs)
    where
      plus : suc (length ps) + j ≡ length ps + suc j
      plus = omega arith

  -- A new element among the sorted ones, the last of them first.
  unfoldable pub put : A → List A → List A
  put x [] = x ∷ []
  put x (y ∷ r) = let rest = put x r in if before y x then x ∷ y ∷ r else y ∷ rest

  -- The inner loop moves the element behind the front to its place.
  pub settle-put :
      (r : List A) (x : A) (xs : List A)
      → settle compar (length r) (onto r (x ∷ xs)) ≡ onto (put x r) xs
  unfolding settle onto put in_order swap_at
  settle-put [] x xs = refl
  settle-put (y ∷ r) x xs = elim (Bool-cases (before y x)) [
    | inl e ↦
        ap choose (test ∙ e)
        ∙ ap (λ (b : Bool). onto (if b then x ∷ y ∷ r else y ∷ put x r) xs) (sym e)
    | inr e ↦
        ap choose (test ∙ e)
        ∙ swapped
        ∙ settle-put r x (y ∷ xs)
        ∙ ap (λ (b : Bool). onto (if b then x ∷ y ∷ r else y ∷ put x r) xs) (sym e)
  ]
    where
      list : List A
      list = onto r (y ∷ x ∷ xs)

      choose : Bool → List A
      choose b = if b then list else settle compar (length r) (swap_at (length r) list)

      plus : length r ≡ length r + 0
      plus = omega arith

      test : in_order compar (length r) list ≡ before y x
      test = ap (λ (n : ℕ). in_order compar n list) plus ∙ in_order-onto r 0 y x xs

      swapped :
          settle compar (length r) (swap_at (length r) list)
          ≡ settle compar (length r) (onto r (x ∷ y ∷ xs))
      swapped =
          ap (settle compar (length r))
            (ap (λ (n : ℕ). swap_at n list) plus ∙ swap_at-onto r 0 y x xs)

  -- All the elements put in, one after the other.
  unfoldable pub put_all : List A → List A → List A
  put_all r [] = r
  put_all r (x ∷ xs) = put_all (put x r) xs

  length-put : (x : A) (r : List A) → length (put x r) ≡ length r + 1
  unfolding put
  length-put x [] = refl
  length-put x (y ∷ r) = let e = length-put x r in ground arith

  sort_from-put_all :
      (r xs : List A) → sort_from compar (length xs) (length r) (onto r xs) ≡ onto (put_all r xs) []
  unfolding sort_from put_all
  sort_from-put_all r [] = refl
  sort_from-put_all r (x ∷ xs) =
      ap (λ (l : List A). sort_from compar (length xs) (length r + 1) l) (settle-put r x xs)
      ∙ ap (λ (n : ℕ). sort_from compar (length xs) n (onto (put x r) xs)) (sym (length-put x r))
      ∙ sort_from-put_all (put x r) xs

  pub qsort-put_all : (x : A) (xs : List A) → qsort compar (x ∷ xs) ≡ onto (put_all (x ∷ []) xs) []
  unfolding qsort onto put_all
  qsort-put_all x [] = refl
  qsort-put_all x (z ∷ zs) =
      ap
        (λ (b : Bool).
          if b then x ∷ z ∷ zs else sort_from compar (length (x ∷ z ∷ zs) - 1) 1 (x ∷ z ∷ zs))
        large
      ∙ ap (λ (n : ℕ). sort_from compar n 1 (x ∷ z ∷ zs)) less
      ∙ sort_from-put_all (x ∷ []) (z ∷ zs)
    where
      large : ltb (length (x ∷ z ∷ zs)) 2 ≡ false
      large = ground arith

      less : length (x ∷ z ∷ zs) - 1 ≡ length (z ∷ zs)
      less = omega arith
