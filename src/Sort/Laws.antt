-- ===== src/Sort/Laws.antt =====
-- kernel/lib/stdlib.c: the result of `qsort`.
use mathlib.Core.List.{Perm}
use mathlib.Core.List.Perm as Perm
use mathlib.Core.List.{perm_middle}
use nv0ken_linux.Prelude.{
  ◌≡◌, sym, subst, true, false, List, [], ◌∷◌, ◌++◌, append-nil, Bool-cases, inl, inr,
}
use nv0ken_linux.Prelude.Int.{ℤ}
use nv0ken_linux.Sort.{qsort}
use nv0ken_linux.Sort.Orders.{onto, before, put, put_all, qsort-put_all}

module _ {ℓ} {A : Type ℓ} where
  pub onto-Perm : (ps xs : List A) → Perm (onto ps xs) (ps ++ xs)
  unfolding onto
  onto-Perm [] xs = Perm.refl xs
  onto-Perm (p ∷ ps) xs = Perm.trans (onto-Perm ps (p ∷ xs)) (perm_middle ps xs)

module _ {ℓ} {A : Type ℓ} (compar : A → A → ℤ) where
  put-Perm : (x : A) (r : List A) → Perm (put compar x r) (x ∷ r)
  unfolding put
  put-Perm x [] = Perm.refl (x ∷ [])
  put-Perm x (y ∷ r) = elim (Bool-cases (before compar y x)) [
    | inl e ↦ rw e (Perm.refl (x ∷ y ∷ r))
    | inr e ↦ rw e (Perm.trans (Perm.cons y (put-Perm x r)) (Perm.swap x y r))
  ]

  put_all-Perm : (r xs : List A) → Perm (put_all compar r xs) (r ++ xs)
  unfolding put_all
  put_all-Perm r [] = subst (λ (l : List A). Perm r l) (sym (append-nil r)) (Perm.refl r)
  put_all-Perm r (x ∷ xs) =
      Perm.trans (put_all-Perm (put compar x r) xs)
        (Perm.trans (Perm.append_right xs (put-Perm x r)) (Perm.symm (perm_middle r xs)))

  -- Every two neighbours in order; in reverse.
  abbrev pub Ordered : List A → Type 0
  Ordered [] = Unit
  Ordered (a ∷ []) = Unit
  Ordered (a ∷ b ∷ xs) = (before compar a b ≡ true) × Ordered (b ∷ xs)

  abbrev pub Falling : List A → Type 0
  Falling [] = Unit
  Falling (a ∷ []) = Unit
  Falling (a ∷ b ∷ xs) = (before compar b a ≡ true) × Falling (b ∷ xs)

  onto-Ordered :
      (ps : List A) (x : A) (xs : List A)
      → Falling (x ∷ ps)
      → Ordered (x ∷ xs)
      → Ordered (onto ps (x ∷ xs))
  unfolding onto
  onto-Ordered [] x xs h k = k
  onto-Ordered (p ∷ ps) x xs h k = onto-Ordered ps p (x ∷ xs) h.1 (h.0, k)

  module _ (total : (a b : A) → before compar a b ≡ false → before compar b a ≡ true) where
    put-Falling_below :
        (x y : A) (r : List A)
        → before compar y x ≡ false
        → Falling (y ∷ r)
        → Falling (y ∷ put compar x r)
    unfolding put
    put-Falling_below x y [] e h = (total y x e, tt)
    put-Falling_below x y (z ∷ r) e h = elim (Bool-cases (before compar z x)) [
      | inl f ↦ rw f (total y x e, (f, h.1))
      | inr f ↦ rw f (h.0, put-Falling_below x z r f h.1)
    ]

    put-Falling : (x : A) (r : List A) → Falling r → Falling (put compar x r)
    unfolding put
    put-Falling x [] h = tt
    put-Falling x (y ∷ r) h = elim (Bool-cases (before compar y x)) [
      | inl f ↦ rw f (f, h)
      | inr f ↦ rw f (put-Falling_below x y r f h)
    ]

    put_all-Falling : (r xs : List A) → Falling r → Falling (put_all compar r xs)
    unfolding put_all
    put_all-Falling r [] h = h
    put_all-Falling r (x ∷ xs) h = put_all-Falling (put compar x r) xs (put-Falling x r h)

-- With a comparison that puts any two elements into one order or the other, `qsort` gives the
-- elements of its array, each as often as before, with every two
-- neighbours in order.
pub qsort_lem {ℓ} :
    {A : Type ℓ} (compar : A → A → ℤ)
    → ((a b : A) → before compar a b ≡ false → before compar b a ≡ true)
    → (xs : List A) → Perm (qsort compar xs) xs × Ordered compar (qsort compar xs)
unfolding qsort onto
qsort_lem compar total [] = (Perm.refl [], tt)
qsort_lem {A = A} compar total (x ∷ xs) = (
  subst (λ (l : List A). Perm l (x ∷ xs)) (sym result)
      (Perm.trans
        (subst (λ (l : List A). Perm (onto sorted []) l) (append-nil sorted) (onto-Perm sorted []))
        (put_all-Perm compar (x ∷ []) xs)),
  subst (Ordered compar) (sym result) (rising sorted (put_all-Falling compar total (x ∷ []) xs tt)),
)
  where
    sorted : List A
    sorted = put_all compar (x ∷ []) xs

    result : qsort compar (x ∷ xs) ≡ onto sorted []
    result = qsort-put_all compar x xs

    rising : (ps : List A) → Falling compar ps → Ordered compar (onto ps [])
    rising [] h = tt
    rising (p ∷ ps) h = onto-Ordered compar ps p [] h tt
