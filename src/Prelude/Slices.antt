-- ===== src/Prelude/Slices.antt =====
-- Blocks of bytes inside an array: what `memcpy` and `memmove` read and write.
use Prim.Native.Nat.{ℕ, zero, suc, ◌+◌, ◌-◌, ◌≤◌, ◌<◌}
use mathlib.Core.Path.{◌≡◌, refl, sym, ap, ◌∙◌}
use mathlib.Core.List.{List, [], ◌∷◌, ◌++◌}
use native.Mathlib.Omega.{arith}
use nv0ken_linux.Prelude.Lists.{length, take, drop, get_or, take-nil}

module _ {ℓ} {A : Type ℓ} where
  -- `n` cells from `i` on.
  abbrev pub slice : List A → ℕ → ℕ → List A
  slice xs i n = take n (drop i xs)

  -- The array with a block written over it from `i` on.
  abbrev pub overlay : List A → ℕ → List A → List A
  overlay xs i ys = take i xs ++ (ys ++ drop (i + length ys) xs)

  pub take-append_le : (n : ℕ) (xs ys : List A) → n ≤ length xs → take n (xs ++ ys) ≡ take n xs
  take-append_le zero xs ys h = refl
  take-append_le (suc n) [] ys h = absurd (omega arith)
  take-append_le (suc n) (x ∷ xs) ys h = ap (λ t. x ∷ t) (take-append_le n xs ys (omega arith))

  -- A count that goes past the first part by `k`.
  pub take_past :
      (n k : ℕ) (xs ys : List A) → n ≡ length xs + k → take n (xs ++ ys) ≡ xs ++ take k ys
  take_past n k [] ys h = ap (λ t. take t ys) (omega arith)
  take_past zero k (x ∷ xs) ys h = absurd (omega arith)
  take_past (suc n) k (x ∷ xs) ys h = ap (λ t. x ∷ t) (take_past n k xs ys (omega arith))

  pub drop_past : (n k : ℕ) (xs ys : List A) → n ≡ length xs + k → drop n (xs ++ ys) ≡ drop k ys
  drop_past n k [] ys h = ap (λ t. drop t ys) (omega arith)
  drop_past zero k (x ∷ xs) ys h = absurd (omega arith)
  drop_past (suc n) k (x ∷ xs) ys h = drop_past n k xs ys (omega arith)

  pub drop-append_le :
      (n : ℕ) (xs ys : List A) → n ≤ length xs → drop n (xs ++ ys) ≡ drop n xs ++ ys
  drop-append_le zero xs ys h = refl
  drop-append_le (suc n) [] ys h = absurd (omega arith)
  drop-append_le (suc n) (x ∷ xs) ys h = drop-append_le n xs ys (omega arith)

  pub take-take : (m n : ℕ) (xs : List A) → m ≤ n → take m (take n xs) ≡ take m xs
  take-take zero n xs h = refl
  take-take (suc m) zero xs h = absurd (omega arith)
  take-take (suc m) (suc n) [] h = refl
  take-take (suc m) (suc n) (x ∷ xs) h = ap (λ t. x ∷ t) (take-take m n xs (omega arith))

  drop-nil : (k : ℕ) → drop {A = A} k [] ≡ []
  drop-nil zero = refl
  drop-nil (suc k) = refl

  pub drop-drop : (m n : ℕ) (xs : List A) → drop m (drop n xs) ≡ drop (n + m) xs
  drop-drop m zero xs = ap (λ k. drop k xs) (omega arith)
  drop-drop m (suc n) [] = drop-nil m ∙ sym (drop-nil (suc n + m))
  drop-drop m (suc n) (x ∷ xs) = drop-drop m n xs ∙ shift
    where
      shift : drop (n + m) xs ≡ drop (suc n + m) (x ∷ xs)
      shift = ap (λ k. drop k (x ∷ xs)) next
        where
          next : suc (n + m) ≡ suc n + m
          next = omega arith

  pub take-append-drop : (n : ℕ) (xs : List A) → take n xs ++ drop n xs ≡ xs
  take-append-drop zero xs = refl
  take-append-drop (suc n) [] = refl
  take-append-drop (suc n) (x ∷ xs) = ap (λ t. x ∷ t) (take-append-drop n xs)

  -- A prefix in two pieces, and a suffix in two pieces.
  pub take_split : (m n : ℕ) (xs : List A) → m ≤ n → take n xs ≡ take m xs ++ slice xs m (n - m)
  take_split zero n xs h = ap (λ k. take k xs) (omega arith)
  take_split (suc m) zero xs h = absurd (omega arith)
  take_split (suc m) (suc n) [] h = sym (take-nil A (suc n - suc m))
  take_split (suc m) (suc n) (x ∷ xs) h =
      ap (λ t. x ∷ t)
        (take_split m n xs (omega arith) ∙ ap (λ k. take m xs ++ slice xs m k) (omega arith))

  pub drop_split : (m k : ℕ) (xs : List A) → drop m xs ≡ slice xs m k ++ drop (m + k) xs
  drop_split m k xs =
      sym (take-append-drop k (drop m xs)) ∙ ap (λ t. slice xs m k ++ t) (drop-drop k m xs)

  pub drop_all : (n : ℕ) (xs : List A) → length xs ≤ n → drop n xs ≡ []
  drop_all n [] h = drop-nil n
  drop_all zero (x ∷ xs) h = absurd (omega arith)
  drop_all (suc n) (x ∷ xs) h = drop_all n xs (omega arith)

  pub get_or-append_lt :
      (xs ys : List A) (i : ℕ) (d : A) → i < length xs → get_or (xs ++ ys) i d ≡ get_or xs i d
  get_or-append_lt [] ys i d h = absurd (omega arith)
  get_or-append_lt (x ∷ xs) ys zero d h = refl
  get_or-append_lt (x ∷ xs) ys (suc i) d h = get_or-append_lt xs ys i d (omega arith)

  pub get_or-append_past :
      (xs ys : List A) (i k : ℕ) (d : A) → i ≡ length xs + k → get_or (xs ++ ys) i d ≡ get_or ys k d
  get_or-append_past [] ys i k d h = ap (λ t. get_or ys t d) (omega arith)
  get_or-append_past (x ∷ xs) ys zero k d h = absurd (omega arith)
  get_or-append_past (x ∷ xs) ys (suc i) k d h = get_or-append_past xs ys i k d (omega arith)

  pub get_or-take : (n i : ℕ) (xs : List A) (d : A) → i < n → get_or (take n xs) i d ≡ get_or xs i d
  get_or-take zero i xs d h = absurd (omega arith)
  get_or-take (suc n) i [] d h = refl
  get_or-take (suc n) zero (x ∷ xs) d h = refl
  get_or-take (suc n) (suc i) (x ∷ xs) d h = get_or-take n i xs d (omega arith)

  pub get_or-drop : (n i : ℕ) (xs : List A) (d : A) → get_or (drop n xs) i d ≡ get_or xs (n + i) d
  get_or-drop zero i xs d = ap (λ t. get_or xs t d) (omega arith)
  get_or-drop (suc n) i [] d = refl
  get_or-drop (suc n) i (x ∷ xs) d = get_or-drop n i xs d ∙ ap (λ t. get_or (x ∷ xs) t d) next
    where
      next : suc (n + i) ≡ suc n + i
      next = omega arith

  pub get_or_out : (xs : List A) (i : ℕ) (d : A) → length xs ≤ i → get_or xs i d ≡ d
  get_or_out [] i d h = refl
  get_or_out (x ∷ xs) zero d h = absurd (omega arith)
  get_or_out (x ∷ xs) (suc i) d h = get_or_out xs i d (omega arith)

  pub slice-suc :
      (xs : List A) (i n : ℕ) (d : A)
      → i < length xs
      → slice xs i (suc n) ≡ get_or xs i d ∷ slice xs (i + 1) n
  slice-suc [] i n d h = absurd (omega arith)
  slice-suc (x ∷ xs) zero n d h = refl
  slice-suc (x ∷ xs) (suc i) n d h =
      slice-suc xs i n d (omega arith) ∙ ap (λ t. get_or xs i d ∷ slice (x ∷ xs) t n) next
    where
      next : suc (i + 1) ≡ suc i + 1
      next = omega arith
