-- ===== src/Checksum/Verifies.antt =====
-- kernel/net/checksum.c: a packet that carries its checksum has the checksum 0.
use nv0ken_linux.Prelude.{
  ℕ, suc, ◌+◌, ◌-◌, ◌*◌, ◌/◌, ◌%◌, ◌^◌, ◌≤◌, ◌<◌, ◌≡◌, refl, ap, ◌∙◌, arith, true, false, List, [],
  ◌∷◌, ◌++◌, ◌==◌, length, Option, none, some, Bool-cases, inl, inr,
}
use nv0ken_linux.Checksum.{sum_words, fold_carries, checksum_from}

abbrev pub AreBytes : List ℕ → Type 0
AreBytes [] = Unit
AreBytes (b ∷ bytes) = (b < 256) × AreBytes bytes

-- The sum without a limit.
abbrev total : List ℕ → ℕ
total [] = 0
total (b ∷ []) = b * 256
total (b ∷ c ∷ bytes) = b * 256 + c + total bytes

total_bound : (bytes : List ℕ) → AreBytes bytes → 2 * total bytes ≤ 65535 * (length bytes + 1)
total_bound [] h = omega arith
total_bound (b ∷ []) h = omega arith
total_bound (b ∷ c ∷ bytes) h = let e = total_bound bytes h.1.1 in omega arith

sum_words-total :
    (sum : ℕ) (bytes : List ℕ)
    → sum + total bytes < 2 ^ 32
    → sum_words sum bytes ≡ sum + total bytes
unfolding sum_words
sum_words-total sum [] h = omega arith
sum_words-total sum (b ∷ []) h = omega arith
sum_words-total sum (b ∷ c ∷ bytes) h =
    sum_words-total ((sum + (b * 256 + c)) % 2 ^ 32) bytes (omega arith) ∙ shift
  where
    shift : (sum + (b * 256 + c)) % 2 ^ 32 + total bytes ≡ sum + (b * 256 + c + total bytes)
    shift = omega arith

-- A word in the middle, at an even place.
total_middle :
    (xs : List ℕ) (h l : ℕ) (ys : List ℕ)
    → length xs % 2 ≡ 0
    → total (xs ++ h ∷ l ∷ ys) ≡ h * 256 + l + total (xs ++ 0 ∷ 0 ∷ ys)
total_middle [] h l ys e = omega arith
total_middle (x ∷ []) h l ys e = absurd (omega arith)
total_middle (x ∷ y ∷ xs) h l ys e = let r = total_middle xs h l ys (omega arith) in omega arith

-- Folding the carries keeps the sum modulo 2^16 - 1 and its being 0, and ends after three rounds.
abbrev Folded : ℕ → Type 0
Folded sum =
    (f : ℕ) × (k : ℕ) × (fold_carries 3 sum ≡ some f)
    × (sum ≡ f + 65535 * k)
    × (f < 65536)
    × (0 < sum → 0 < f)

fold_carries-done :
    (fuel sum : ℕ) → (sum / 2 ^ 16 == 0) ≡ true → fold_carries (suc fuel) sum ≡ some sum
unfolding fold_carries
fold_carries-done fuel sum e = rw e refl

fold_carries-more :
    (fuel sum : ℕ)
    → (sum / 2 ^ 16 == 0) ≡ false
    → fold_carries (suc fuel) sum ≡ fold_carries fuel (sum % 2 ^ 16 + sum / 2 ^ 16)
unfolding fold_carries
fold_carries-more fuel sum e = rw e refl

small : (n : ℕ) → n < 2 ^ 16 → (n / 2 ^ 16 == 0) ≡ true
small n h = ground arith

is_small : (n : ℕ) → (n / 2 ^ 16 == 0) ≡ true → n < 2 ^ 16
is_small n h = ground arith

is_large : (n : ℕ) → (n / 2 ^ 16 == 0) ≡ false → 2 ^ 16 ≤ n
is_large n h = ground arith

fold_carries-Folded : (sum : ℕ) → sum < 2 ^ 32 → Folded sum
fold_carries-Folded sum h = elim (Bool-cases (sum / 2 ^ 16 == 0)) [
  | inl e ↦ (sum, 0, fold_carries-done 2 sum e, omega arith, is_small sum e, λ p. p)
  | inr e ↦ elim (Bool-cases (next / 2 ^ 16 == 0)) [
    | inl f ↦ (
      next,
      sum / 2 ^ 16,
      fold_carries-more 2 sum e ∙ fold_carries-done 1 next f,
      omega arith,
      is_small next f,
      λ p. positive (is_large sum e),
    )
    | inr f ↦ (
      last,
      sum / 2 ^ 16 + 1,
      fold_carries-more 2 sum e
          ∙ fold_carries-more 1 next f
          ∙ fold_carries-done 0 last (small last (ends (is_large next f))),
      twice (is_large next f),
      ends (is_large next f),
      λ p. kept (is_large next f),
    )
  ]
]
  where
    next : ℕ
    next = sum % 2 ^ 16 + sum / 2 ^ 16

    last : ℕ
    last = next % 2 ^ 16 + next / 2 ^ 16

    positive : 2 ^ 16 ≤ sum → 0 < next
    positive l = omega arith

    ends : 2 ^ 16 ≤ next → last < 2 ^ 16
    ends l = omega arith

    twice : 2 ^ 16 ≤ next → sum ≡ last + 65535 * (sum / 2 ^ 16 + 1)
    twice l = omega arith

    kept : 2 ^ 16 ≤ next → 0 < last
    kept l = omega arith

-- The checksum of bytes whose sum stays below the limit.
checksum_from-Folded :
    (start : ℕ) (bytes : List ℕ) (f : ℕ)
    → start + total bytes < 2 ^ 32
    → fold_carries 3 (start + total bytes) ≡ some f
    → checksum_from start bytes ≡ some (65535 - f)
unfolding checksum_from
checksum_from-Folded start bytes f h e =
    ap finish (ap (fold_carries 3) (sum_words-total start bytes h) ∙ e)
  where
    finish : Option ℕ → Option ℕ
    finish o = elim o [ none ↦ none | some sum ↦ some (2 ^ 16 - 1 - sum) ]

-- A packet of at most 65535 bytes has a checksum `c`, computed while its field, at an even place,
-- is 0. With `c` written into the field, the upper byte first, the checksum of the packet is 0. The
-- first sum `start` is 0, or the sum of a pseudo header.
pub checksum_lem :
    (start : ℕ) (xs ys : List ℕ)
    → length xs % 2 ≡ 0
    → AreBytes (xs ++ 0 ∷ 0 ∷ ys)
    → length (xs ++ 0 ∷ 0 ∷ ys) ≤ 65535
    → start ≤ 6 * 65535
    → (c : ℕ) × (checksum_from start (xs ++ 0 ∷ 0 ∷ ys) ≡ some c)
      × (c < 2 ^ 16)
      × (checksum_from start (xs ++ c / 256 ∷ c % 256 ∷ ys) ≡ some 0)
checksum_lem start xs ys even bytes short low =
    carried (fold_carries-Folded (start + total blank) room)
  where
    blank : List ℕ
    blank = xs ++ 0 ∷ 0 ∷ ys

    half : 2 * total blank ≤ 65535 * 65536
    half = let b = total_bound blank bytes in omega arith

    room : start + total blank < 2 ^ 32
    room = let b = half in omega arith

    carried :
        Folded (start + total blank)
        → (c : ℕ) × (checksum_from start blank ≡ some c)
          × (c < 2 ^ 16)
          × (checksum_from start (xs ++ c / 256 ∷ c % 256 ∷ ys) ≡ some 0)
    carried (f, k, e, sum, limit, nonzero) = (
      65535 - f,
      checksum_from-Folded start blank f room e,
      omega arith,
      verified (fold_carries-Folded (start + total filled) filled_room),
    )
      where
        c : ℕ
        c = 65535 - f

        filled : List ℕ
        filled = xs ++ c / 256 ∷ c % 256 ∷ ys

        filled_sum : total filled ≡ c + total blank
        filled_sum = let m = total_middle xs (c / 256) (c % 256) ys even in omega arith

        filled_room : start + total filled < 2 ^ 32
        filled_room = let m = filled_sum in let b = half in omega arith

        verified : Folded (start + total filled) → checksum_from start filled ≡ some 0
        verified (g, j, d, sum2, limit2, nonzero2) =
            checksum_from-Folded start filled g filled_room d ∙ ap some zeroed
          where
            some_sum : 0 < start + total filled
            some_sum = let m = filled_sum in omega arith

            all_ones : g ≡ 65535
            all_ones = let m = filled_sum in let p = nonzero2 some_sum in omega arith

            zeroed : 65535 - g ≡ 0
            zeroed = let a = all_ones in omega arith
