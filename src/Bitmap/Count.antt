-- ===== src/Bitmap/Count.antt =====
-- The number of set bits, against a count over the bits as the operations show them.
use native.Mathlib.Decide.{ℕ_discrete}
use nv0ken_linux.Prelude.{
  ℕ, zero, suc, ◌+◌, ◌^◌, ◌≤◌, ◌<◌, ◌≡◌, refl, ap, arith, Bool, true, false, if◌then◌else◌, ◌==◌,
}
use nv0ken_linux.Word.{add64}
use nv0ken_linux.Bitmap.{Bitmap, IsValid, test, set, clear, count_from, count_set}
use nv0ken_linux.Bitmap.Laws.{
  test-set, test-clear, bit_count-set, bit_count-clear, set-IsValid, clear-IsValid, not_empty,
}

-- How many of the `n` positions from `i` on pass the test.
abbrev pub ones : (ℕ → Bool) → ℕ → ℕ → ℕ
ones f zero i = 0
ones f (suc n) i = (if f i then 1 else 0) + ones f n (i + 1)

pub ones-le : (f : ℕ → Bool) (n i : ℕ) → ones f n i ≤ n
ones-le f zero i = omega arith
ones-le f (suc n) i = ground (arith, ones-le f n (i + 1))

module _ (f g : ℕ → Bool) (at : ℕ) (off : f at ≡ false)
    (law : (j : ℕ) → g j ≡ (if at == j then true else f j)) where
  ones_before : (n i : ℕ) → at < i → ones g n i ≡ ones f n i
  ones_before zero i h = refl
  ones_before (suc n) i h = ground (arith, law i, ones_before n (i + 1))

  -- One more position passes.
  ones_flip : (n i : ℕ) → i ≤ at → at < i + n → ones g n i ≡ ones f n i + 1
  ones_flip zero i h h' = absurd (omega arith)
  ones_flip (suc n) i h h' = elim (ℕ_discrete at i) [
    | yes e ↦ ground (arith, law i, ap f e, ones_before n (i + 1))
    | no ne ↦ ground (arith, law i, ones_flip n (i + 1))
  ]

count_from_lem :
    (b : Bitmap) (n i c : ℕ) → c + n < 2 ^ 64 → count_from b n i c ≡ c + ones (test b) n i
unfolding count_from
count_from_lem b zero i c h = omega arith
count_from_lem b (suc n) i c h =
    ground (arith, count_from_lem b n (i + 1) (add64 c (if test b i then 1 else 0)))

-- `bitmap_count_set` counts the set bits of a valid map, without overflow.
pub count_set_lem : {b : Bitmap} → IsValid b → count_set b ≡ ones (test b) b.bit_count 0
unfolding count_set
count_set_lem {b} v = elim (ℕ_discrete b.bit_count 0) [
  | yes e ↦ ground (arith, ap (λ n. ones (test b) n 0) e, count_from_lem b b.bit_count 0 0)
  | no ne ↦ ground (arith, not_empty 0 v, count_from_lem b b.bit_count 0 0)
]

-- Setting a clear bit of the map adds one to the count.
pub ones-set :
    {b : Bitmap} (i : ℕ)
    → IsValid b
    → i < b.bit_count
    → test b i ≡ false
    → ones (test (set b i)) b.bit_count 0 ≡ ones (test b) b.bit_count 0 + 1
ones-set {b} i v h off =
    ones_flip (test b) (test (set b i)) i off (λ j. ground (arith, test-set i j v)) b.bit_count 0
      (omega arith) (omega arith)

-- Clearing a set bit takes one away.
pub ones-clear :
    {b : Bitmap} (i : ℕ)
    → IsValid b
    → i < b.bit_count
    → test b i ≡ true
    → ones (test b) b.bit_count 0 ≡ ones (test (clear b i)) b.bit_count 0 + 1
ones-clear {b} i v h on =
    ones_flip (test (clear b i)) (test b) i (ground (arith, test-clear i i v))
      (λ j. elim (ℕ_discrete i j) [
        | yes e ↦ ground (arith, ap (test b) e)
        | no ne ↦ ground (arith, test-clear i j v)
      ])
      b.bit_count 0 (omega arith) (omega arith)

-- Setting a clear bit raises `bitmap_count_set` by one, and clearing a set bit lowers it by one.
pub count_set-set-clear :
    {b : Bitmap} (i j : ℕ)
    → IsValid b
    → i < b.bit_count
    → j < b.bit_count
    → test b i ≡ false
    → test b j ≡ true
    → (count_set (set b i) ≡ count_set b + 1) × (count_set (clear b j) + 1 ≡ count_set b)
count_set-set-clear {b} i j v hi hj off on = (raised, lowered)
  where
    raised : count_set (set b i) ≡ count_set b + 1
    raised = ground (
      arith,
      count_set_lem v,
      count_set_lem (set-IsValid i v),
      ones-set i v hi off,
      bit_count-set b i,
      ap (λ n. ones (test (set b i)) n 0) (bit_count-set b i),
    )

    lowered : count_set (clear b j) + 1 ≡ count_set b
    lowered = ground (
      arith,
      count_set_lem v,
      count_set_lem (clear-IsValid j v),
      ones-clear j v hj on,
      ap (λ n. ones (test (clear b j)) n 0) (bit_count-clear b j),
    )

pub ones_all :
    (f : ℕ → Bool) (n i : ℕ) → ((j : ℕ) → i ≤ j → j < i + n → f j ≡ true) → ones f n i ≡ n
ones_all f zero i h = refl
ones_all f (suc n) i h =
    ground (arith, h i, ones_all f n (i + 1) (λ j p q. h j (omega arith) (omega arith)))
