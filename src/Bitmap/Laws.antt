-- ===== src/Bitmap/Laws.antt =====
-- What the single-bit operations do to every bit of a bitmap.
use Prim.Native.Nat.{bit_and, bit_or}
use native.Mathlib.Decide.{ℕ_discrete, dec_lt}
use nv0ken_linux.Prelude.{
  ℕ, zero, suc, ◌+◌, ◌-◌, ◌/◌, ◌%◌, ◌^◌, ◌≤◌, ◌<◌, ◌≡◌, refl, sym, ◌∙◌, ap, ◌≢◌, arith, Bool, true,
  false, ◌&&◌, List, [], ◌∷◌, ltb, leb, ◌==◌, if◌then◌else◌, is_empty, get_or, length,
  set as list_set, length-set, get_or-set_self, get_or-set_ne,
}
use nv0ken_linux.Word.{complement}
use nv0ken_linux.Word.Bits.{
  bit, bit-lt, zero-bit, bit-bit_and, bit-bit_or, bit-two-pow, bit-complement, test_mask_lem,
  two-pow-lt,
}
use nv0ken_linux.Bitmap.{
  Bitmap, IsValid, storage_words, rejects, set, clear, test, set_all, clear_all, fill_words,
}

-- The digit that stands for bit `i`.
abbrev digit : List ℕ → ℕ → ℕ
digit ws i = bit (get_or ws (i / 64) 0) (i % 64)

-- The words are there for every bit.
pub word-lt : {b : Bitmap} (i : ℕ) → IsValid b → i < b.bit_count → i / 64 < length b.words
unfolding storage_words
word-lt i v h = omega arith

non_empty : (ws : List ℕ) (k : ℕ) → k < length ws → is_empty ws ≡ false
non_empty [] k h = absurd (omega arith)
non_empty (w ∷ ws) k h = refl

pub not_empty : {b : Bitmap} (i : ℕ) → IsValid b → i < b.bit_count → is_empty b.words ≡ false
not_empty {b} i v h = non_empty b.words (i / 64) (word-lt i v h)

accepts : {b : Bitmap} (i : ℕ) → IsValid b → i < b.bit_count → rejects b i ≡ false
accepts {b} i v h = ground (arith, non_empty b.words (i / 64) (word-lt i v h))

test_in : {b : Bitmap} (i : ℕ) → IsValid b → i < b.bit_count → test b i ≡ (digit b.words i == 1)
unfolding test
test_in {b} i v h =
    ground (arith, accepts i v h, test_mask_lem (get_or b.words (i / 64) 0) (i % 64))

pub test_out : (b : Bitmap) (i : ℕ) → b.bit_count ≤ i → test b i ≡ false
unfolding test
test_out b i h = ground arith

-- Words and digits determine the bit.
same_bit : (i j : ℕ) → i / 64 ≡ j / 64 → i % 64 ≡ j % 64 → i ≡ j
same_bit i j p q = omega arith

digit_other_word :
    (ws : List ℕ) (i j w : ℕ) → i / 64 ≢ j / 64 → digit (list_set ws (i / 64) w) j ≡ digit ws j
digit_other_word ws i j w h = ap (λ t. bit t (j % 64)) (get_or-set_ne ws (i / 64) (j / 64) w 0 h)

digit_same_word :
    (ws : List ℕ) (i j w : ℕ)
    → i / 64 < length ws
    → i / 64 ≡ j / 64
    → digit (list_set ws (i / 64) w) j ≡ bit w (j % 64)
digit_same_word ws i j w h e =
    ap (λ t. bit (get_or (list_set ws (i / 64) w) t 0) (j % 64)) (sym e)
    ∙ ap (λ t. bit t (j % 64)) (get_or-set_self ws (i / 64) w 0 h)

-- `w | (1 << k)` and `w & ~(1 << k)`, digit by digit.
bit_or_one : (w k j : ℕ) → (bit (bit_or w (2 ^ k)) j == 1) ≡ (if k == j then true else bit w j == 1)
bit_or_one w k j = ground (arith, bit-bit_or w (2 ^ k) j, bit-two-pow k j, bit-lt w j)

bit_and_others :
    (w k j : ℕ)
    → k < 64
    → j < 64
    → (bit (bit_and w (complement 64 (2 ^ k))) j == 1) ≡ (if k == j then false else bit w j == 1)
bit_and_others w k j hk hj = ground (
  arith,
  bit-bit_and w (complement 64 (2 ^ k)) j,
  bit-complement 64 (2 ^ k) j (two-pow-lt k 64 hk) hj,
  bit-two-pow k j,
  bit-lt w j,
)

pub bit_count-set : (b : Bitmap) (i : ℕ) → (set b i).bit_count ≡ b.bit_count
unfolding set
bit_count-set b i = ground arith

pub bit_count-clear : (b : Bitmap) (i : ℕ) → (clear b i).bit_count ≡ b.bit_count
unfolding clear
bit_count-clear b i = ground arith

pub set-IsValid : {b : Bitmap} (i : ℕ) → IsValid b → IsValid (set b i)
unfolding set
set-IsValid {b} i v =
    ground (arith, length-set b.words (i / 64) (bit_or (get_or b.words (i / 64) 0) (2 ^ (i % 64))))

pub clear-IsValid : {b : Bitmap} (i : ℕ) → IsValid b → IsValid (clear b i)
unfolding clear
clear-IsValid {b} i v = ground (
  arith,
  length-set b.words (i / 64) (bit_and (get_or b.words (i / 64) 0) (complement 64 (2 ^ (i % 64)))),
)

-- The digit of bit `j` after a write to the word of bit `i`.
module _ (ws : List ℕ) (i j w : ℕ) (room : i / 64 < length ws) where
  digit-write :
      (c : ℕ → Bool)
      → ((k : ℕ)
          → k < 64
          → (bit w k == 1) ≡ (if i % 64 == k then c k else bit (get_or ws (i / 64) 0) k == 1))
      → (digit (list_set ws (i / 64) w) j == 1) ≡ (if i == j then c (j % 64) else digit ws j == 1)
  digit-write c law = elim (ℕ_discrete (i / 64) (j / 64)) [
    | yes e ↦ ground (
      arith,
      digit_same_word ws i j w room e,
      law (j % 64) (omega arith),
      same_bit i j e,
      ap (λ t. bit (get_or ws t 0) (j % 64)) e,
    )
    | no ne ↦ ground (arith, digit_other_word ws i j w ne)
  ]

words-set :
    (b : Bitmap) (i : ℕ)
    → rejects b i ≡ false
    → (set b i).words
      ≡ list_set b.words (i / 64) (bit_or (get_or b.words (i / 64) 0) (2 ^ (i % 64)))
unfolding set
words-set b i e = ground arith

words-clear :
    (b : Bitmap) (i : ℕ)
    → rejects b i ≡ false
    → (clear b i).words
      ≡ list_set b.words
          (i / 64)
          (bit_and (get_or b.words (i / 64) 0) (complement 64 (2 ^ (i % 64))))
unfolding clear
words-clear b i e = ground arith

set_out : (b : Bitmap) (i : ℕ) → b.bit_count ≤ i → set b i ≡ b
unfolding set
set_out b i h = ground arith

clear_out : (b : Bitmap) (i : ℕ) → b.bit_count ≤ i → clear b i ≡ b
unfolding clear
clear_out b i h = ground arith

test-set_in :
    {b : Bitmap} (i j : ℕ)
    → IsValid b
    → i < b.bit_count
    → j < b.bit_count
    → test (set b i) j ≡ (if i == j then true else test b j)
test-set_in {b} i j v hi hj = ground (
  arith,
  bit_count-set b i,
  test_in {b = set b i} j (set-IsValid i v),
  test_in j v hj,
  words-set b i (accepts i v hi),
  digit-write b.words i j (bit_or (get_or b.words (i / 64) 0) (2 ^ (i % 64))) (word-lt i v hi)
      (λ k. true) (λ k h. bit_or_one (get_or b.words (i / 64) 0) (i % 64) k),
)

test-clear_in :
    {b : Bitmap} (i j : ℕ)
    → IsValid b
    → i < b.bit_count
    → j < b.bit_count
    → test (clear b i) j ≡ (if i == j then false else test b j)
test-clear_in {b} i j v hi hj = ground (
  arith,
  bit_count-clear b i,
  test_in {b = clear b i} j (clear-IsValid i v),
  test_in j v hj,
  words-clear b i (accepts i v hi),
  digit-write b.words i j (bit_and (get_or b.words (i / 64) 0) (complement 64 (2 ^ (i % 64))))
      (word-lt i v hi) (λ k. false)
      (λ k h. bit_and_others (get_or b.words (i / 64) 0) (i % 64) k (omega arith) h),
)

-- `bitmap_set` sets its bit, if the map has it, and leaves every other bit alone.
pub test-set :
    {b : Bitmap} (i j : ℕ)
    → IsValid b
    → test (set b i) j ≡ (if (i == j) && ltb i b.bit_count then true else test b j)
test-set {b} i j v = elim (dec_lt j b.bit_count) [
  | no out ↦ ground (arith, bit_count-set b i, test_out (set b i) j, test_out b j)
  | yes hj ↦ elim (dec_lt i b.bit_count) [
    | yes hi ↦ ground (arith, test-set_in i j v hi hj)
    | no out ↦ ground (arith, set_out b i)
  ]
]

-- `bitmap_clear` clears its bit and leaves every other bit alone.
pub test-clear :
    {b : Bitmap} (i j : ℕ) → IsValid b → test (clear b i) j ≡ (if i == j then false else test b j)
test-clear {b} i j v = elim (dec_lt j b.bit_count) [
  | no out ↦ ground (arith, bit_count-clear b i, test_out (clear b i) j, test_out b j)
  | yes hj ↦ elim (dec_lt i b.bit_count) [
    | yes hi ↦ ground (arith, test-clear_in i j v hi hj)
    | no out ↦ ground (arith, clear_out b i)
  ]
]

length-fill_words : (n i v : ℕ) (ws : List ℕ) → length (fill_words n i v ws) ≡ length ws
unfolding fill_words
length-fill_words zero i v ws = refl
length-fill_words (suc n) i v ws =
    length-fill_words n (i + 1) v (list_set ws i v) ∙ length-set ws i v

get_or-fill_words :
    (n i v k : ℕ) (ws : List ℕ)
    → i + n ≤ length ws
    → get_or (fill_words n i v ws) k 0 ≡ (if leb i k && ltb k (i + n) then v else get_or ws k 0)
unfolding fill_words
get_or-fill_words zero i v k ws h = ground arith
get_or-fill_words (suc n) i v k ws h = elim (ℕ_discrete i k) [
  | yes e ↦ ground (
    arith,
    get_or-fill_words n (i + 1) v k (list_set ws i v),
    length-set ws i v,
    get_or-set_self ws i v 0,
  )
  | no ne ↦ ground (
    arith,
    get_or-fill_words n (i + 1) v k (list_set ws i v),
    length-set ws i v,
    get_or-set_ne ws i k v 0 ne,
  )
]

pub bit_count-set_all : (b : Bitmap) → (set_all b).bit_count ≡ b.bit_count
unfolding set_all
bit_count-set_all b = ground arith

pub set_all-IsValid : {b : Bitmap} → IsValid b → IsValid (set_all b)
unfolding set_all
set_all-IsValid {b} v =
    ground (arith, length-fill_words (storage_words b.bit_count) 0 (2 ^ 64 - 1) b.words)

pub clear_all-IsValid : {b : Bitmap} → IsValid b → IsValid (clear_all b)
unfolding clear_all
clear_all-IsValid {b} v = ground (arith, length-fill_words (storage_words b.bit_count) 0 0 b.words)

ones_bit : (k : ℕ) → k < 64 → bit (2 ^ 64 - 1) k ≡ 1
unfolding complement
ones_bit k h = omega (arith, bit-complement 64 0 k (omega arith) h, zero-bit k)

-- A word written to every cell shows at each bit.
filled :
    {b : Bitmap} (i v : ℕ)
    → IsValid b
    → i < b.bit_count
    → digit (fill_words (storage_words b.bit_count) 0 v b.words) i ≡ bit v (i % 64)
unfolding storage_words
filled {b} i v valid h =
    ap (λ t. bit t (i % 64))
      (ground
        (arith, get_or-fill_words (storage_words b.bit_count) 0 v (i / 64) b.words (omega arith)))

-- After `bitmap_set_all` every bit of the map is set, and after `bitmap_clear_all` none is.
pub test-fill :
    {b : Bitmap} (i : ℕ)
    → IsValid b
    → (test (set_all b) i ≡ ltb i b.bit_count) × (test (clear_all b) i ≡ false)
unfolding set_all clear_all
test-fill {b} i v = elim (dec_lt i b.bit_count) [
  | yes h ↦ (set_case h, clear_case h)
  | no out ↦ (ground (arith, test_out (set_all b) i), ground (arith, test_out (clear_all b) i))
]
  where
    set_case : i < b.bit_count → test (set_all b) i ≡ ltb i b.bit_count
    set_case h = ground (
      arith,
      test_in {b = set_all b} i (set_all-IsValid v),
      non_empty b.words (i / 64) (word-lt i v h),
      filled i (2 ^ 64 - 1) v h,
      ones_bit (i % 64) (omega arith),
    )

    clear_case : i < b.bit_count → test (clear_all b) i ≡ false
    clear_case h = ground (
      arith,
      test_in {b = clear_all b} i (clear_all-IsValid v),
      non_empty b.words (i / 64) (word-lt i v h),
      filled i 0 v h,
      zero-bit (i % 64),
    )
