-- ===== src/Bitmap/Tests.antt =====
-- Runs of the bitmap, and its theorems at a map of 70 bits over two words.

use nv0ken_linux.Prelude.{◌≡◌, refl, arith, true, false, [], ◌∷◌, some, none}
use nv0ken_linux.Word.{test_mask}
use nv0ken_linux.Bitmap.{
  Bitmap, IsValid, storage_words, test, set_all, clear_all, find_clear, find_clear_range, count_set,
}
use nv0ken_linux.Bitmap.Laws.{test-fill}

-- Bits 0, 1, 3 and 65 are set.
abbrev sample : Bitmap
sample = record { words = 11 ∷ 2 ∷ []; bit_count = 70 }

sample-IsValid : IsValid sample
unfolding storage_words
sample-IsValid = omega arith

runs :
    (find_clear sample ≡ some 2)
    × (find_clear_range sample 2 ≡ some 4)
    × (find_clear_range sample 62 ≡ none)
    × (count_set sample ≡ 4)
    × (count_set (set_all sample) ≡ 70)
    × (find_clear (set_all sample) ≡ none)
    × (find_clear (clear_all sample) ≡ some 0)
unfolding find_clear find_clear_range count_set set_all clear_all storage_words test test_mask
runs = (refl, refl, refl, refl, refl, refl, refl)

test-fill_example : (test (set_all sample) 69 ≡ true) × (test (clear_all sample) 69 ≡ false)
test-fill_example = test-fill 69 sample-IsValid
