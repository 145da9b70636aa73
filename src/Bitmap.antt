-- ===== src/Bitmap.antt =====
-- kernel/lib/bitmap.c: a map of bits over 64-bit words that the caller provides.
-- The words are the list of the storage's cells, and the NULL storage is the empty list. The object
-- itself exists: its only client passes the address of a static object. A result of type `long`
-- that the code sets to -1 is `none` here.
pub mod Laws
pub mod Search
pub mod Count
mod Tests
use Prim.Native.Nat.{bit_and, bit_or}
use nv0ken_linux.Prelude.{
  ℕ, zero, suc, ◌+◌, ◌-◌, ◌/◌, ◌%◌, ◌^◌, ◌≤◌, Bool, true, false, not, ◌||◌, List, Option, none,
  some, ltb, leb, ◌==◌, if◌then◌else◌, is_empty, get_or, replicate, set as list_set, length,
}
use nv0ken_linux.Word.{add64, sub64, complement, test_mask}

pub record Bitmap : Type 0 where
  pub words : List ℕ
  pub bit_count : ℕ

abbrev pub bits_per_word : ℕ
bits_per_word = 64

unfoldable pub storage_words : ℕ → ℕ
storage_words bit_count = sub64 (add64 bit_count bits_per_word) 1 / bits_per_word

unfoldable pub init : List ℕ → ℕ → Bitmap
init storage bit_count = record { words = storage; bit_count = bit_count }

-- `memset(words, 0, n * 8)` and the loop that stores UINT64_MAX: `n` rounds from cell `i`.
fill_words : ℕ → ℕ → ℕ → List ℕ → List ℕ
fill_words zero i value words = words
fill_words (suc n) i value words = fill_words n (i + 1) value (list_set words i value)

unfoldable pub clear_all : Bitmap → Bitmap
unfolding fill_words
clear_all b =
    if is_empty b.words
    then b
    else record b { words = fill_words (storage_words b.bit_count) 0 0 b.words }

unfoldable pub set_all : Bitmap → Bitmap
unfolding fill_words
set_all b =
    if is_empty b.words
    then b
    else record b { words = fill_words (storage_words b.bit_count) 0 (2 ^ 64 - 1) b.words }

-- The guard `!bitmap->words || bit >= bitmap->bit_count`.
abbrev pub rejects : Bitmap → ℕ → Bool
rejects b i = is_empty b.words || leb b.bit_count i

unfoldable pub set : Bitmap → ℕ → Bitmap
set b i = if rejects b i then b else record b {
  words =
      list_set b.words (i / bits_per_word)
        (bit_or (get_or b.words (i / bits_per_word) 0) (2 ^ (i % bits_per_word)));
}

unfoldable pub clear : Bitmap → ℕ → Bitmap
clear b i = if rejects b i then b else record b {
  words =
      list_set b.words (i / bits_per_word)
        (bit_and (get_or b.words (i / bits_per_word) 0) (complement 64 (2 ^ (i % bits_per_word))));
}

unfoldable pub test : Bitmap → ℕ → Bool
test b i =
    if rejects b i
    then false
    else test_mask (get_or b.words (i / bits_per_word) 0) (i % bits_per_word)

-- The loop of `bitmap_find_clear`, with `n` bits left from `i` on.
find_clear_from : Bitmap → ℕ → ℕ → Option ℕ
find_clear_from b zero i = none
find_clear_from b (suc n) i =
    let rest = find_clear_from b n (i + 1) in if not (test b i) then some i else rest

unfoldable pub find_clear : Bitmap → Option ℕ
unfolding find_clear_from
find_clear b = if is_empty b.words then none else find_clear_from b b.bit_count 0

-- The loop of `bitmap_find_clear_range`: `n` bits left from `i`, a run of `len` clear bits that
-- begins at `start` behind it.
find_range_from : Bitmap → ℕ → ℕ → ℕ → ℕ → ℕ → Option ℕ
find_range_from b count zero i start len = none
find_range_from b count (suc n) i start len =
    let start' = if len == 0 then i else start in
    let more = find_range_from b count n (i + 1) start' (len + 1) in
    let again = find_range_from b count n (i + 1) start 0 in
    if not (test b i) then if len + 1 == count then some start' else more else again

unfoldable pub find_clear_range : Bitmap → ℕ → Option ℕ
unfolding find_range_from
find_clear_range b count =
    if is_empty b.words || count == 0 || ltb b.bit_count count
    then none
    else find_range_from b count b.bit_count 0 0 0

-- The loop of `bitmap_count_set`.
count_from : Bitmap → ℕ → ℕ → ℕ → ℕ
count_from b zero i count = count
count_from b (suc n) i count = count_from b n (i + 1) (add64 count (if test b i then 1 else 0))

unfoldable pub count_set : Bitmap → ℕ
unfolding count_from
count_set b = if is_empty b.words then 0 else count_from b b.bit_count 0 0

-- The storage has the words that `bitmap_storage_words` asks for.
pub record IsValid (b : Bitmap) : Type 0 where
  pub room : storage_words b.bit_count ≤ length b.words
  pub size : b.bit_count + 64 ≤ 2 ^ 64
