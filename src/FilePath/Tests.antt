-- ===== src/FilePath/Tests.antt =====
-- "/a/./b/../c" into a buffer of 16 bytes.
use nv0ken_linux.Prelude.{ℕ, ◌+◌, ◌≤◌, ◌≡◌, refl, arith, true, List, [], ◌∷◌, some, length}
use nv0ken_linux.FilePath.{
  normalize, is_absolute, normalize_from, skip, word, after_word, back, unwind, push, basename,
  next_component,
}
use nv0ken_linux.FilePath.Words.{components, split}
use nv0ken_linux.FilePath.Laws.{resolve, normalize-resolve}
use nv0ken_linux.FilePath.Again.{normalize_twice}

abbrev sample : List ℕ
sample = b'/' ∷ b'a' ∷ b'/' ∷ b'.' ∷ b'/' ∷ b'b' ∷ b'/' ∷ b'.' ∷ b'.' ∷ b'/' ∷ b'/' ∷ b'c' ∷ []

abbrev short : List ℕ
short = b'/' ∷ b'a' ∷ b'/' ∷ b'c' ∷ []

sample_runs : normalize sample 16 ≡ some short
unfolding normalize normalize_from skip word after_word back unwind push
sample_runs = refl

base_runs : basename short ≡ b'c' ∷ []
unfolding basename
base_runs = refl

next_runs : next_component short 2 ≡ (1, b'a' ∷ [], b'/' ∷ b'c' ∷ [])
unfolding next_component skip word after_word
next_runs = refl

normalize-resolve_example : normalize sample 16 ≡ some short
unfolding resolve components split
normalize-resolve_example = normalize-resolve sample 16 (omega arith)

normalize_twice_example :
    (is_absolute short ≡ true)
    × (2 ≤ 16 → length short + 1 ≤ 16)
    × (normalize short 16 ≡ some short)
normalize_twice_example = normalize_twice sample 16 sample_runs
