-- ===== src/FilePath/Words.antt =====
-- The components of a path.

use nv0ken_linux.Prelude.{
  ℕ, ◌≤◌, ◌<◌, ◌≡◌, ◌≢◌, refl, ap, ◌∙◌, arith, List, [], ◌∷◌, ◌==◌, if◌then◌else◌, length,
  Bool-cases, inl, inr,
}
use nv0ken_linux.FilePath.{slash, skip, word, after_word}

-- A component in front of others, unless it is empty.
abbrev pub with_word : List ℕ → List (List ℕ) → List (List ℕ)
with_word [] ws = ws
with_word (c ∷ w) ws = (c ∷ w) ∷ ws

-- The component that the path begins with, and the components behind the next slash.
unfoldable pub split : List ℕ → List ℕ × List (List ℕ)
split [] = ([], [])
split (c ∷ cs) = let (w, ws) = split cs in if c == slash then ([], with_word w ws) else (c ∷ w, ws)

unfoldable pub components : List ℕ → List (List ℕ)
unfolding split
components path = with_word (split path).0 (split path).1

split-word : (path : List ℕ) → (split path).0 ≡ word path
unfolding split word
split-word [] = refl
split-word (c ∷ cs) = ground (arith, split-word cs)

split-after_word : (path : List ℕ) → (split path).1 ≡ components (after_word path)
unfolding split after_word components
split-after_word [] = refl
split-after_word (c ∷ cs) = elim (Bool-cases (c == slash)) [
  | inl e ↦ rw (e, split) (rw e refl)
  | inr e ↦ rw (e, split) (split-after_word cs)
]

pub components-skip : (path : List ℕ) → components (skip path) ≡ components path
unfolding components split skip
components-skip [] = refl
components-skip (c ∷ cs) = elim (Bool-cases (c == slash)) [
  | inl e ↦ rw e (components-skip cs)
  | inr e ↦ rw e (rw e refl)
]

pub components-split : (path : List ℕ) → components path ≡ with_word (split path).0 (split path).1
unfolding components
components-split path = refl

pub components-word :
    (path : List ℕ) → components path ≡ with_word (word path) (components (after_word path))
components-word path =
    components-split path
    ∙ ap (λ w. with_word w (split path).1) (split-word path)
    ∙ ap (with_word (word path)) (split-after_word path)

-- No byte of the list is a slash.
abbrev pub NoSlash : List ℕ → Type 0
NoSlash [] = Unit
NoSlash (c ∷ cs) = (c ≢ slash) × NoSlash cs

pub word-NoSlash : (path : List ℕ) → NoSlash (word path)
unfolding word
word-NoSlash [] = tt
word-NoSlash (c ∷ cs) = ground (arith, word-NoSlash cs)

-- A round makes the input shorter.
skip-le : (path : List ℕ) → length (skip path) ≤ length path
unfolding skip
skip-le [] = omega arith
skip-le (c ∷ cs) = ground (arith, skip-le cs)

after_word-le : (path : List ℕ) → length (after_word path) ≤ length path
unfolding after_word
after_word-le [] = omega arith
after_word-le (c ∷ cs) = ground (arith, after_word-le cs)

pub after_word-lt : (c : ℕ) (cs : List ℕ) → length (after_word (skip (c ∷ cs))) < length (c ∷ cs)
unfolding skip after_word
after_word-lt c cs = ground (arith, skip-le cs, after_word-le cs, after_word-le (skip cs))
