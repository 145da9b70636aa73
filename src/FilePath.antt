-- ===== src/FilePath.antt =====
-- kernel/fs/path.c: file paths. A path is the list of its bytes before the zero.
-- `path_normalize` is followed with the bytes written so far, the newest first; their number is `out`.
pub mod Words
pub mod Stack
pub mod Laws
pub mod Again
mod Tests
use mathlib.Core.List.{reverse}
use nv0ken_linux.Prelude.{
  ℕ, zero, suc, ◌+◌, ◌-◌, ◌≤◌, ◌<◌, ◌≡◌, Bool, true, false, not, ◌&&◌, ◌||◌, List, [], ◌∷◌, ◌++◌,
  ltb, leb, ◌==◌, if◌then◌else◌, is_empty, length, take, Option, none, some,
}

abbrev pub slash : ℕ
slash = b'/'

abbrev pub dot : ℕ
dot = b'.'

unfoldable pub is_absolute : List ℕ → Bool
is_absolute [] = false
is_absolute (c ∷ _) = c == slash

-- `while (input[in] == '/') ++in;`
unfoldable pub skip : List ℕ → List ℕ
skip [] = []
skip (c ∷ cs) = let rest = skip cs in if c == slash then rest else c ∷ cs

-- The bytes up to the next slash, and what follows them.
unfoldable pub word : List ℕ → List ℕ
word [] = []
word (c ∷ cs) = let rest = word cs in if c == slash then [] else c ∷ rest

unfoldable pub after_word : List ℕ → List ℕ
after_word [] = []
after_word (c ∷ cs) = let rest = after_word cs in if c == slash then c ∷ cs else rest

abbrev pub is_dot : List ℕ → Bool
is_dot (c ∷ []) = c == dot
is_dot _ = false

abbrev pub is_dot_dot : List ℕ → Bool
is_dot_dot (c ∷ d ∷ []) = c == dot && d == dot
is_dot_dot _ = false

-- `while (out > 1 && output[out - 1] != '/') --out;`
unfoldable pub unwind : List ℕ → List ℕ
unwind [] = []
unwind (c ∷ []) = c ∷ []
unwind (c ∷ d ∷ r) = let rest = unwind (d ∷ r) in if c == slash then c ∷ d ∷ r else rest

-- `if (out > 1) --out;`
abbrev pub shorter : List ℕ → List ℕ
shorter (c ∷ d ∷ r) = d ∷ r
shorter r = r

unfoldable pub back : List ℕ → List ℕ
back out = shorter (unwind out)

-- The component is added behind a separator where the path is longer than the root.
unfoldable pub push : ℕ → List ℕ → List ℕ → Option (List ℕ)
push size out w =
    let separator = if ltb 1 (length out) then 1 else 0 in
    if leb size (length out + separator) || ltb (size - length out - separator - 1) (length w)
    then none
    else some (reverse w ++ (if ltb 1 (length out) then slash ∷ out else out))

-- The outer loop, on fuel. Running out of fuel is none, like the result -1.
unfoldable pub normalize_from : ℕ → ℕ → List ℕ → List ℕ → Option (List ℕ)
normalize_from zero size input out = none
normalize_from (suc fuel) size [] out = some out
normalize_from (suc fuel) size (c ∷ cs) out =
    let i = skip (c ∷ cs) in
    let w = word i in
    let again = λ (o : List ℕ). normalize_from fuel size (after_word i) o in
    if is_empty w || is_dot w
    then again out
    else if is_dot_dot w
    then again (back out)
    else elim (push size out w) [ none ↦ none | some o ↦ again o ]

-- The string in `output` when the result is 0. A round takes at least one byte of the input.
unfoldable pub normalize : List ℕ → ℕ → Option (List ℕ)
normalize input size =
    if size == 0 then none else elim (normalize_from (length input + 1) size input (slash ∷ [])) [
      | none ↦ none
      | some out ↦ some (reverse out)
    ]

-- `path_basename`: the text behind the last slash that something follows. `base` is the best so far.
unfoldable pub base_from : List ℕ → List ℕ → List ℕ
base_from base [] = base
base_from base (c ∷ []) = base
base_from base (c ∷ d ∷ cs) = base_from (if c == slash then d ∷ cs else base) (d ∷ cs)

unfoldable pub basename : List ℕ → List ℕ
unfolding base_from
basename path = base_from path path

-- `path_next_component`: the length of the component, what is copied, and the rest of the path.
unfoldable pub next_component : List ℕ → ℕ → ℕ × List ℕ × List ℕ
next_component path size =
    let w = word (skip path) in
    if size == 0 then (0, [], path) else (length w, take (size - 1) w, after_word (skip path))
