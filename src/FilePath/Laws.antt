-- ===== src/FilePath/Laws.antt =====
-- Normalising is resolving the components against a stack.
use mathlib.Core.List.{reverse}
use nv0ken_linux.Prelude.{
  ℕ, zero, suc, ◌+◌, ◌<◌, ◌≡◌, refl, sym, ap, ◌∙◌, arith, Bool, ◌||◌, List, [], ◌∷◌, ltb,
  if◌then◌else◌, is_empty, length, Option, none, some, Bool-cases, inl, inr, ne→==,
}
use nv0ken_linux.FilePath.{
  slash, skip, word, after_word, is_dot, is_dot_dot, back, push, normalize_from, normalize,
}
use nv0ken_linux.FilePath.Words.{
  NoSlash, with_word, components, components-skip, components-word, word-NoSlash, after_word-lt,
}
use nv0ken_linux.FilePath.Stack.{joined, AllClean, back-joined, back-root, push-joined}

abbrev pub parent : List (List ℕ) → List (List ℕ)
parent [] = []
parent (w ∷ ws) = ws

-- The stack of components, the newest first: `.` stays, `..` takes one off, and any other is added,
-- as long as the path and its zero byte fit into `size`.
unfoldable pub resolve : ℕ → List (List ℕ) → List (List ℕ) → Option (List (List ℕ))
resolve size ws [] = some ws
resolve size ws (w ∷ more) =
    let again = λ (s : List (List ℕ)). resolve size s more in
    if is_dot w
    then again ws
    else if is_dot_dot w
    then again (parent ws)
    else if ltb size (length (joined (w ∷ ws)) + 1)
    then none
    else again (w ∷ ws)

-- The text of a stack.
abbrev pub text_of : List (List ℕ) → List ℕ
text_of ws = reverse (joined ws)

abbrev written : Option (List (List ℕ)) → Option (List ℕ)
written o = elim o [ none ↦ none | some ws ↦ some (joined ws) ]

-- A round of the loop, once it has its component.
abbrev round : (List ℕ → Option (List ℕ)) → ℕ → List ℕ → List ℕ → Option (List ℕ)
round again size w out =
    if is_empty w || is_dot w
    then again out
    else if is_dot_dot w
    then again (back out)
    else elim (push size out w) [ none ↦ none | some o ↦ again o ]

AllClean-parent : (ws : List (List ℕ)) → AllClean ws → AllClean (parent ws)
AllClean-parent [] a = tt
AllClean-parent (w ∷ ws) a = a.1

back-parent : (ws : List (List ℕ)) → AllClean ws → back (joined ws) ≡ joined (parent ws)
back-parent [] a = back-root
back-parent (w ∷ ws) a = back-joined w ws a.0.no_slash

module _ (again : List ℕ → Option (List ℕ)) (size : ℕ) (more : List (List ℕ))
    (ih : (ws : List (List ℕ))
      → AllClean ws
      → again (joined ws) ≡ written (resolve size ws more)) where
  round-resolve :
      (w : List ℕ) (ws : List (List ℕ))
      → NoSlash w
      → AllClean ws
      → round again size w (joined ws) ≡ written (resolve size ws (with_word w more))
  unfolding resolve
  round-resolve [] ws ns a = ih ws a
  round-resolve (c ∷ w) ws ns a = elim (Bool-cases (is_dot (c ∷ w))) [
    | inl d ↦ rw d (ih ws a)
    | inr nd ↦ rw nd (elim (Bool-cases (is_dot_dot (c ∷ w))) [
      | inl dd ↦ rw dd (ap again (back-parent ws a) ∙ ih (parent ws) (AllClean-parent ws a))
      | inr ndd ↦ rw ndd (
          ap (λ o. elim o as (λ x. Option (List ℕ)) [ none ↦ none | some o' ↦ again o' ])
            (push-joined size (c ∷ w) ws a (omega arith))
          ∙ elim (Bool-cases (ltb size (length (joined ((c ∷ w) ∷ ws)) + 1))) [
            | inl long ↦ rw long refl
            | inr fits ↦ rw fits (
                ih ((c ∷ w) ∷ ws) (
                  record { some_bytes = omega arith; no_slash = ns; no_dot = nd; no_dot_dot = ndd },
                  a,
                ))
          ])
    ])
  ]

normalize_round :
    (fuel size c : ℕ) (cs out : List ℕ)
    → normalize_from (suc fuel) size (c ∷ cs) out
      ≡ round
          (λ o. normalize_from fuel size (after_word (skip (c ∷ cs))) o)
          size
          (word (skip (c ∷ cs)))
          out
unfolding normalize_from
normalize_round fuel size c cs out = refl

-- The loop, with more fuel than there are bytes.
normalize_from-resolve :
    (fuel size : ℕ) (input : List ℕ) (ws : List (List ℕ))
    → length input < fuel
    → AllClean ws
    → normalize_from fuel size input (joined ws) ≡ written (resolve size ws (components input))
normalize_from-resolve zero size input ws h a = absurd (omega arith)
normalize_from-resolve (suc fuel) size [] ws h a = unfold normalize_from components resolve in refl
normalize_from-resolve (suc fuel) size (c ∷ cs) ws h a =
    let rest = after_word (skip (c ∷ cs)) in
    normalize_round fuel size c cs (joined ws)
    ∙ round-resolve (λ o. normalize_from fuel size rest o) size (components rest)
        (λ s clean.
          normalize_from-resolve fuel size rest s (omega (arith, after_word-lt c cs)) clean)
        (word (skip (c ∷ cs))) ws (word-NoSlash (skip (c ∷ cs))) a
    ∙ ap (λ more. written (resolve size ws more))
        (sym (components-word (skip (c ∷ cs))) ∙ components-skip (c ∷ cs))

abbrev pub text_if : Option (List (List ℕ)) → Option (List ℕ)
text_if o = elim o [ none ↦ none | some ws ↦ some (text_of ws) ]

-- `path_normalize` into a buffer that is not empty resolves the components of its input one by one
-- against a stack, and fails exactly when one of the paths on the way does not fit.
pub normalize-resolve :
    (input : List ℕ) (size : ℕ)
    → 0 < size
    → normalize input size ≡ text_if (resolve size [] (components input))
unfolding normalize
normalize-resolve input size h =
    ap
      (λ (b : Bool).
        if b then none else finish (normalize_from (length input + 1) size input (slash ∷ [])))
      (ne→== size 0 (λ e. omega arith))
    ∙ ap finish (normalize_from-resolve (length input + 1) size input [] (omega arith) tt)
    ∙ same (resolve size [] (components input))
  where
    finish : Option (List ℕ) → Option (List ℕ)
    finish o = elim o [ none ↦ none | some out ↦ some (reverse out) ]

    same : (o : Option (List (List ℕ))) → finish (written o) ≡ text_if o
    same none = refl
    same (some ws) = refl
