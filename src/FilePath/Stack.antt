-- ===== src/FilePath/Stack.antt =====
-- The path that is being written stands for a stack of components, the newest first.
use mathlib.Core.List.{reverse, reverse-cons}
use nv0ken_linux.Prelude.{
  ℕ, ◌+◌, ◌-◌, ◌<◌, ◌≡◌, refl, sym, ap, ◌∙◌, arith, Bool, false, ◌||◌, List, [], ◌∷◌, ◌++◌, ltb,
  leb, if◌then◌else◌, subst, length, none, some, length-append, lt→ltb,
}
use nv0ken_linux.FilePath.{slash, is_dot, is_dot_dot, unwind, shorter, back, push}
use nv0ken_linux.FilePath.Words.{NoSlash}

-- The bytes of a stack of components, the newest first.
abbrev pub joined : List (List ℕ) → List ℕ
joined [] = slash ∷ []
joined (w ∷ []) = reverse w ++ (slash ∷ [])
joined (w ∷ v ∷ ws) = reverse w ++ (slash ∷ joined (v ∷ ws))

-- A component that stays in a path.
pub record IsClean (w : List ℕ) : Type 0 where
  pub some_bytes : 0 < length w
  pub no_slash : NoSlash w
  pub no_dot : is_dot w ≡ false
  pub no_dot_dot : is_dot_dot w ≡ false

abbrev pub AllClean : List (List ℕ) → Type 0
AllClean [] = Unit
AllClean (w ∷ ws) = IsClean w × AllClean ws

NoSlash-append : (xs ys : List ℕ) → NoSlash xs → NoSlash ys → NoSlash (xs ++ ys)
NoSlash-append [] ys h k = k
NoSlash-append (x ∷ xs) ys h k = (h.0, NoSlash-append xs ys h.1 k)

NoSlash-reverse : (xs : List ℕ) → NoSlash xs → NoSlash (reverse xs)
NoSlash-reverse [] h = tt
NoSlash-reverse (x ∷ xs) h =
    subst NoSlash (sym (reverse-cons x xs))
      (NoSlash-append (reverse xs) (x ∷ []) (NoSlash-reverse xs h.1) (h.0, tt))

-- Unwinding takes a component off.
unwind-word : (ds r : List ℕ) → NoSlash ds → unwind (ds ++ (slash ∷ r)) ≡ unwind (slash ∷ r)
unfolding unwind
unwind-word [] r h = refl
unwind-word (d ∷ []) r h = ground arith
unwind-word (d ∷ e ∷ ds) r h = ground (arith, unwind-word (e ∷ ds) r h.1)

unwind-slash : (r : List ℕ) → unwind (slash ∷ r) ≡ slash ∷ r
unfolding unwind
unwind-slash [] = refl
unwind-slash (c ∷ r) = refl

pub length-reverse : (xs : List ℕ) → length (reverse xs) ≡ length xs
length-reverse [] = refl
length-reverse (x ∷ xs) =
    ap length (reverse-cons x xs)
    ∙ length-append (reverse xs) (x ∷ [])
    ∙ omega (arith, length-reverse xs)

length-joined : (v : List ℕ) (ws : List (List ℕ)) → 0 < length (joined (v ∷ ws))
length-joined v [] = omega (arith, length-append (reverse v) (slash ∷ []))
length-joined v (w ∷ ws) = omega (arith, length-append (reverse v) (slash ∷ joined (w ∷ ws)))

unwind-joined : (w ws : List ℕ) → NoSlash w → unwind (reverse w ++ (slash ∷ ws)) ≡ slash ∷ ws
unwind-joined w ws h = unwind-word (reverse w) ws (NoSlash-reverse w h) ∙ unwind-slash ws

-- A step back takes the newest component off, and stays at the root.
pub back-joined : (w : List ℕ) (ws : List (List ℕ)) → NoSlash w → back (joined (w ∷ ws)) ≡ joined ws
unfolding back
back-joined w [] h = ap shorter (unwind-joined w [] h)
back-joined w (v ∷ ws) h =
    ap shorter (unwind-joined w (joined (v ∷ ws)) h)
    ∙ shorter_lem (joined (v ∷ ws)) (length-joined v ws)
  where
    shorter_lem : (r : List ℕ) → 0 < length r → shorter (slash ∷ r) ≡ r
    shorter_lem [] k = absurd (omega arith)
    shorter_lem (x ∷ r) k = refl

pub back-root : back (joined []) ≡ joined []
unfolding back unwind
back-root = refl

-- The bytes that a path takes with a component more.
pub with_component :
    (w : List ℕ) (ws : List (List ℕ))
    → AllClean ws
    → reverse w ++ (if ltb 1 (length (joined ws)) then slash ∷ joined ws else joined ws)
      ≡ joined (w ∷ ws)
with_component w [] a = refl
with_component w (v ∷ ws) a =
    ap (λ (b : Bool). reverse w ++ (if b then slash ∷ joined (v ∷ ws) else joined (v ∷ ws)))
      (lt→ltb 1 (length (joined (v ∷ ws))) (more_than_root v ws a.0.some_bytes))
  where
    more_than_root : (u : List ℕ) (us : List (List ℕ)) → 0 < length u → 1 < length (joined (u ∷ us))
    more_than_root u [] k = omega (arith, length-append (reverse u) (slash ∷ []), length-reverse u)
    more_than_root u (x ∷ us) k =
        omega (arith, length-append (reverse u) (slash ∷ joined (x ∷ us)), length-reverse u)

pub push-joined :
    (size : ℕ) (w : List ℕ) (ws : List (List ℕ))
    → AllClean ws
    → 0 < length w
    → push size (joined ws) w
      ≡ (if ltb size (length (joined (w ∷ ws)) + 1) then none else some (joined (w ∷ ws)))
unfolding push
push-joined size w ws a h =
    ap (λ r. if refuses then none else some r) (with_component w ws a)
    ∙ ap (λ (b : Bool). if b then none else some (joined (w ∷ ws))) same
  where
    out : List ℕ
    out = joined ws

    refuses : Bool
    refuses =
        leb size (length out + (if ltb 1 (length out) then 1 else 0))
        || ltb (size - length out - (if ltb 1 (length out) then 1 else 0) - 1) (length w)

    size_of :
        length (joined (w ∷ ws)) ≡ length w + (if ltb 1 (length out) then 1 else 0) + length out
    size_of =
        sym (ap length (with_component w ws a))
        ∙ length-append (reverse w) (if ltb 1 (length out) then slash ∷ out else out)
        ∙ ground (arith, length-reverse w)

    same : refuses ≡ ltb size (length (joined (w ∷ ws)) + 1)
    same = ground (arith, size_of)
