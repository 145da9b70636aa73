-- ===== src/FilePath/Again.antt =====
-- A normalised path is absolute, fits, and is its own normal form.
use mathlib.Core.List.{reverse, reverse-reverse, reverse-append, reverse-cons, append_assoc}
use nv0ken_linux.Prelude.{
  ℕ, ◌+◌, ◌≤◌, ◌<◌, ◌≡◌, refl, sym, ap, ◌∙◌, arith, Bool, true, false, List, [], ◌∷◌, ◌++◌, ltb,
  ◌==◌, if◌then◌else◌, subst, length, none, some, Bool-cases, Option-cases, inl, inr, ltb_false→le,
  ne→==,
}
use nv0ken_linux.FilePath.{slash, is_dot, is_dot_dot, is_absolute, normalize}
use nv0ken_linux.FilePath.Words.{NoSlash, with_word, components, components-split, split}
use nv0ken_linux.FilePath.Stack.{joined, AllClean, length-reverse}
use nv0ken_linux.FilePath.Laws.{parent, resolve, text_of, text_if, normalize-resolve}

split-word_only : (w : List ℕ) → NoSlash w → split w ≡ (w, [])
unfolding split
split-word_only [] ns = refl
split-word_only (c ∷ cs) ns =
    ap (λ r. if c == slash then ([], with_word r.0 r.1) else (c ∷ r.0, r.1))
      (split-word_only cs ns.1)
    ∙ ap (λ (b : Bool). if b then ([], with_word cs []) else (c ∷ cs, [])) (ne→== c slash ns.0)

with_word-append :
    (w : List ℕ) (ws vs : List (List ℕ)) → with_word w (ws ++ vs) ≡ with_word w ws ++ vs
with_word-append [] ws vs = refl
with_word-append (c ∷ w) ws vs = refl

-- A component added behind a slash is the last one.
split-append :
    (path w : List ℕ)
    → NoSlash w
    → 0 < length w
    → split (path ++ (slash ∷ w)) ≡ ((split path).0, (split path).1 ++ (w ∷ []))
unfolding split
split-append [] [] ns h = absurd (omega arith)
split-append [] (c ∷ w) ns h = ap (λ r. ([], with_word r.0 r.1)) (split-word_only (c ∷ w) ns)
split-append (c ∷ cs) w ns h =
    ap (λ r. if c == slash then ([], with_word r.0 r.1) else (c ∷ r.0, r.1))
      (split-append cs w ns h)
    ∙ elim (Bool-cases (c == slash)) [
      | inl e ↦ rw e (ap (λ t. ([], t)) (with_word-append (split cs).0 (split cs).1 (w ∷ [])))
      | inr e ↦ rw e refl
    ]

components-append :
    (path w : List ℕ)
    → NoSlash w
    → 0 < length w
    → components (path ++ (slash ∷ w)) ≡ components path ++ (w ∷ [])
components-append path w ns h =
    components-split (path ++ (slash ∷ w))
    ∙ ap (λ r. with_word r.0 r.1) (split-append path w ns h)
    ∙ with_word-append (split path).0 (split path).1 (w ∷ [])
    ∙ ap (λ t. t ++ (w ∷ [])) (sym (components-split path))

text_one : (w : List ℕ) → text_of (w ∷ []) ≡ [] ++ (slash ∷ w)
text_one w = reverse-append (reverse w) (slash ∷ []) ∙ ap (λ t. slash ∷ t) (reverse-reverse w)

text_more :
    (w v : List ℕ) (ws : List (List ℕ)) → text_of (w ∷ v ∷ ws) ≡ text_of (v ∷ ws) ++ (slash ∷ w)
text_more w v ws =
    reverse-append (reverse w) (slash ∷ joined (v ∷ ws))
    ∙ ap (λ t. t ++ reverse (reverse w)) (reverse-cons slash (joined (v ∷ ws)))
    ∙ ap (λ t. (text_of (v ∷ ws) ++ (slash ∷ [])) ++ t) (reverse-reverse w)
    ∙ append_assoc (text_of (v ∷ ws)) (slash ∷ []) w

components_root : components (text_of []) ≡ []
unfolding components split
components_root = refl

components-text_of : (ws : List (List ℕ)) → AllClean ws → components (text_of ws) ≡ reverse ws
components-text_of [] a = components_root
components-text_of (w ∷ []) a =
    ap components (text_one w)
    ∙ components-append [] w a.0.no_slash a.0.some_bytes
    ∙ (unfold components split in refl)
components-text_of (w ∷ v ∷ ws) a =
    ap components (text_more w v ws)
    ∙ components-append (text_of (v ∷ ws)) w a.0.no_slash a.0.some_bytes
    ∙ ap (λ t. t ++ (w ∷ [])) (components-text_of (v ∷ ws) a.1)
    ∙ sym (reverse-cons w (v ∷ ws))

-- Every path on the way to the stack fits.
abbrev AllFit : ℕ → List (List ℕ) → Type 0
AllFit size [] = Unit
AllFit size (w ∷ ws) = (ltb size (length (joined (w ∷ ws)) + 1) ≡ false) × AllFit size ws

record Resolved (size : ℕ) (ws : List (List ℕ)) : Type 0 where
  clean : AllClean ws
  fit : AllFit size ws

parent_lem : (size : ℕ) (ws : List (List ℕ)) → Resolved size ws → Resolved size (parent ws)
parent_lem size [] r = r
parent_lem size (w ∷ ws) r = record { clean = r.clean.1; fit = r.fit.1 }

-- A component of a path holds a byte, and no slash.
abbrev AllWords : List (List ℕ) → Type 0
AllWords [] = Unit
AllWords (w ∷ ws) = (0 < length w) × NoSlash w × AllWords ws

resolve-Resolved :
    (size : ℕ) (ws more : List (List ℕ)) {vs : List (List ℕ)}
    → AllWords more
    → Resolved size ws
    → resolve size ws more ≡ some vs
    → Resolved size vs
unfolding resolve
resolve-Resolved size ws [] words r e = subst (Resolved size) (some_inj e) r
  where
    some_inj : {a b : List (List ℕ)} → some a ≡ some b → a ≡ b
    some_inj h = cc
resolve-Resolved size ws (w ∷ more) words r e = elim (Bool-cases (is_dot w)) [
  | inl d ↦ resolve-Resolved size ws more words.2 r (rw d at e)
  | inr nd ↦ elim (Bool-cases (is_dot_dot w)) [
    | inl dd ↦
        resolve-Resolved size (parent ws) more words.2 (parent_lem size ws r) (rw (nd, dd) at e)
    | inr ndd ↦ elim (Bool-cases (ltb size (length (joined (w ∷ ws)) + 1))) [
      | inl long ↦ absurd (cc (rw (nd, ndd, long) at e))
      | inr fits ↦
          resolve-Resolved size (w ∷ ws) more words.2
            (record {
              clean = (
                record { some_bytes = words.0; no_slash = words.1; no_dot = nd; no_dot_dot = ndd },
                r.clean,
              );
              fit = (fits, r.fit);
            })
            (rw (nd, ndd, fits) at e)
    ]
  ]
]

split-NoSlash : (path : List ℕ) → NoSlash (split path).0 × AllWords (split path).1
unfolding split
split-NoSlash [] = (tt, tt)
split-NoSlash (c ∷ cs) =
    let (w, ws) = split-NoSlash cs in
    elim (Bool-cases (c == slash)) [
      | inl e ↦ rw e (tt, with_word-AllWords (split cs).0 (split cs).1 w ws)
      | inr e ↦ rw e ((ground arith, w), ws)
    ]
  where
    with_word-AllWords :
        (w : List ℕ) (ws : List (List ℕ)) → NoSlash w → AllWords ws → AllWords (with_word w ws)
    with_word-AllWords [] ws n a = a
    with_word-AllWords (x ∷ w) ws n a = (omega arith, n, a)

components-AllWords : (path : List ℕ) → AllWords (components path)
components-AllWords path =
    subst AllWords (sym (components-split path))
      (go (split path).0 (split path).1 (split-NoSlash path))
  where
    go : (w : List ℕ) (ws : List (List ℕ)) → NoSlash w × AllWords ws → AllWords (with_word w ws)
    go [] ws a = a.1
    go (x ∷ w) ws a = (omega arith, a.0, a.1)

-- Components added at the end are resolved last.
resolve-append :
    (size : ℕ) (ws more : List (List ℕ)) (w : List ℕ) {vs : List (List ℕ)}
    → resolve size ws more ≡ some vs
    → resolve size ws (more ++ (w ∷ [])) ≡ resolve size vs (w ∷ [])
unfolding resolve
resolve-append size ws [] w {vs} e = ap (λ s. resolve size s (w ∷ [])) (some_inj e)
  where
    some_inj : {a b : List (List ℕ)} → some a ≡ some b → a ≡ b
    some_inj h = cc
resolve-append size ws (v ∷ more) w {vs} e = elim (Bool-cases (is_dot v)) [
  | inl d ↦ rw d (resolve-append size ws more w (rw d at e))
  | inr nd ↦ elim (Bool-cases (is_dot_dot v)) [
    | inl dd ↦ rw (nd, dd) (resolve-append size (parent ws) more w (rw (nd, dd) at e))
    | inr ndd ↦ elim (Bool-cases (ltb size (length (joined (v ∷ ws)) + 1))) [
      | inl long ↦ absurd (cc (rw (nd, ndd, long) at e))
      | inr fits ↦
          rw (nd, ndd, fits) (resolve-append size (v ∷ ws) more w (rw (nd, ndd, fits) at e))
    ]
  ]
]

resolve-one :
    (size : ℕ) (w : List ℕ) (ws : List (List ℕ))
    → Resolved size (w ∷ ws)
    → resolve size ws (w ∷ []) ≡ some (w ∷ ws)
unfolding resolve
resolve-one size w ws r = rw (r.clean.0.no_dot, r.clean.0.no_dot_dot, r.fit.0) refl

-- The components of a resolved stack resolve to it.
resolve-reverse :
    (size : ℕ) (ws : List (List ℕ)) → Resolved size ws → resolve size [] (reverse ws) ≡ some ws
resolve-reverse size [] r = unfold resolve in refl
resolve-reverse size (w ∷ ws) r =
    ap (resolve size []) (reverse-cons w ws)
    ∙ resolve-append size [] (reverse ws) w (resolve-reverse size ws (parent_lem size (w ∷ ws) r))
    ∙ resolve-one size w ws r

absolute : (ws : List (List ℕ)) → is_absolute (text_of ws) ≡ true
unfolding is_absolute
absolute [] = refl
absolute (w ∷ []) = ap is_absolute (text_one w)
absolute (w ∷ v ∷ ws) =
    ap is_absolute (text_more w v ws) ∙ go (text_of (v ∷ ws)) (absolute (v ∷ ws))
  where
    go : (xs : List ℕ) → is_absolute xs ≡ true → is_absolute (xs ++ (slash ∷ w)) ≡ true
    go [] e = refl
    go (x ∷ xs) e = e

length-text_of :
    (size : ℕ) (ws : List (List ℕ)) → 2 ≤ size → AllFit size ws → length (text_of ws) + 1 ≤ size
length-text_of size [] h f = h
length-text_of size (w ∷ ws) h f =
    omega (
      arith,
      length-reverse (joined (w ∷ ws)),
      ltb_false→le size (length (joined (w ∷ ws)) + 1) f.0,
    )

no_buffer : (input : List ℕ) (size : ℕ) → (size == 0) ≡ true → normalize input size ≡ none
unfolding normalize
no_buffer input size z = rw z refl

-- The result of `path_normalize` is an absolute path, which fits with its zero byte into a buffer of
-- at least two bytes, and normalising it again gives the same path.
pub normalize_twice :
    (input : List ℕ) (size : ℕ) {p : List ℕ}
    → normalize input size ≡ some p
    → (is_absolute p ≡ true) × (2 ≤ size → length p + 1 ≤ size) × (normalize p size ≡ some p)
normalize_twice input size {p} e = elim (Bool-cases (size == 0)) [
  | inl z ↦ absurd (cc (empty z))
  | inr nz ↦ elim (Option-cases (resolve size [] (components input))) [
    | inl failed ↦ absurd (cc (sym (result nz ∙ ap text_if failed) ∙ e))
    | inr (ws, found) ↦
        (let r =
            resolve-Resolved size [] (components input) (components-AllWords input)
              (record { clean = tt; fit = tt }) found in
          subst
            (λ q.
              (is_absolute q ≡ true)
              × (2 ≤ size → length q + 1 ≤ size)
              × (normalize q size ≡ some q))
            (some_inj (sym (result nz ∙ ap text_if found) ∙ e))
            (
              absolute ws,
              λ h. length-text_of size ws h r.fit,
              normalize-resolve (text_of ws) size (ground arith)
                  ∙ ap (λ cs. text_if (resolve size [] cs)) (components-text_of ws r.clean)
                  ∙ ap text_if (resolve-reverse size ws r),
            ))
  ]
]
  where
    empty : (size == 0) ≡ true → normalize input size ≡ none
    empty z = no_buffer input size z

    result :
        (size == 0) ≡ false → normalize input size ≡ text_if (resolve size [] (components input))
    result nz = normalize-resolve input size (ground arith)

    some_inj : {a b : List ℕ} → some a ≡ some b → a ≡ b
    some_inj h = cc
