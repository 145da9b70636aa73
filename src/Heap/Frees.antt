-- ===== src/Heap/Frees.antt =====
-- kernel/mm/heap.c: how `coalesce` merges a freed block with its neighbours, and the search for it.
use nv0ken_linux.Prelude.{
  ℕ, ◌+◌, ◌≤◌, ◌≡◌, refl, sym, ap, ◌∙◌, arith, Bool, true, false, ◌&&◌, List, [], ◌∷◌, ◌++◌,
  if◌then◌else◌, some, Bool-cases, inl, inr, subst, ◌⊎◌, eq→==, ne→==,
}
use nv0ken_linux.Heap.{Block, header, absorb, behind, coalesce, locate}
use nv0ken_linux.Heap.Blocks.{
  Tiled, Apart, allocated, Tiled-end, Apart-tail, Apart-busy, absorb-Tiled, absorb-allocated,
  absorb-Apart, behind-allocated, behind-Tiled,
}

coalesce-cases :
    (p : Block) (ps : List Block) (b : Block) (after : List Block)
    → ((p.free ≡ true) × (coalesce (p ∷ ps) b after ≡ coalesce ps p (absorb b after)))
      ⊎ ((p.free ≡ false) × (coalesce (p ∷ ps) b after ≡ behind (p ∷ ps) (absorb b after)))
unfolding coalesce
coalesce-cases p ps b after = elim (Bool-cases p.free) [
  | inl f ↦ inl (f, ap choose f)
  | inr f ↦ inr (f, ap choose f)
]
  where
    choose : Bool → List Block
    choose t = if t then coalesce ps p (absorb b after) else behind (p ∷ ps) (absorb b after)

pub coalesce-Tiled :
    (before : List Block) (b : Block) (after : List Block) (a e : ℕ)
    → Tiled a (behind before (b ∷ after)) e
    → Tiled a (coalesce before b after) e
unfolding coalesce behind
coalesce-Tiled [] b after a e t = absorb-Tiled b after a e t
coalesce-Tiled (p ∷ ps) b after a e t = elim (coalesce-cases p ps b after) [
  | inl (f, eq) ↦
      subst (λ (bs : List Block). Tiled a bs e) (sym eq)
        (coalesce-Tiled ps p (absorb b after) a e tiled)
  | inr (f, eq) ↦ subst (λ (bs : List Block). Tiled a bs e) (sym eq) tiled
]
  where
    tiled : Tiled a (behind (p ∷ ps) (absorb b after)) e
    tiled = behind-Tiled (p ∷ ps) (b ∷ after) (absorb b after) e (λ x. absorb-Tiled b after x e) a t

pub coalesce-allocated :
    (before : List Block) (b : Block) (after : List Block)
    → b.free ≡ true
    → allocated (coalesce before b after) ≡ allocated (behind before after)
unfolding coalesce behind
coalesce-allocated [] b after h = absorb-allocated b after h
coalesce-allocated (p ∷ ps) b after h = elim (coalesce-cases p ps b after) [
  | inl (f, eq) ↦
      ap allocated eq
      ∙ coalesce-allocated ps p (absorb b after) f
      ∙ behind-allocated ps (absorb b after) (p ∷ after) (absorb-allocated b after h ∙ rw f refl)
  | inr (f, eq) ↦
      ap allocated eq
      ∙ behind-allocated (p ∷ ps) (absorb b after) after (absorb-allocated b after h)
]

flip : (x y : Bool) → (x && y) ≡ false → (y && x) ≡ false
flip x y h = ground (arith, h)

pub behind-Apart :
    (ps : List Block) (b : Block) (bs : List Block)
    → Apart (b ∷ ps)
    → Apart (b ∷ bs)
    → Apart (behind ps (b ∷ bs))
unfolding behind
behind-Apart [] b bs h k = k
behind-Apart (p ∷ ps) b bs h k = behind-Apart ps p (b ∷ bs) h.1 (flip b.free p.free h.0, k)

pub Apart-behind :
    (ps : List Block) (b : Block) (bs : List Block)
    → Apart (behind ps (b ∷ bs))
    → Apart (b ∷ ps) × Apart (b ∷ bs)
unfolding behind
Apart-behind [] b bs h = (tt, h)
Apart-behind (p ∷ ps) b bs h =
    let k = Apart-behind ps p (b ∷ bs) h in ((flip p.free b.free k.1.0, k.0), k.1.1)

pub coalesce-Apart :
    (before : List Block) (b : Block) (after : List Block)
    → Apart before
    → Apart after
    → Apart (coalesce before b after)
unfolding coalesce behind
coalesce-Apart [] b after h k = absorb-Apart b after k
coalesce-Apart (p ∷ ps) b after h k = elim (coalesce-cases p ps b after) [
  | inl (f, eq) ↦
      subst Apart (sym eq)
        (coalesce-Apart ps p (absorb b after) (Apart-tail p ps h) (absorb-Apart b after k))
  | inr (f, eq) ↦ subst Apart (sym eq) (
      behind-Apart ps p (absorb b after) h
        (Apart-busy p (absorb b after) f (absorb-Apart b after k)))
]

-- Between busy neighbours nothing is merged to the front.
pub coalesce_alone :
    (before : List Block) (b t : Block) (after out : List Block)
    → b.free ≡ true
    → Apart (b ∷ before)
    → absorb t after ≡ out
    → coalesce before t after ≡ behind before out
unfolding coalesce behind
coalesce_alone [] b t after out f h k = k
coalesce_alone (p ∷ ps) b t after out f h k = elim (coalesce-cases p ps t after) [
  | inl (g, eq) ↦ absurd (ground (arith, h.0, f, g))
  | inr (g, eq) ↦ eq ∙ ap (behind (p ∷ ps)) k
]

pub place_lem :
    (xs : List Block) (b : Block) (ys : List Block) (a e : ℕ)
    → Tiled a (xs ++ b ∷ ys) e
    → (a ≤ b.place) × (b.place + header ≤ e)
place_lem [] b ys a e t = let u = Tiled-end ys t.1 in (omega arith, omega arith)
place_lem (x ∷ xs) b ys a e t =
    let u = place_lem xs b ys (a + header + x.size) e t.1 in (omega arith, omega arith)

-- The search for the header of a block finds it.
pub locate_lem :
    (xs acc : List Block) (b : Block) (ys : List Block) (a e : ℕ)
    → Tiled a (xs ++ b ∷ ys) e
    → locate b.place acc (xs ++ b ∷ ys) ≡ some (behind xs acc, b, ys)
unfolding locate behind
locate_lem [] acc b ys a e t = rw (eq→== b.place b.place refl) refl
locate_lem (x ∷ xs) acc b ys a e t =
    let u = place_lem xs b ys (a + header + x.size) e t.1 in
    rw
      (
        ne→== x.place b.place (λ q. omega arith),
        locate_lem xs (x ∷ acc) b ys (a + header + x.size) e t.1,
      )
      refl

-- The busy block of an area, between the blocks of the areas before it and behind it.
abbrev pub Found : List Block → List (ℕ × ℕ) → ℕ → ℕ → List (ℕ × ℕ) → Type 0
Found bs areas p s rest =
    (xs : List Block) × (b : Block) × (ys : List Block) × (bs ≡ xs ++ b ∷ ys)
    × (b.free ≡ false)
    × (b.place + header ≡ p)
    × (b.size ≡ s)
    × (allocated xs ≡ areas)
    × (allocated ys ≡ rest)

idle :
    (b : Block) (bs : List Block) (areas : List (ℕ × ℕ)) (p s : ℕ) (rest : List (ℕ × ℕ))
    → b.free ≡ true
    → Found bs areas p s rest
    → Found (b ∷ bs) areas p s rest
idle b bs areas p s rest f (xs, c, ys, e, g, pe, se, l, r) =
    (b ∷ xs, c, ys, ap (λ (l : List Block). b ∷ l) e, g, pe, se, rw f l, r)

busy :
    (b : Block) (bs : List Block) (areas : List (ℕ × ℕ)) (p s : ℕ) (rest : List (ℕ × ℕ))
    → b.free ≡ false
    → (b.place + header, b.size) ∷ allocated bs ≡ areas ++ (p, s) ∷ rest
    → ((qs : List (ℕ × ℕ)) → allocated bs ≡ qs ++ (p, s) ∷ rest → Found bs qs p s rest)
    → Found (b ∷ bs) areas p s rest
busy b bs [] p s rest f h again = ([], b, bs, refl, f, cc, cc, refl, cc)
busy b bs (q ∷ qs) p s rest f h again = add (again qs cc)
  where
    add : Found bs qs p s rest → Found (b ∷ bs) (q ∷ qs) p s rest
    add (xs, c, ys, e, g, pe, se, l, r) =
        (b ∷ xs, c, ys, ap (λ (l : List Block). b ∷ l) e, g, pe, se, rw f cc, r)

-- An area in use belongs to a busy block.
pub allocated-split :
    (bs : List Block) (areas : List (ℕ × ℕ)) (p s : ℕ) (rest : List (ℕ × ℕ))
    → allocated bs ≡ areas ++ (p, s) ∷ rest
    → Found bs areas p s rest
allocated-split [] [] p s rest h = absurd cc
allocated-split [] (q ∷ qs) p s rest h = absurd cc
allocated-split (b ∷ bs) areas p s rest h = elim (Bool-cases b.free) [
  | inl f ↦ idle b bs areas p s rest f (allocated-split bs areas p s rest (sym (rw f refl) ∙ h))
  | inr f ↦
      busy b bs areas p s rest f (sym (rw f refl) ∙ h) (λ qs e. allocated-split bs qs p s rest e)
]
