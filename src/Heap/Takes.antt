-- ===== src/Heap/Takes.antt =====
-- kernel/mm/heap.c: the search of `kmalloc` for a block, and what `split_block` makes of it.
use nv0ken_linux.Prelude.{
  ℕ, ◌+◌, ◌-◌, ◌≤◌, ◌<◌, ◌≡◌, refl, sym, ap, ◌∙◌, arith, Bool, true, false, ◌&&◌, List, [], ◌∷◌,
  ◌++◌, ltb, leb, if◌then◌else◌, Option, none, some, Bool-cases, Option-cases, inl, inr, subst, ◌⊎◌,
}
use nv0ken_linux.Heap.{Block, header, absorb, split_block, take_first}
use nv0ken_linux.Heap.Blocks.{Tiled, Apart, allocated, Apart-tail, Apart-busy, absorb-cases}

-- The block that `kmalloc` hands out.
abbrev pub taken : Block → ℕ → Block
taken b size = record (split_block b size).0 { free = false }

-- The blocks that take its place.
abbrev pub replaced : Block → ℕ → List Block → List Block
replaced b size ys = taken b size ∷ (split_block b size).1 ++ ys

abbrev part : Block → ℕ → Block
part b size = record b { size = size }

abbrev remainder : Block → ℕ → Block
remainder b size = record {
  place = b.place + header + size;
  size = b.size - size - header;
  free = true;
}

pub split_block-cases :
    (b : Block) (size : ℕ)
    → (split_block b size ≡ (b, []))
      ⊎ ((size + header + 16 ≤ b.size)
          × (split_block b size ≡ (part b size, remainder b size ∷ [])))
unfolding split_block
split_block-cases b size = elim (Bool-cases (ltb b.size (size + header + 16))) [
  | inl f ↦ inl (ap choose f)
  | inr f ↦ inr (ground arith, ap choose f)
]
  where
    choose : Bool → Block × List Block
    choose t = if t then (b, []) else (part b size, remainder b size ∷ [])

abbrev swapped : Block × List Block → List Block → List Block
swapped s ys = (record s.0 { free = false }) ∷ s.1 ++ ys

pub taken-size :
    (b : Block) (size : ℕ)
    → size ≤ b.size
    → (size ≤ (taken b size).size) × ((taken b size).size ≤ b.size)
taken-size b size h = elim (split_block-cases b size) [
  | inl e ↦
      subst (λ (s : Block × List Block). (size ≤ s.0.size) × (s.0.size ≤ b.size)) (sym e)
        (h, omega arith)
  | inr (k, e) ↦
      subst (λ (s : Block × List Block). (size ≤ s.0.size) × (s.0.size ≤ b.size)) (sym e)
        (omega arith, h)
]

pub taken-place : (b : Block) (size : ℕ) → (taken b size).place ≡ b.place
taken-place b size = elim (split_block-cases b size) [
  | inl e ↦ ap (λ (s : Block × List Block). s.0.place) e
  | inr (k, e) ↦ ap (λ (s : Block × List Block). s.0.place) e
]

pub replaced-Tiled :
    (b : Block) (size : ℕ) (ys : List Block) (a e : ℕ)
    → size ≤ b.size
    → Tiled a (b ∷ ys) e
    → Tiled a (replaced b size ys) e
replaced-Tiled b size ys a e h t = elim (split_block-cases b size) [
  | inl s ↦ subst (λ (x : Block × List Block). Tiled a (swapped x ys) e) (sym s) t
  | inr (k, s) ↦
      subst (λ (x : Block × List Block). Tiled a (swapped x ys) e) (sym s)
        (t.0, (omega arith, subst (λ (x : ℕ). Tiled x ys e) (omega arith) t.1))
]

pub replaced-allocated :
    (b : Block) (size : ℕ) (ys : List Block)
    → allocated (replaced b size ys) ≡ (b.place + header, (taken b size).size) ∷ allocated ys
replaced-allocated b size ys = elim (split_block-cases b size) [
  | inl s ↦
      subst
        (λ (x : Block × List Block).
          allocated (swapped x ys) ≡ (b.place + header, x.0.size) ∷ allocated ys)
        (sym s) refl
  | inr (k, s) ↦
      subst
        (λ (x : Block × List Block).
          allocated (swapped x ys) ≡ (b.place + header, x.0.size) ∷ allocated ys)
        (sym s) refl
]

pub replaced-Apart :
    (b : Block) (size : ℕ) (ys : List Block)
    → b.free ≡ true
    → Apart (b ∷ ys)
    → Apart (replaced b size ys)
replaced-Apart b size ys f h = elim (split_block-cases b size) [
  | inl s ↦
      subst (λ (x : Block × List Block). Apart (swapped x ys)) (sym s)
        (Apart-busy (record b { free = false }) ys refl (Apart-tail b ys h))
  | inr (k, s) ↦
      subst (λ (x : Block × List Block). Apart (swapped x ys)) (sym s) (refl, renewed ys h)
]
  where
    renewed : (zs : List Block) → Apart (b ∷ zs) → Apart (remainder b size ∷ zs)
    renewed [] k = tt
    renewed (z ∷ zs) k = (ground (arith, k.0, f), k.1)

-- Freed at once, the block takes its remainder in again.
pub absorb-replaced :
    (b : Block) (size : ℕ) (ys : List Block)
    → b.free ≡ true
    → size ≤ b.size
    → Apart (b ∷ ys)
    → absorb (record (taken b size) { free = true }) ((split_block b size).1 ++ ys) ≡ b ∷ ys
unfolding absorb
absorb-replaced b size ys f h k = elim (split_block-cases b size) [
  | inl s ↦
      subst (λ (x : Block × List Block). absorb (record x.0 { free = true }) (x.1 ++ ys) ≡ b ∷ ys)
        (sym s) (alone ys k)
  | inr (l, s) ↦
      subst (λ (x : Block × List Block). absorb (record x.0 { free = true }) (x.1 ++ ys) ≡ b ∷ ys)
        (sym s) (whole l)
]
  where
    restored : (zs : List Block) → (record b { free = true }) ∷ zs ≡ b ∷ zs
    restored zs = ap (λ (t : Bool). (record b { free = t }) ∷ zs) (sym f)

    alone : (zs : List Block) → Apart (b ∷ zs) → absorb (record b { free = true }) zs ≡ b ∷ zs
    alone [] l = restored []
    alone (z ∷ zs) l = elim (absorb-cases (record b { free = true }) z zs) [
      | inl (g, eq) ↦ absurd (ground (arith, l.0, f, g))
      | inr (g, eq) ↦ eq ∙ restored (z ∷ zs)
    ]

    whole :
        size + header + 16 ≤ b.size
        → absorb (record b { size = size; free = true }) (remainder b size ∷ ys) ≡ b ∷ ys
    whole l = ap (λ (n : ℕ). (record b { size = n; free = true }) ∷ ys) full ∙ restored ys
      where
        full : size + (header + (b.size - size - header)) ≡ b.size
        full = omega arith

-- What the search takes, and where it stood.
abbrev pub Took : ℕ → List Block → Block → List Block → Type 0
Took size bs t cs =
    (xs : List Block) × (b : Block) × (ys : List Block) × (bs ≡ xs ++ b ∷ ys)
    × (b.free ≡ true)
    × (size ≤ b.size)
    × (t ≡ taken b size)
    × (cs ≡ xs ++ replaced b size ys)

-- The result of the search behind a block that is left.
abbrev keep : Block → Option (Block × List Block) → Option (Block × List Block)
keep b o = elim o [ none ↦ none | some (u, ds) ↦ some (u, b ∷ ds) ]

abbrev choose_first : ℕ → Block → List Block → Bool → Option (Block × List Block)
choose_first size b bs t =
    if t then some (taken b size, replaced b size bs) else keep b (take_first size bs)

pub take_first-some :
    (size : ℕ) (bs : List Block) (t : Block) (cs : List Block)
    → take_first size bs ≡ some (t, cs)
    → Took size bs t cs
unfolding take_first
take_first-some size [] t cs h = absurd cc
take_first-some size (b ∷ bs) t cs h = elim (Bool-cases (b.free && leb size b.size)) [
  | inl f ↦ here f (sym (ap (choose_first size b bs) f) ∙ h)
  | inr f ↦ elim (Option-cases (take_first size bs)) [
    | inl e ↦ absurd (cc (sym (ap (choose_first size b bs) f) ∙ h, e))
    | inr ((u, ds), e) ↦
        later u ds (sym (ap (choose_first size b bs) f) ∙ h) e (take_first-some size bs u ds e)
  ]
]
  where
    here :
        (b.free && leb size b.size) ≡ true
        → choose_first size b bs true ≡ some (t, cs)
        → Took size (b ∷ bs) t cs
    here f e = ([], b, bs, refl, ground arith, ground arith, cc, cc)

    later :
        (u : Block) (ds : List Block)
        → choose_first size b bs false ≡ some (t, cs)
        → take_first size bs ≡ some (u, ds)
        → Took size bs u ds
        → Took size (b ∷ bs) t cs
    later u ds e f (xs, c, ys, g, k, l, m, n) =
        (b ∷ xs, c, ys, ap (λ (l : List Block). b ∷ l) g, k, l, kept.0, kept.1)
      where
        kept : (t ≡ taken c size) × (cs ≡ b ∷ xs ++ replaced c size ys)
        kept = let q = sym (ap (keep b) f) ∙ e in (cc (q, m), cc (q, n))

-- A free block that is large enough.
abbrev pub Fits : ℕ → List Block → Type 0
Fits size bs =
    (xs : List Block) × (b : Block) × (ys : List Block) × (bs ≡ xs ++ b ∷ ys)
    × (b.free ≡ true)
    × (size ≤ b.size)

keep-none : (b : Block) (o : Option (Block × List Block)) → keep b o ≡ none → o ≡ none
keep-none b none h = refl
keep-none b (some x) h = absurd cc

pub take_first-none :
    (size : ℕ) (bs xs : List Block) (b : Block) (ys : List Block)
    → take_first size bs ≡ none
    → bs ≡ xs ++ b ∷ ys
    → b.free ≡ true
    → b.size < size
unfolding take_first
take_first-none size [] [] b ys h e f = absurd cc
take_first-none size [] (x ∷ xs) b ys h e f = absurd cc
take_first-none size (c ∷ bs) [] b ys h e f = elim (Bool-cases (c.free && leb size c.size)) [
  | inl g ↦ absurd (cc (sym (ap (choose_first size c bs) g) ∙ h))
  | inr g ↦
      small f (subst (λ (d : Block). (d.free && leb size d.size) ≡ false) {x = c} {y = b} same g)
]
  where
    same : c ≡ b
    same = cc

    small : b.free ≡ true → (b.free && leb size b.size) ≡ false → b.size < size
    small p q = ground arith
take_first-none size (c ∷ bs) (x ∷ xs) b ys h e f = elim (Bool-cases (c.free && leb size c.size)) [
  | inl g ↦ absurd (cc (sym (ap (choose_first size c bs) g) ∙ h))
  | inr g ↦
      take_first-none size bs xs b ys
        (keep-none c (take_first size bs) (sym (ap (choose_first size c bs) g) ∙ h)) tails f
]
  where
    tails : bs ≡ xs ++ b ∷ ys
    tails = cc
