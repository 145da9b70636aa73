-- ===== src/Heap/Blocks.antt =====
-- What holds of the blocks of the heap, and how the steps of kernel/mm/heap.c on one block keep it.
use nv0ken_linux.Prelude.{
  ℕ, ◌+◌, ◌≤◌, ◌≡◌, refl, sym, ap, ◌∙◌, arith, Bool, true, false, ◌&&◌, List, [], ◌∷◌, ◌++◌,
  if◌then◌else◌, Bool-cases, inl, inr, subst, ◌⊎◌,
}
use nv0ken_linux.Heap.{Block, header, absorb, behind}

-- The blocks lie one behind the other from `a` to `e`.
abbrev pub Tiled : ℕ → List Block → ℕ → Type 0
Tiled a [] e = a ≡ e
Tiled a (b ∷ bs) e = (b.place ≡ a) × Tiled (a + header + b.size) bs e

-- No two free blocks are neighbours.
abbrev pub Apart : List Block → Type 0
Apart [] = Unit
Apart (b ∷ []) = Unit
Apart (b ∷ c ∷ bs) = ((b.free && c.free) ≡ false) × Apart (c ∷ bs)

-- The areas in use, as the pointer that `kmalloc` gave and the size.
abbrev pub allocated : List Block → List (ℕ × ℕ)
allocated [] = []
allocated (b ∷ bs) = if b.free then allocated bs else (b.place + header, b.size) ∷ allocated bs

abbrev pub used : List (ℕ × ℕ) → ℕ
used [] = 0
used (a ∷ areas) = a.1 + used areas

pub Tiled-end : (bs : List Block) {a e : ℕ} → Tiled a bs e → a ≤ e
Tiled-end [] t = omega arith
Tiled-end (b ∷ bs) t = let u = Tiled-end bs t.1 in omega arith

pub used-Tiled : (bs : List Block) (a : ℕ) {e : ℕ} → Tiled a bs e → a + used (allocated bs) ≤ e
used-Tiled [] a t = omega arith
used-Tiled (b ∷ bs) a {e} t =
    let u = used-Tiled bs (a + header + b.size) t.1 in
    elim (Bool-cases b.free) [ inl f ↦ rw f (omega arith) | inr f ↦ rw f (omega arith) ]

pub Apart-tail : (b : Block) (bs : List Block) → Apart (b ∷ bs) → Apart bs
Apart-tail b [] h = tt
Apart-tail b (c ∷ bs) h = h.1

pub Apart-busy : (b : Block) (bs : List Block) → b.free ≡ false → Apart bs → Apart (b ∷ bs)
Apart-busy b [] f h = tt
Apart-busy b (c ∷ bs) f h = (rw f refl, h)

abbrev pub merged : Block → Block → Block
merged b c = record b { size = b.size + (header + c.size) }

pub absorb-cases :
    (b c : Block) (cs : List Block)
    → ((c.free ≡ true) × (absorb b (c ∷ cs) ≡ merged b c ∷ cs))
      ⊎ ((c.free ≡ false) × (absorb b (c ∷ cs) ≡ b ∷ c ∷ cs))
unfolding absorb
absorb-cases b c cs = elim (Bool-cases c.free) [
  | inl f ↦ inl (f, ap (λ (t : Bool). if t then merged b c ∷ cs else b ∷ c ∷ cs) f)
  | inr f ↦ inr (f, ap (λ (t : Bool). if t then merged b c ∷ cs else b ∷ c ∷ cs) f)
]

-- `absorb` keeps the tiling, the areas in use and the distance of the free blocks.
pub absorb-Tiled :
    (b : Block) (bs : List Block) (a e : ℕ) → Tiled a (b ∷ bs) e → Tiled a (absorb b bs) e
unfolding absorb
absorb-Tiled b [] a e t = t
absorb-Tiled b (c ∷ cs) a e t = elim (absorb-cases b c cs) [
  | inl (f, eq) ↦ rw eq (t.0, subst (λ (x : ℕ). Tiled x cs e) (omega arith) t.1.1)
  | inr (f, eq) ↦ rw eq t
]

pub absorb-allocated :
    (b : Block) (bs : List Block) → b.free ≡ true → allocated (absorb b bs) ≡ allocated bs
unfolding absorb
absorb-allocated b [] h = rw h refl
absorb-allocated b (c ∷ cs) h = elim (absorb-cases b c cs) [
  | inl (f, eq) ↦ ap allocated eq ∙ rw (f, h) refl
  | inr (f, eq) ↦ ap allocated eq ∙ rw (f, h) refl
]

pub absorb-Apart : (b : Block) (bs : List Block) → Apart bs → Apart (absorb b bs)
unfolding absorb
absorb-Apart b [] h = tt
absorb-Apart b (c ∷ cs) h = elim (absorb-cases b c cs) [
  | inl (f, eq) ↦ subst Apart (sym eq) (joined f cs h)
  | inr (f, eq) ↦ subst Apart (sym eq) (ground arith, h)
]
  where
    joined : c.free ≡ true → (ds : List Block) → Apart (c ∷ ds) → Apart (merged b c ∷ ds)
    joined f [] k = tt
    joined f (d ∷ ds) k = (ground (arith, k.0, f), k.1)

-- `behind` is the reverse of the first list in front of the second.
pub behind_twice : (xs ys zs : List Block) → behind (behind xs ys) zs ≡ behind ys (xs ++ zs)
unfolding behind
behind_twice [] ys zs = refl
behind_twice (x ∷ xs) ys zs = behind_twice xs (x ∷ ys) zs

pub allocated-append : (xs ys : List Block) → allocated (xs ++ ys) ≡ allocated xs ++ allocated ys
allocated-append [] ys = refl
allocated-append (x ∷ xs) ys = ground (arith, allocated-append xs ys)

-- Blocks with the same areas, the same tiling in one place: `behind` carries it to the whole.
pub behind-allocated :
    (ps bs cs : List Block)
    → allocated bs ≡ allocated cs
    → allocated (behind ps bs) ≡ allocated (behind ps cs)
unfolding behind
behind-allocated [] bs cs h = h
behind-allocated (p ∷ ps) bs cs h = behind-allocated ps (p ∷ bs) (p ∷ cs) (ground (arith, h))

pub behind-Tiled :
    (ps bs cs : List Block) (e : ℕ)
    → ((a : ℕ) → Tiled a bs e → Tiled a cs e)
    → (a : ℕ) → Tiled a (behind ps bs) e
    → Tiled a (behind ps cs) e
unfolding behind
behind-Tiled [] bs cs e h = h
behind-Tiled (p ∷ ps) bs cs e h =
    behind-Tiled ps (p ∷ bs) (p ∷ cs) e (λ a t. (t.0, h (a + header + p.size) t.1))
