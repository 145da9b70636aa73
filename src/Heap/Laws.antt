-- ===== src/Heap/Laws.antt =====
-- kernel/mm/heap.c: what `kmalloc` does to the areas in use.
use nv0ken_linux.Prelude.{
  ℕ, ◌+◌, ◌-◌, ◌*◌, ◌/◌, ◌%◌, ◌^◌, ◌≤◌, ◌<◌, ◌≡◌, ◌↔◌, refl, sym, ap, ◌∙◌, arith, Bool, true, false,
  ◌||◌, List, [], ◌∷◌, ◌++◌, ltb, ◌==◌, if◌then◌else◌, Option, none, some, Bool-cases, Option-cases,
  inl, inr, subst,
}
use nv0ken_linux.Word.{add64}
use nv0ken_linux.Heap.{Block, Heap, header, align_size, take_first, kmalloc}
use nv0ken_linux.Heap.Blocks.{Tiled, Apart, allocated, used, used-Tiled}
use nv0ken_linux.Heap.Takes.{Took, take_first-some, take_first-none}
use nv0ken_linux.Heap.Invariant.{IsValid, taken-Tiled-Apart, Added, taken-Added}

-- `kmalloc` with a size that passes its first test.
abbrev pub after_search : Heap → Option (Block × List Block) → Heap × Option ℕ
after_search h o = elim o [
  | none ↦ (h, none)
  | some (t, cs) ↦
      (record h { blocks = cs; used_size = add64 h.used_size t.size }, some (t.place + header))
]

kmalloc-take_first :
    (h : Heap) (n : ℕ)
    → 0 < n
    → n ≤ 2 ^ 64 - 16
    → kmalloc h n ≡ after_search h (take_first (align_size n) h.blocks)
unfolding kmalloc
kmalloc-take_first h n p q =
    ap (λ (t : Bool). if t then (h, none) else after_search h (take_first (align_size n) h.blocks))
      (passes p q)
  where
    passes : 0 < n → n ≤ 2 ^ 64 - 16 → (n == 0 || ltb (2 ^ 64 - 16) n) ≡ false
    passes p q = ground arith

-- A call that gives a pointer has taken a block.
abbrev pub Given : Heap → ℕ → Heap → ℕ → Type 0
Given h n k p =
    (t : Block) × (cs : List Block) × (Took (align_size n) h.blocks t cs)
    × (k ≡ record h { blocks = cs; used_size = add64 h.used_size t.size })
    × (p ≡ t.place + header)

pub kmalloc-Given :
    (h : Heap) (n : ℕ) (k : Heap) (p : ℕ) → kmalloc h n ≡ (k, some p) → Given h n k p
unfolding kmalloc
kmalloc-Given h n k p e = elim (Bool-cases (n == 0 || ltb (2 ^ 64 - 16) n)) [
  | inl z ↦ absurd (cc (sym (ap choose z) ∙ e))
  | inr z ↦ elim (Option-cases (take_first (align_size n) h.blocks)) [
    | inl f ↦ absurd (cc (sym (ap choose z ∙ ap (after_search h) f) ∙ e))
    | inr ((t, cs), f) ↦
        given t cs (sym (ap choose z ∙ ap (after_search h) f) ∙ e)
          (take_first-some (align_size n) h.blocks t cs f)
  ]
]
  where
    choose : Bool → Heap × Option ℕ
    choose t = if t then (h, none) else after_search h (take_first (align_size n) h.blocks)

    given :
        (t : Block) (cs : List Block)
        → after_search h (some (t, cs)) ≡ (k, some p)
        → Took (align_size n) h.blocks t cs
        → Given h n k p
    given t cs q took = (t, cs, took, cc, cc)

pub Given-IsValid :
    (base : ℕ) (h : Heap) (n : ℕ) (k : Heap) (p : ℕ)
    → IsValid base h
    → Given h n k p
    → IsValid base k × Added (align_size n) (allocated h.blocks) p (allocated k.blocks)
Given-IsValid base h n k p (tiled, apart, counted, end) (t, cs, took, ek, ep) =
    subst
      (λ (m : Heap).
        IsValid base m × Added (align_size n) (allocated h.blocks) p (allocated m.blocks))
      (sym ek)
      (
        (fits.0, fits.1, sum, end),
        subst (λ (q : ℕ). Added (align_size n) (allocated h.blocks) q (allocated cs)) (sym ep)
            added.0,
      )
  where
    fits : Tiled base cs (base + header + h.total_size) × Apart cs
    fits =
        taken-Tiled-Apart (align_size n) h.blocks t cs base (base + header + h.total_size) tiled
          apart took

    added :
        Added (align_size n) (allocated h.blocks) (t.place + header) (allocated cs)
        × (used (allocated cs) ≡ used (allocated h.blocks) + t.size)
    added = taken-Added (align_size n) h.blocks t cs took

    sum : add64 h.used_size t.size ≡ used (allocated cs)
    sum = let bound = used-Tiled cs base fits.0 in let total = added.1 in omega arith

-- A pointer that `kmalloc` gives is that of one more area in use, which has at least the aligned
-- size; the other areas stay as they are, and the heap stays valid.
pub kmalloc-Added :
    (base : ℕ) (h : Heap) (n : ℕ) (k : Heap) (p : ℕ)
    → IsValid base h
    → kmalloc h n ≡ (k, some p)
    → IsValid base k × Added (align_size n) (allocated h.blocks) p (allocated k.blocks)
kmalloc-Added base h n k p valid e = Given-IsValid base h n k p valid (kmalloc-Given h n k p e)

-- For a size from 1 to 2^64 - 16, `kmalloc` gives no pointer and changes nothing exactly when every
-- free block is smaller than the aligned size.
pub kmalloc-none :
    (h : Heap) (n : ℕ)
    → 0 < n
    → n ≤ 2 ^ 64 - 16
    → (kmalloc h n ≡ (h, none)) ↔ (
        (xs : List Block) (b : Block) (ys : List Block)
        → h.blocks ≡ xs ++ b ∷ ys
        → b.free ≡ true
        → b.size < align_size n)
kmalloc-none h n p q = (
  (λ e xs b ys.
      take_first-none (align_size n) h.blocks xs b ys
        (missed (take_first (align_size n) h.blocks) (sym start ∙ e))),
  (λ small. start ∙ ap (after_search h) (never small)),
)
  where
    start : kmalloc h n ≡ after_search h (take_first (align_size n) h.blocks)
    start = kmalloc-take_first h n p q

    missed : (o : Option (Block × List Block)) → after_search h o ≡ (h, none) → o ≡ none
    missed none e = refl
    missed (some x) e = absurd cc

    never :
        ((xs : List Block) (b : Block) (ys : List Block)
          → h.blocks ≡ xs ++ b ∷ ys
          → b.free ≡ true
          → b.size < align_size n)
        → take_first (align_size n) h.blocks ≡ none
    never small = elim (Option-cases (take_first (align_size n) h.blocks)) [
      | inl e ↦ e
      | inr ((t, cs), e) ↦ absurd (impossible t cs (take_first-some (align_size n) h.blocks t cs e))
    ]
      where
        impossible : (t : Block) (cs : List Block) → Took (align_size n) h.blocks t cs → ⊥
        impossible t cs (xs, b, ys, eb, f, l, et, ec) = let s = small xs b ys eb f in omega arith

align_size_wraps : (n : ℕ) → n + 2 ^ 32 ≤ 2 ^ 64 - 16 → align_size (n + 2 ^ 32) ≡ align_size n
unfolding align_size
align_size_wraps n q = ap (λ (x : ℕ). x / 16 * 16) low
  where
    low : add64 (n + 2 ^ 32) 15 % 2 ^ 32 ≡ add64 n 15 % 2 ^ 32
    low = omega arith

-- Up to 2^32 - 16 the aligned size is the next multiple of 16.
pub align_size_lem :
    (n : ℕ)
    → n ≤ 2 ^ 32 - 16
    → (n ≤ align_size n) × (align_size n < n + 16) × (align_size n % 16 ≡ 0)
unfolding align_size
align_size_lem n q = (omega arith, omega arith, omega arith)

-- `align_size` loses the bits of a size above the lower 32: a request for 2^32 bytes more is served
-- like the smaller one, with the same block.
pub kmalloc_wraps :
    (h : Heap) (n : ℕ) → 0 < n → n + 2 ^ 32 ≤ 2 ^ 64 - 16 → kmalloc h (n + 2 ^ 32) ≡ kmalloc h n
kmalloc_wraps h n p q =
    kmalloc-take_first h (n + 2 ^ 32) (omega arith) q
    ∙ ap (λ (size : ℕ). after_search h (take_first size h.blocks)) (wrapped p q)
    ∙ sym (kmalloc-take_first h n p (omega arith))
  where
    wrapped : 0 < n → n + 2 ^ 32 ≤ 2 ^ 64 - 16 → align_size (n + 2 ^ 32) ≡ align_size n
    wrapped p q = align_size_wraps n q

-- Areas between two addresses, each a header's size behind the one before it.
abbrev pub Spaced : ℕ → List (ℕ × ℕ) → ℕ → Type 0
Spaced a [] e = a ≤ e
Spaced a (area ∷ areas) e = (a + header ≤ area.0) × Spaced (area.0 + area.1) areas e

Tiled-Spaced :
    (bs : List Block) (low a e : ℕ) → low ≤ a → Tiled a bs e → Spaced low (allocated bs) e
Tiled-Spaced [] low a e l t = omega arith
Tiled-Spaced (b ∷ bs) low a e l t = elim (Bool-cases b.free) [
  | inl f ↦ rw f (Tiled-Spaced bs low (a + header + b.size) e (omega arith) t.1)
  | inr f ↦ rw f (
    omega arith,
    Tiled-Spaced bs (b.place + header + b.size) (a + header + b.size) e (omega arith) t.1,
  )
]

-- In a valid heap the areas in use lie inside the memory of the heap, and no two overlap: there is
-- room for a header before each.
pub IsValid-Spaced :
    (base : ℕ) (h : Heap)
    → IsValid base h
    → Spaced base (allocated h.blocks) (base + header + h.total_size)
IsValid-Spaced base h valid =
    Tiled-Spaced h.blocks base base (base + header + h.total_size) (omega arith) valid.0
