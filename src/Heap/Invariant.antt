-- ===== src/Heap/Invariant.antt =====
-- kernel/mm/heap.c: the invariant of the heap, and that taking a block keeps it.
use nv0ken_linux.Prelude.{
  ℕ, ◌+◌, ◌^◌, ◌≤◌, ◌<◌, ◌≡◌, refl, sym, ap, ◌∙◌, arith, false, List, [], ◌∷◌, ◌++◌, leb, subst,
  ne→==,
}
use nv0ken_linux.Heap.{Block, Heap, header, init, split_block, behind}
use nv0ken_linux.Heap.Blocks.{Tiled, Apart, allocated, used, allocated-append, behind_twice}
use nv0ken_linux.Heap.Frees.{behind-Apart, Apart-behind}
use nv0ken_linux.Heap.Takes.{
  taken, replaced, taken-size, taken-place, replaced-Tiled, replaced-allocated, replaced-Apart,
  Took,
}

-- The heap whose memory begins at `base`: the blocks fill it, no two free ones are neighbours, and
-- `used_size` counts the areas in use. The memory does not reach the end of the address space.
abbrev pub IsValid : ℕ → Heap → Type 0
IsValid base h =
    Tiled base h.blocks (base + header + h.total_size)
    × Apart h.blocks
    × (h.used_size ≡ used (allocated h.blocks))
    × (base + header + h.total_size < 2 ^ 64)

pub init-IsValid :
    (base size : ℕ)
    → 0 < base
    → header < size
    → base + size < 2 ^ 64
    → IsValid base (init base size)
unfolding init
init-IsValid base size b s e =
    rw (ne→== base 0 (λ q. omega arith), large) ((refl, omega arith), tt, refl, omega arith)
  where
    large : leb size header ≡ false
    large = ground arith

pub used-append : (xs ys : List (ℕ × ℕ)) → used (xs ++ ys) ≡ used xs + used ys
used-append [] ys = omega arith
used-append (x ∷ xs) ys = let e = used-append xs ys in omega arith

-- The pieces of a list of blocks round one of them.
pub Tiled-replace :
    (xs : List Block) (bs cs : List Block) (a e : ℕ)
    → ((x : ℕ) → Tiled x bs e → Tiled x cs e)
    → Tiled a (xs ++ bs) e
    → Tiled a (xs ++ cs) e
Tiled-replace [] bs cs a e f t = f a t
Tiled-replace (x ∷ xs) bs cs a e f t = (t.0, Tiled-replace xs bs cs (a + header + x.size) e f t.1)

-- `xs ++ ys` is what `behind` makes of the reverse of `xs`.
pub behind_again : (xs ys : List Block) → behind (behind xs []) ys ≡ xs ++ ys
unfolding behind
behind_again xs ys = behind_twice xs [] ys

pub Apart-middle :
    (xs : List Block) (b : Block) (ys : List Block)
    → Apart (xs ++ b ∷ ys)
    → Apart (b ∷ behind xs []) × Apart (b ∷ ys)
Apart-middle xs b ys h =
    Apart-behind (behind xs []) b ys (subst Apart (sym (behind_again xs (b ∷ ys))) h)

Apart-join :
    (xs : List Block) (b : Block) (ys : List Block)
    → Apart (b ∷ behind xs [])
    → Apart (b ∷ ys)
    → Apart (xs ++ b ∷ ys)
Apart-join xs b ys h k =
    subst Apart (behind_again xs (b ∷ ys)) (behind-Apart (behind xs []) b ys h k)

busy_before : (b c : Block) (ps : List Block) → c.free ≡ false → Apart (b ∷ ps) → Apart (c ∷ ps)
busy_before b c [] f h = tt
busy_before b c (p ∷ ps) f h = (rw f refl, h.1)

-- What `kmalloc` makes of a valid list of blocks.
pub taken-Tiled-Apart :
    (size : ℕ) (bs : List Block) (t : Block) (cs : List Block) (a e : ℕ)
    → Tiled a bs e
    → Apart bs
    → Took size bs t cs
    → Tiled a cs e × Apart cs
taken-Tiled-Apart size bs t cs a e h k (xs, b, ys, eb, f, l, et, ec) = (
  subst (λ (l : List Block). Tiled a l e) (sym ec)
      (Tiled-replace xs (b ∷ ys) (replaced b size ys) a e (λ x. replaced-Tiled b size ys x e l)
        (subst (λ (l : List Block). Tiled a l e) eb h)),
  subst Apart (sym ec) (
      Apart-join xs (taken b size) ((split_block b size).1 ++ ys)
        (busy_before b (taken b size) (behind xs []) refl parts.0)
        (replaced-Apart b size ys f parts.1)),
)
  where
    parts : Apart (b ∷ behind xs []) × Apart (b ∷ ys)
    parts = Apart-middle xs b ys (subst Apart eb k)

-- One area more: in front of it and behind it the areas are those of before.
abbrev pub Added : ℕ → List (ℕ × ℕ) → ℕ → List (ℕ × ℕ) → Type 0
Added size areas p more =
    (before : List (ℕ × ℕ)) × (after : List (ℕ × ℕ)) × (s : ℕ) × (size ≤ s)
    × (areas ≡ before ++ after)
    × (more ≡ before ++ (p, s) ∷ after)

pub taken-Added :
    (size : ℕ) (bs : List Block) (t : Block) (cs : List Block)
    → Took size bs t cs
    → Added size (allocated bs) (t.place + header) (allocated cs)
      × (used (allocated cs) ≡ used (allocated bs) + t.size)
taken-Added size bs t cs (xs, b, ys, eb, f, l, et, ec) =
    ((allocated xs, allocated ys, t.size, large, old, new), counted)
  where
    large : size ≤ t.size
    large = subst (λ (u : Block). size ≤ u.size) (sym et) (taken-size b size l).0

    old : allocated bs ≡ allocated xs ++ allocated ys
    old =
        ap allocated eb
        ∙ allocated-append xs (b ∷ ys)
        ∙ ap (λ (l : List (ℕ × ℕ)). allocated xs ++ l) (rw f refl)

    area : ◌≡◌ {A = ℕ × ℕ} (b.place + header, (taken b size).size) (t.place + header, t.size)
    area =
        ap (λ (n : ℕ). (n + header, (taken b size).size)) (sym (taken-place b size))
        ∙ ap (λ (u : Block). (u.place + header, u.size)) (sym et)

    new : allocated cs ≡ allocated xs ++ (t.place + header, t.size) ∷ allocated ys
    new =
        ap allocated ec
        ∙ allocated-append xs (replaced b size ys)
        ∙ ap (λ (l : List (ℕ × ℕ)). allocated xs ++ l)
            (replaced-allocated b size ys ∙ ap (λ (a : ℕ × ℕ). a ∷ allocated ys) area)

    counted : used (allocated cs) ≡ used (allocated bs) + t.size
    counted =
        let before = ap used old ∙ used-append (allocated xs) (allocated ys) in
        let after =
          ap used new ∙ used-append (allocated xs) ((t.place + header, t.size) ∷ allocated ys) in
        omega arith
