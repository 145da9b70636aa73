-- ===== src/Heap/RoundTrip.antt =====
-- kernel/mm/heap.c: what `kfree` does to the areas in use, also right after `kmalloc`.
use nv0ken_linux.Prelude.{
  ℕ, ◌+◌, ◌≤◌, ◌≡◌, refl, sym, ap, ◌∙◌, arith, true, false, not, List, [], ◌∷◌, ◌++◌, if◌then◌else◌,
  Option, none, some, subst,
}
use nv0ken_linux.Word.{add64, sub64}
use nv0ken_linux.Heap.{
  Block, Heap, header, align_size, split_block, kmalloc, absorb, behind, coalesce, locate, head_at,
  in_heap, kfree,
}
use nv0ken_linux.Heap.Blocks.{
  Tiled, Apart, Apart-tail, allocated, used, used-Tiled, allocated-append,
}
use nv0ken_linux.Heap.Frees.{
  coalesce-Tiled, coalesce-allocated, coalesce-Apart, coalesce_alone, locate_lem, place_lem, Found,
  allocated-split,
}
use nv0ken_linux.Heap.Takes.{absorb-replaced, Took}
use nv0ken_linux.Heap.Invariant.{
  IsValid, Tiled-replace, used-append, behind_again, Apart-middle, taken-Added,
}
use nv0ken_linux.Heap.Laws.{Given, kmalloc-Given, Given-IsValid}

-- `kfree` of a pointer to a block.
abbrev freed : Heap → List Block → Block → List Block → Heap
freed h before b after = record h {
  blocks = coalesce before (record b { free = true }) after;
  used_size = if b.free then h.used_size else sub64 h.used_size b.size;
}

kfree-freed :
    (base : ℕ) (h : Heap) (xs : List Block) (b : Block) (ys : List Block)
    → IsValid base h
    → h.blocks ≡ xs ++ b ∷ ys
    → kfree h (some (b.place + header)) ≡ some (freed h (behind xs []) b ys)
unfolding kfree
kfree-freed base h xs b ys (tiled, apart, counted, end) e =
    ap look address ∙ rw (within, found) refl
  where
    look : ℕ → Option Heap
    look a = if not (in_heap h a) then some h else elim (locate a [] h.blocks) [
      | none ↦ none
      | some (before, c, after) ↦ some (freed h before c after)
    ]

    stop : ℕ
    stop = base + header + h.total_size

    tiles : Tiled base (xs ++ b ∷ ys) stop
    tiles = subst (λ (l : List Block). Tiled base l stop) e tiled

    limits : (base ≤ b.place) × (b.place + header ≤ stop)
    limits = place_lem xs b ys base stop tiles

    address : sub64 (b.place + header) header ≡ b.place
    address = let l = limits in omega arith

    first : (zs : List Block) → Tiled base (zs ++ b ∷ ys) stop → head_at (zs ++ b ∷ ys) ≡ base
    first [] t = t.0
    first (z ∷ zs) t = t.0

    within : in_heap h b.place ≡ true
    within = let l = limits in let f = ap head_at e ∙ first xs tiles in ground arith

    found : locate b.place [] h.blocks ≡ some (behind xs [], b, ys)
    found = ap (locate b.place []) e ∙ locate_lem xs [] b ys base stop tiles

-- Freeing an area in use succeeds, takes that area and no other out of use, and keeps the heap
-- valid: its blocks still fill the memory, and free neighbours are merged.
pub kfree_lem :
    (base : ℕ) (h : Heap) (areas : List (ℕ × ℕ)) (p s : ℕ) (rest : List (ℕ × ℕ))
    → IsValid base h
    → allocated h.blocks ≡ areas ++ (p, s) ∷ rest
    → (k : Heap) × (kfree h (some p) ≡ some k)
      × IsValid base k
      × (allocated k.blocks ≡ areas ++ rest)
kfree_lem base h areas p s rest valid e = go valid (allocated-split h.blocks areas p s rest e)
  where
    go :
        IsValid base h
        → Found h.blocks areas p s rest
        → (k : Heap) × (kfree h (some p) ≡ some k)
          × IsValid base k
          × (allocated k.blocks ≡ areas ++ rest)
    go (tiled, apart, counted, end) (xs, b, ys, eb, f, ep, es, ex, ey) = (
      freed h (behind xs []) b ys,
      ap (λ (q : ℕ). kfree h (some q)) (sym ep)
          ∙ kfree-freed base h xs b ys (tiled, apart, counted, end) eb,
      (tiles, spaced, sum, end),
      left,
    )
      where
        stop : ℕ
        stop = base + header + h.total_size

        tiles : Tiled base (coalesce (behind xs []) (record b { free = true }) ys) stop
        tiles =
            coalesce-Tiled (behind xs []) (record b { free = true }) ys base stop
              (subst (λ (l : List Block). Tiled base l stop)
                (sym (behind_again xs ((record b { free = true }) ∷ ys)))
                (Tiled-replace xs (b ∷ ys) ((record b { free = true }) ∷ ys) base stop (λ x t. t)
                  (subst (λ (l : List Block). Tiled base l stop) eb tiled)))

        parts : Apart (b ∷ behind xs []) × Apart (b ∷ ys)
        parts = Apart-middle xs b ys (subst Apart eb apart)

        spaced : Apart (coalesce (behind xs []) (record b { free = true }) ys)
        spaced =
            coalesce-Apart (behind xs []) (record b { free = true }) ys
              (Apart-tail b (behind xs []) parts.0) (Apart-tail b ys parts.1)

        left : allocated (coalesce (behind xs []) (record b { free = true }) ys) ≡ areas ++ rest
        left =
            coalesce-allocated (behind xs []) (record b { free = true }) ys refl
            ∙ ap allocated (behind_again xs ys)
            ∙ allocated-append xs ys
            ∙ rw (ex, ey) refl

        sum :
            (if b.free then h.used_size else sub64 h.used_size b.size)
            ≡ used (allocated (coalesce (behind xs []) (record b { free = true }) ys))
        sum =
            let now = ap used left ∙ used-append areas rest in
            let then_ = ap used e ∙ used-append areas ((p, s) ∷ rest) in
            let bound = used-Tiled h.blocks base tiled in rw f (omega arith)

-- A pointer that was just given is freed again without a trace: the heap is the same as before.
pub kfree-kmalloc :
    (base : ℕ) (h : Heap) (n : ℕ) (k : Heap) (p : ℕ)
    → IsValid base h
    → kmalloc h n ≡ (k, some p)
    → kfree k (some p) ≡ some h
kfree-kmalloc base h n k p valid e = go valid (kmalloc-Given h n k p e)
  where
    go : IsValid base h → Given h n k p → kfree k (some p) ≡ some h
    go (tiled, apart, counted, end) (t, cs, (xs, b, ys, eb, f, l, et, ec), ek, ep) =
        ap (λ (m : Heap). kfree m (some p)) ek
        ∙ ap (λ (q : ℕ). kfree h1 (some q)) ep
        ∙ kfree-freed base h1 xs t spare valid1 (ec ∙ ap (λ (u : Block). xs ++ u ∷ spare) (sym et))
        ∙ ap some (same (freed h1 (behind xs []) t spare) h whole refl total)
      where
        spare : List Block
        spare = (split_block b (align_size n)).1 ++ ys

        h1 : Heap
        h1 = record h { blocks = cs; used_size = add64 h.used_size t.size }

        took : Took (align_size n) h.blocks t cs
        took = (xs, b, ys, eb, f, l, et, ec)

        valid1 : IsValid base h1
        valid1 =
            (Given-IsValid base h n h1 (t.place + header) (tiled, apart, counted, end)
              (t, cs, took, refl, refl)).0

        parts : Apart (b ∷ behind xs []) × Apart (b ∷ ys)
        parts = Apart-middle xs b ys (subst Apart eb apart)

        whole : coalesce (behind xs []) (record t { free = true }) spare ≡ h.blocks
        whole =
            coalesce_alone (behind xs []) b (record t { free = true }) spare (b ∷ ys) f parts.0
              (ap (λ (u : Block). absorb (record u { free = true }) spare) et
                ∙ absorb-replaced b (align_size n) ys f l parts.1)
            ∙ behind_again xs (b ∷ ys)
            ∙ sym eb

        busy : t.free ≡ false
        busy = ap (λ (u : Block). u.free) et

        total :
            (if t.free then add64 h.used_size t.size else sub64 (add64 h.used_size t.size) t.size)
            ≡ h.used_size
        total =
            let bound = used-Tiled cs base valid1.0 in
            let added = (taken-Added (align_size n) h.blocks t cs took).1 in rw busy (omega arith)

        same :
            (g m : Heap)
            → g.blocks ≡ m.blocks
            → g.total_size ≡ m.total_size
            → g.used_size ≡ m.used_size
            → g ≡ m
        same g m x y z =
            ap (λ (l : List Block). record g { blocks = l }) x
            ∙ ap (λ (c : ℕ). record g { blocks = m.blocks; total_size = c }) y
            ∙ ap (λ (c : ℕ). record m { used_size = c }) z
