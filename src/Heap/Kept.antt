-- ===== src/Heap/Kept.antt =====
-- kernel/mm/heap.c: what the calls leave as it is.
use nv0ken_linux.Prelude.{
  ℕ, ◌+◌, ◌-◌, ◌*◌, ◌/◌, ◌%◌, ◌^◌, ◌<◌, ◌≡◌, ◌⊎◌, refl, sym, ap, ◌∙◌, arith, Bool, true, not, ◌&&◌,
  ◌||◌, List, [], ltb, ◌==◌, if◌then◌else◌, Option, none, some, Bool-cases, inl, inr,
}
use nv0ken_linux.Word.{sub64}
use nv0ken_linux.Bytes.{Memory, memset}
use nv0ken_linux.Heap.{
  Block, Heap, header, init, align_size, take_first, kmalloc, kcalloc, kfree, in_heap, locate,
  coalesce,
}
use nv0ken_linux.Heap.Laws.{after_search}

pub init-total_size :
    (base size : ℕ) → 0 < base → header < size → (init base size).total_size + header ≡ size
unfolding init
init-total_size base size b s = ground arith

pub kmalloc-total_size : (h : Heap) (n : ℕ) → (kmalloc h n).0.total_size ≡ h.total_size
unfolding kmalloc
kmalloc-total_size h n = elim (Bool-cases (n == 0 || ltb (2 ^ 64 - 16) n)) [
  | inl z ↦ ap choose z
  | inr z ↦ ap choose z ∙ searched (take_first (align_size n) h.blocks)
]
  where
    choose : Bool → ℕ
    choose t =
        (if t then (h, none) else after_search h (take_first (align_size n) h.blocks)).0.total_size

    searched : (o : Option (Block × List Block)) → (after_search h o).0.total_size ≡ h.total_size
    searched none = refl
    searched (some (t, cs)) = refl

pub kmalloc-unchanged : (h : Heap) (n : ℕ) → (kmalloc h n).1 ≡ none → (kmalloc h n).0 ≡ h
unfolding kmalloc
kmalloc-unchanged h n e = elim (Bool-cases (n == 0 || ltb (2 ^ 64 - 16) n)) [
  | inl z ↦ ap (λ (t : Bool). (choose t).0) z
  | inr z ↦
      ap (λ (t : Bool). (choose t).0) z
      ∙ searched (take_first (align_size n) h.blocks) (sym (ap (λ (t : Bool). (choose t).1) z) ∙ e)
]
  where
    choose : Bool → Heap × Option ℕ
    choose t = if t then (h, none) else after_search h (take_first (align_size n) h.blocks)

    searched :
        (o : Option (Block × List Block)) → (after_search h o).1 ≡ none → (after_search h o).0 ≡ h
    searched none e = refl
    searched (some (t, cs)) e = absurd (cc)

pub kcalloc-cases :
    (h : Heap) (m : Memory) (count n : ℕ)
    → ((kcalloc h m count n).0 ≡ h)
      ⊎ ((kcalloc h m count n).0 ≡ (kmalloc h ((count * n) % 2 ^ 64)).0)
unfolding kcalloc
kcalloc-cases h m count n = elim (Bool-cases (not (count == 0) && ltb ((2 ^ 64 - 1) / count) n)) [
  | inl z ↦ inl (ap choose z)
  | inr z ↦ inr (ap choose z ∙ cleared_or (kmalloc h total).1)
]
  where
    total : ℕ
    total = (count * n) % 2 ^ 64

    zeroed : Option ℕ → Heap × Memory × Option ℕ
    zeroed o = elim o [
      | none ↦ ((kmalloc h total).0, m, none)
      | some p ↦ ((kmalloc h total).0, memset p 0 total m, some p)
    ]

    choose : Bool → Heap
    choose t = (if t then (h, m, none) else zeroed (kmalloc h total).1).0

    cleared_or : (o : Option ℕ) → (zeroed o).0 ≡ (kmalloc h total).0
    cleared_or none = refl
    cleared_or (some p) = refl

pub kfree-total_size :
    (h k : Heap) (p : ℕ) → kfree h (some p) ≡ some k → k.total_size ≡ h.total_size
unfolding kfree
kfree-total_size h k p e = elim (Bool-cases (not (in_heap h (sub64 p header)))) [
  | inl z ↦ kept_by (sym (ap choose z) ∙ e)
  | inr z ↦ freed_by (locate (sub64 p header) [] h.blocks) (sym (ap choose z) ∙ e)
]
  where
    free_at : Option (List Block × Block × List Block) → Option Heap
    free_at o = elim o [
      | none ↦ none
      | some (before, b, after) ↦ some (record h {
        blocks = coalesce before (record b { free = true }) after;
        used_size = if b.free then h.used_size else sub64 h.used_size b.size;
      })
    ]

    choose : Bool → Option Heap
    choose t = if t then some h else free_at (locate (sub64 p header) [] h.blocks)

    total_of : Option Heap → ℕ
    total_of none = h.total_size
    total_of (some x) = x.total_size

    kept_by : some h ≡ some k → k.total_size ≡ h.total_size
    kept_by q = sym (ap total_of q)

    freed_by :
        (o : Option (List Block × Block × List Block))
        → free_at o ≡ some k
        → k.total_size ≡ h.total_size
    freed_by none q = absurd (cc)
    freed_by (some (before, b, after)) q = sym (ap total_of q)
