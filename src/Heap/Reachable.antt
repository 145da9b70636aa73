-- ===== src/Heap/Reachable.antt =====
-- kernel/mm/heap.c: the heaps that a program can bring about by calls, whatever their order.
use nv0ken_linux.Prelude.{ℕ, ◌+◌, ◌≡◌, List, ◌∷◌, ◌++◌, Option, some}
use nv0ken_linux.Bytes.{Memory}
use nv0ken_linux.Heap.{Heap, header, init, kmalloc, kcalloc, kfree, krealloc}
use nv0ken_linux.Heap.Blocks.{allocated}
use nv0ken_linux.Heap.Invariant.{IsValid}

-- `heap_init`, then any calls of `kmalloc`, `kcalloc`, `kfree` and `krealloc`; what is freed or
-- resized is in use. A call of `krealloc` with NULL is one of `kmalloc`.
pub data Reachable (base size : ℕ) : Heap → Type 0 where
  started : Reachable base size (init base size)
  given : {h : Heap} → Reachable base size h → (n : ℕ) → Reachable base size (kmalloc h n).0
  cleared :
      {h : Heap}
      → Reachable base size h
      → (m : Memory) (count n : ℕ) → Reachable base size (kcalloc h m count n).0
  returned :
      {h k : Heap}
      → Reachable base size h
      → (areas : List (ℕ × ℕ)) (p s : ℕ) (rest : List (ℕ × ℕ))
      → allocated h.blocks ≡ areas ++ (p, s) ∷ rest
      → kfree h (some p) ≡ some k
      → Reachable base size k
  resized :
      {h k : Heap}
      → Reachable base size h
      → (m m' : Memory) (areas : List (ℕ × ℕ)) (p s : ℕ) (rest : List (ℕ × ℕ))
      → allocated h.blocks ≡ areas ++ (p, s) ∷ rest
      → (n : ℕ) (q : Option ℕ) → krealloc h m (some p) n ≡ some (k, m', q)
      → Reachable base size k

-- The heap is valid and keeps the size that it was given.
abbrev Fits : ℕ → ℕ → Heap → Type 0
Fits base size h = IsValid base h × (h.total_size + header ≡ size)
