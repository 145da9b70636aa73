-- ===== src/Heap/Tests.antt =====
-- A heap of 1024 bytes at 4096, with a request for 20 bytes.
use nv0ken_linux.Prelude.{
  ℕ, ◌+◌, ◌^◌, ◌<◌, ◌≡◌, ◌↔◌, refl, arith, true, false, List, [], ◌∷◌, ◌++◌, Option, none, some,
}
use nv0ken_linux.Heap.{
  Heap, Block, align_size, init, split_block, take_first, kmalloc, absorb, behind, coalesce, locate,
  kfree, krealloc, kcalloc,
}
use nv0ken_linux.Bytes.{memcpy}
use nv0ken_linux.Heap.Blocks.{allocated}
use nv0ken_linux.Heap.Invariant.{IsValid, Added, init-IsValid}
use nv0ken_linux.Heap.Laws.{kmalloc-Added, kmalloc-none, kmalloc_wraps}
use nv0ken_linux.Heap.Reachable.{Reachable}
use nv0ken_linux.Heap.RoundTrip.{kfree_lem, kfree-kmalloc}

abbrev sample : Heap
sample = record {
  blocks = (record { place = 4096; size = 992; free = true }) ∷ [];
  total_size = 992;
  used_size = 0;
}

-- With the area of 32 bytes at 4128.
abbrev one : Heap
one = record {
  blocks =
      (record { place = 4096; size = 32; free = false })
      ∷ (record { place = 4160; size = 928; free = true })
      ∷ [];
  total_size = 992;
  used_size = 32;
}

one_runs : kmalloc sample 20 ≡ (one, some 4128)
unfolding kmalloc align_size take_first split_block
one_runs = refl

sample-IsValid : IsValid 4096 sample
sample-IsValid = ((refl, refl), tt, refl, omega arith)

one-IsValid : IsValid 4096 one
one-IsValid = ((refl, (refl, refl)), (refl, tt), refl, omega arith)

init-IsValid_runs : IsValid 4096 (init 4096 1024)
init-IsValid_runs = init-IsValid 4096 1024 (omega arith) (omega arith) (omega arith)

abbrev moved : Option ℕ
unfolding krealloc kmalloc align_size take_first split_block kfree locate coalesce absorb behind
    memcpy
moved = elim (krealloc one (λ (a : ℕ). a) (some 4128) 100) [ none ↦ none | some (h, m, p) ↦ p ]

moved_runs : moved ≡ some 4192
unfolding krealloc kmalloc align_size take_first split_block kfree locate coalesce absorb behind
    memcpy
moved_runs = refl

kcalloc_runs : (kcalloc one (λ (a : ℕ). a) (2 ^ 40) (2 ^ 40)).2 ≡ none
unfolding kcalloc kmalloc
kcalloc_runs = refl

kmalloc-Added_example : IsValid 4096 one × Added 32 [] 4128 ((4128, 32) ∷ [])
unfolding align_size
kmalloc-Added_example = kmalloc-Added 4096 sample 20 one 4128 sample-IsValid one_runs

kmalloc-none_example : (kmalloc one 2000 ≡ (one, none)) ↔ (
    (xs : List Block) (b : Block) (ys : List Block)
    → one.blocks ≡ xs ++ b ∷ ys
    → b.free ≡ true
    → b.size < align_size 2000)
kmalloc-none_example = kmalloc-none one 2000 (omega arith) (omega arith)

kmalloc_wraps_example : kmalloc sample (20 + 2 ^ 32) ≡ kmalloc sample 20
kmalloc_wraps_example = kmalloc_wraps sample 20 (omega arith) (omega arith)

-- The memory is started, 20 bytes are requested, and resized to 100, which moves them.
abbrev resized_heap : Heap
resized_heap = record {
  blocks =
      (record { place = 4096; size = 32; free = true })
      ∷ (record { place = 4160; size = 112; free = false })
      ∷ (record { place = 4304; size = 784; free = true })
      ∷ [];
  total_size = 992;
  used_size = 112;
}

kfree_lem_example :
    (k : Heap) × (kfree one (some 4128) ≡ some k) × IsValid 4096 k × (allocated k.blocks ≡ [])
kfree_lem_example = kfree_lem 4096 one [] 4128 32 [] one-IsValid refl

kfree-kmalloc_example : kfree one (some 4128) ≡ some sample
kfree-kmalloc_example = kfree-kmalloc 4096 sample 20 one 4128 sample-IsValid one_runs
