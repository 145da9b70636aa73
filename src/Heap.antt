-- ===== src/Heap.antt =====
-- kernel/mm/heap.c: the kernel heap, a list of blocks that lie one behind the other, each with a
-- header. The list holds the blocks from `head` on by their `next`; the `prev` of a block is the one
-- before it. A pointer that is NULL is none. The bytes are those of Bytes.
pub mod Blocks
pub mod Frees
pub mod Takes
pub mod Invariant
pub mod Laws
pub mod RoundTrip
pub mod Kept
pub mod Resizes
pub mod Reachable
mod Tests
use nv0ken_linux.Prelude.{
  ℕ, zero, suc, ◌+◌, ◌-◌, ◌*◌, ◌/◌, ◌%◌, ◌^◌, ◌≤◌, ◌<◌, ◌≡◌, Bool, true, false, not, ◌&&◌, ◌||◌,
  List, [], ◌∷◌, ◌++◌, ltb, leb, ◌==◌, if◌then◌else◌, Option, none, some,
}
use nv0ken_linux.Word.{add64, sub64}
use nv0ken_linux.Bytes.{Memory, memset, memcpy}

-- `place` is the address of the header.
pub record Block : Type 0 where
  pub place : ℕ
  pub size : ℕ
  pub free : Bool

pub record Heap : Type 0 where
  pub blocks : List Block
  pub total_size : ℕ
  pub used_size : ℕ

-- `sizeof(block_header_t)`
abbrev pub header : ℕ
header = 32

-- `~15u` has 32 bits, so that the conjunction keeps no higher bit of the size.
unfoldable pub align_size : ℕ → ℕ
align_size size = add64 size 15 % 2 ^ 32 / 16 * 16

unfoldable pub init : ℕ → ℕ → Heap
init base size =
    if base == 0 || leb size header
    then record { blocks = []; total_size = 0; used_size = 0 }
    else record {
      blocks = (record { place = base; size = size - header; free = true }) ∷ [];
      total_size = size - header;
      used_size = 0;
    }

-- The block that keeps its place, and the new one behind it.
unfoldable pub split_block : Block → ℕ → Block × List Block
split_block b size = if ltb b.size (size + header + 16) then (b, []) else (
  record b { size = size },
  (record { place = b.place + header + size; size = b.size - size - header; free = true }) ∷ [],
)

-- The loop of `kmalloc`: the block that it takes, and all blocks afterwards.
unfoldable pub take_first : ℕ → List Block → Option (Block × List Block)
take_first size [] = none
take_first size (b ∷ bs) =
    let rest = take_first size bs in
    let (kept, spare) = split_block b size in
    let taken = record kept { free = false } in
    if b.free && leb size b.size
    then some (taken, taken ∷ spare ++ bs)
    else elim rest [ none ↦ none | some (t, cs) ↦ some (t, b ∷ cs) ]

unfoldable pub kmalloc : Heap → ℕ → Heap × Option ℕ
kmalloc h size =
    if size == 0 || ltb (2 ^ 64 - 16) size
    then (h, none)
    else elim (take_first (align_size size) h.blocks) [
      | none ↦ (h, none)
      | some (t, cs) ↦
          (record h { blocks = cs; used_size = add64 h.used_size t.size }, some (t.place + header))
    ]

unfoldable pub kcalloc : Heap → Memory → ℕ → ℕ → Heap × Memory × Option ℕ
kcalloc h m count size =
    let total = (count * size) % 2 ^ 64 in
    let (h1, ptr) = kmalloc h total in
    if not (count == 0) && ltb ((2 ^ 64 - 1) / count) size
    then (h, m, none)
    else elim ptr [ none ↦ (h1, m, none) | some p ↦ (h1, memset p 0 total m, some p) ]

-- The first half of `coalesce`: a block takes in a free one behind it.
unfoldable pub absorb : Block → List Block → List Block
absorb b [] = b ∷ []
absorb b (c ∷ cs) =
    if c.free then (record b { size = b.size + (header + c.size) }) ∷ cs else b ∷ c ∷ cs

-- The blocks `before`, nearest first, put back in front of a list.
unfoldable pub behind : List Block → List Block → List Block
behind [] bs = bs
behind (p ∷ ps) bs = behind ps (p ∷ bs)

unfoldable pub coalesce : List Block → Block → List Block → List Block
coalesce [] b after = absorb b after
coalesce (p ∷ ps) b after =
    let back = coalesce ps p (absorb b after) in
    if p.free then back else behind (p ∷ ps) (absorb b after)

-- The block whose header stands at an address, with those before it, nearest first, and behind it.
unfoldable pub locate : ℕ → List Block → List Block → Option (List Block × Block × List Block)
locate a before [] = none
locate a before (b ∷ bs) =
    let rest = locate a (b ∷ before) bs in if b.place == a then some (before, b, bs) else rest

-- `head`, 0 before `heap_init`.
abbrev pub head_at : List Block → ℕ
head_at [] = 0
head_at (b ∷ bs) = b.place

abbrev pub in_heap : Heap → ℕ → Bool
in_heap h a = leb (head_at h.blocks) a && ltb a (head_at h.blocks + h.total_size + header)

-- None for a pointer into the heap that no block starts at: the code takes the bytes before it for a
-- header.
unfoldable pub kfree : Heap → Option ℕ → Option Heap
kfree h none = some h
kfree h (some p) =
    if not (in_heap h (sub64 p header))
    then some h
    else elim (locate (sub64 p header) [] h.blocks) [
      | none ↦ none
      | some (before, b, after) ↦ some (record h {
        blocks = coalesce before (record b { free = true }) after;
        used_size = if b.free then h.used_size else sub64 h.used_size b.size;
      })
    ]

unfoldable pub krealloc : Heap → Memory → Option ℕ → ℕ → Option (Heap × Memory × Option ℕ)
krealloc h m none size = let (h1, ptr) = kmalloc h size in some (h1, m, ptr)
krealloc h m (some p) size =
    let (h1, ptr) = kmalloc h size in
    if size == 0
    then elim (kfree h (some p)) [ none ↦ none | some h2 ↦ some (h2, m, none) ]
    else if not (in_heap h (sub64 p header))
    then some (h, m, none)
    else elim (locate (sub64 p header) [] h.blocks) [
      | none ↦ none
      | some (before, b, after) ↦
          if b.free
          then some (h, m, none)
          else if leb size b.size
          then some (h, m, some p)
          else elim ptr [
            | none ↦ some (h1, m, none)
            | some q ↦ elim (kfree h1 (some p)) [
              | none ↦ none
              | some h2 ↦ some (h2, memcpy q p b.size m, some q)
            ]
          ]
    ]

unfoldable pub bytes_used : Heap → ℕ
bytes_used h = h.used_size

unfoldable pub bytes_free : Heap → ℕ
bytes_free h = if ltb h.used_size h.total_size then h.total_size - h.used_size else 0
