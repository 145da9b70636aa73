-- ===== src/Heap/Resizes.antt =====
-- kernel/mm/heap.c: the ways in which `krealloc` changes the heap.
use nv0ken_linux.Prelude.{
  ℕ, ◌≡◌, ◌⊎◌, refl, sym, ap, ◌∙◌, Bool, true, false, not, List, [], leb, ◌==◌, if◌then◌else◌,
  Option, none, some, Bool-cases, inl, inr,
}
use nv0ken_linux.Word.{sub64}
use nv0ken_linux.Bytes.{Memory, memcpy}
use nv0ken_linux.Heap.{Block, Heap, header, kmalloc, kfree, krealloc, in_heap, locate}

-- The heap stays, or it is the one that `kfree`, `kmalloc`, or first `kmalloc` and then `kfree` of the
-- old pointer, leave.
pub krealloc-cases :
    (h k : Heap) (m m' : Memory) (p n : ℕ) (q : Option ℕ)
    → krealloc h m (some p) n ≡ some (k, m', q)
    → (k ≡ h)
      ⊎ (kfree h (some p) ≡ some k)
      ⊎ (k ≡ (kmalloc h n).0)
      ⊎ (kfree (kmalloc h n).0 (some p) ≡ some k)
unfolding krealloc
krealloc-cases h k m m' p n q e = elim (Bool-cases (n == 0)) [
  | inl z ↦ shrunk (kfree h (some p)) refl (sym (ap choose z) ∙ e)
  | inr z ↦ elim (Bool-cases (not (in_heap h (sub64 p header)))) [
    | inl out ↦ inl (same (sym (ap choose z ∙ ap inside out) ∙ e))
    | inr ok ↦ found (locate (sub64 p header) [] h.blocks) (sym (ap choose z ∙ ap inside ok) ∙ e)
  ]
]
  where
    Result : Type 0
    Result = Option (Heap × Memory × Option ℕ)

    heap_of : Result → Heap
    heap_of none = k
    heap_of (some x) = x.0

    same :
        {j : Heap} {x : Memory} {o : Option ℕ}
        → ◌≡◌ {A = Result} (some (j, x, o)) (some (k, m', q))
        → k ≡ j
    same r = sym (ap heap_of r)

    emptied : Option Heap → Result
    emptied o = elim o [ none ↦ none | some h2 ↦ some (h2, m, none) ]

    moved : Block → ℕ → Option Heap → Result
    moved b to o = elim o [ none ↦ none | some h2 ↦ some (h2, memcpy to p b.size m, some to) ]

    grow : Block → Option ℕ → Result
    grow b o = elim o [
      | none ↦ some ((kmalloc h n).0, m, none)
      | some to ↦ moved b to (kfree (kmalloc h n).0 (some p))
    ]

    roomy : Block → Bool → Result
    roomy b t = if t then some (h, m, some p) else grow b (kmalloc h n).1

    live : Block → Bool → Result
    live b t = if t then some (h, m, none) else roomy b (leb n b.size)

    at_block : Option (List Block × Block × List Block) → Result
    at_block o = elim o [ none ↦ none | some (before, b, after) ↦ live b b.free ]

    inside : Bool → Result
    inside t = if t then some (h, m, none) else at_block (locate (sub64 p header) [] h.blocks)

    choose : Bool → Result
    choose t = if t then emptied (kfree h (some p)) else inside (not (in_heap h (sub64 p header)))

    Outcome : Type 0
    Outcome =
        (k ≡ h)
        ⊎ (kfree h (some p) ≡ some k)
        ⊎ (k ≡ (kmalloc h n).0)
        ⊎ (kfree (kmalloc h n).0 (some p) ≡ some k)

    shrunk : (o : Option Heap) → kfree h (some p) ≡ o → emptied o ≡ some (k, m', q) → Outcome
    shrunk none f r = absurd (cc)
    shrunk (some j) f r = inr (inl (f ∙ ap some (sym (same r))))

    shifted :
        (b : Block) (to : ℕ) (o : Option Heap)
        → kfree (kmalloc h n).0 (some p) ≡ o
        → moved b to o ≡ some (k, m', q)
        → Outcome
    shifted b to none f r = absurd (cc)
    shifted b to (some j) f r = inr (inr (inr (f ∙ ap some (sym (same r)))))

    grown : (b : Block) (o : Option ℕ) → grow b o ≡ some (k, m', q) → Outcome
    grown b none r = inr (inr (inl (same r)))
    grown b (some to) r = shifted b to (kfree (kmalloc h n).0 (some p)) refl r

    sized : (b : Block) (t : Bool) → roomy b t ≡ some (k, m', q) → Outcome
    sized b true r = inl (same r)
    sized b false r = grown b (kmalloc h n).1 r

    busy : (b : Block) (t : Bool) → live b t ≡ some (k, m', q) → Outcome
    busy b true r = inl (same r)
    busy b false r = sized b (leb n b.size) r

    found : (o : Option (List Block × Block × List Block)) → at_block o ≡ some (k, m', q) → Outcome
    found none r = absurd (cc)
    found (some (before, b, after)) r = busy b b.free r
