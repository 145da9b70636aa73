-- ===== src/Pmm/Alloc.antt =====
-- Allocation and release of frames.
use mathlib.Core.Path.{fun_ext}
use native.Mathlib.Decide.{ℕ_discrete, dec_lt}
use nv0ken_linux.Prelude.{
  ℕ, ◌+◌, ◌*◌, ◌%◌, ◌^◌, ◌≤◌, ◌<◌, ◌≡◌, ◌≢◌, sym, ap, ◌∙◌, true, false, arith, if◌then◌else◌, ◌==◌,
  inl, inr, ◌⊎◌, some, Option-cases,
}
use nv0ken_linux.Bitmap
use nv0ken_linux.Bitmap.{Bitmap}
use nv0ken_linux.Bitmap.Laws.{test-set}
use nv0ken_linux.Bitmap.Count.{ones}
use nv0ken_linux.Bitmap.Search.{find_clear-some, find_clear-none}
use nv0ken_linux.Pmm.{
  Pmm, IsValid, frame_size, frame_index, alloc_frame, alloc_at, free_frames, free_frame, used,
}
use nv0ken_linux.Pmm.Invariant.{taken, taken-IsValid, free_pos}
use nv0ken_linux.Pmm.Effects.{within, run-give_back, free_from-run}

-- Both outcomes of `pmm_alloc_frame`: nothing is free and nothing changes, or a free frame is taken.
data Allocated (p : Pmm) : Type 0 where
  exhausted :
      ((k : ℕ) → k < p.total_frames → used p k ≡ true) → alloc_frame p ≡ (0, p) → Allocated p
  fresh :
      (i : ℕ)
      → i < p.total_frames
      → used p i ≡ false
      → alloc_frame p ≡ (i * frame_size, taken p i)
      → Allocated p

alloc_at-some :
    {p : Pmm} (i : ℕ)
    → IsValid p
    → i < p.total_frames
    → used p i ≡ false
    → alloc_at p (some i) ≡ (i * frame_size, taken p i)
unfolding alloc_at
alloc_at-some {p} i v h off = ground (arith, free_pos i v h off, v.counted)

alloc_frame-Allocated : {p : Pmm} → IsValid p → Allocated p
unfolding alloc_frame alloc_at
alloc_frame-Allocated {p} v = elim (Option-cases (Bitmap.find_clear p.frame_map)) [
  | inl e ↦
      exhausted (λ k h. find_clear-none p.frame_map k v.map_valid e (omega arith))
        (ap (alloc_at p) e)
  | inr (i, e) ↦
      fresh i (omega (arith, (find_clear-some p.frame_map 0 e).0))
        (find_clear-some p.frame_map 0 e).1
        (ap (alloc_at p) e
          ∙ alloc_at-some i v (omega (arith, (find_clear-some p.frame_map 0 e).0))
              (find_clear-some p.frame_map 0 e).1)
]

pub used-taken :
    {p : Pmm} (i j : ℕ)
    → IsValid p
    → i < p.total_frames
    → used (taken p i) j ≡ (if i == j then true else used p j)
used-taken {p} i j v h = ground (arith, test-set i j v.map_valid)

pub frame_index_of : (i : ℕ) → frame_index (i * frame_size) ≡ i
unfolding frame_index
frame_index_of i = omega arith

taken_facts :
    {p : Pmm} (i j : ℕ)
    → IsValid p
    → i < p.total_frames
    → used p i ≡ false
    → (used p i ≡ false)
      × (used (taken p i) j ≡ (if i == j then true else used p j))
      × ((taken p i).free_frames + 1 ≡ p.free_frames)
      × (i * frame_size % frame_size ≡ 0)
      × IsValid (taken p i)
taken_facts {p} i j v h off = (
  off,
  used-taken i j v h,
  omega (arith, free_pos i v h off),
  omega arith,
  taken-IsValid i v h off,
)

-- A non-zero address from `pmm_alloc_frame` is that of a frame that was free; it is in use
-- afterwards, no other frame changes, one free frame fewer is counted and the invariant is kept.
pub alloc_frame_fresh :
    {p q : Pmm} {a : ℕ} (j : ℕ)
    → IsValid p
    → alloc_frame p ≡ (a, q)
    → a ≢ 0
    → (used p (frame_index a) ≡ false)
      × (used q j ≡ (if frame_index a == j then true else used p j))
      × (q.free_frames + 1 ≡ p.free_frames)
      × (a % frame_size ≡ 0)
      × IsValid q
alloc_frame_fresh {p} {q} {a} j v e ne = elim (alloc_frame-Allocated v) [
  | exhausted all e' ↦ absurd (ne (ap (λ r. r.0) (sym e ∙ e')))
  | fresh i h off e' ↦
      let ea : a ≡ i * frame_size = ap (λ r. r.0) (sym e ∙ e') in
      let eq : q ≡ taken p i = ap (λ r. r.1) (sym e ∙ e') in
      rw (ea, eq, frame_index_of i) (taken_facts i j v h off)
]

-- `pmm_alloc_frame` returns 0 only when every frame is in use and nothing changes, or when it takes
-- frame 0, which a caller cannot tell from a failure.
pub alloc_frame_zero :
    {p q : Pmm} (k : ℕ)
    → IsValid p
    → alloc_frame p ≡ (0, q)
    → ((q ≡ p) × ((used p k ≡ true) ⊎ (p.total_frames ≤ k)))
      ⊎ ((used p 0 ≡ false) × (q ≡ taken p 0))
alloc_frame_zero {p} {q} k v e = elim (alloc_frame-Allocated v) [
  | exhausted all e' ↦ inl (ap (λ r. r.1) (sym e ∙ e'), in_use all)
  | fresh i h off e' ↦
      let ei : i ≡ 0 = omega (arith, ap (λ r. r.0) (sym e ∙ e')) in
      inr (ap (used p) (sym ei) ∙ off, ap (λ r. r.1) (sym e ∙ e') ∙ ap (taken p) ei)
]
  where
    in_use :
        ((k : ℕ) → k < p.total_frames → used p k ≡ true) → (used p k ≡ true) ⊎ (p.total_frames ≤ k)
    in_use all = elim (dec_lt k p.total_frames) [ yes h ↦ inl (all k h) | no h ↦ inr (omega arith) ]

-- Two allocations in a row never hand out the same frame.
pub alloc_frame_twice :
    {p q r : Pmm} {a b : ℕ}
    → IsValid p
    → alloc_frame p ≡ (a, q)
    → alloc_frame q ≡ (b, r)
    → a ≢ 0
    → b ≢ 0
    → a ≢ b
alloc_frame_twice {p} {q} {r} {a} {b} v e f na nb same =
    let one = alloc_frame_fresh {p = p} {q = q} {a = a} (frame_index a) v e na in
    let two = alloc_frame_fresh {p = q} {q = r} {a = b} 0 one.4 f nb in
    ground (arith, one.1, two.0, ap frame_index same)

total-alloc_frame :
    {p q : Pmm} {a : ℕ} → IsValid p → alloc_frame p ≡ (a, q) → q.total_frames ≡ p.total_frames
total-alloc_frame {p} {q} v e = elim (alloc_frame-Allocated v) [
  | exhausted all e' ↦ ap (λ r. r.1.total_frames) (sym e ∙ e')
  | fresh i h off e' ↦ ap (λ r. r.1.total_frames) (sym e ∙ e')
]

-- Releasing a run of frames keeps the invariant, frees the frames of the run and no other, and
-- takes frames that are free already, or that do not exist, as they are.
pub free_frames_lem :
    {p : Pmm} (frame count j : ℕ)
    → IsValid p
    → frame_index frame + count < 2 ^ 64
    → IsValid (free_frames p frame count)
      × (used (free_frames p frame count) j
          ≡ (if within count (frame_index frame) j then false else used p j))
      × ((free_frames p frame count).total_frames ≡ p.total_frames)
unfolding free_frames
free_frames_lem {p} frame count j v h =
    rw (free_from-run count (frame_index frame) p h) (run-give_back count (frame_index frame) j v)

-- A valid allocator counts the free frames that its map shows, so equal maps have equal counts.
free_count_of_used :
    {p q : Pmm}
    → IsValid p
    → IsValid q
    → p.total_frames ≡ q.total_frames
    → ((j : ℕ) → used p j ≡ used q j)
    → p.free_frames ≡ q.free_frames
free_count_of_used {p} {q} v w t same = omega (
  arith,
  ap (λ f. ones f q.frame_map.bit_count 0) (fun_ext same),
  ap (λ n. ones (Bitmap.test p.frame_map) n 0) counts,
  counts,
  v.counted,
  w.counted,
)
  where
    counts : p.frame_map.bit_count ≡ q.frame_map.bit_count
    counts = omega arith

-- A frame that was allocated and is released again leaves every frame, and the count of free
-- frames, as they were before.
pub free_frame-alloc_frame :
    {p q : Pmm} {a : ℕ} (j : ℕ)
    → IsValid p
    → alloc_frame p ≡ (a, q)
    → a ≢ 0
    → frame_index a + 1 < 2 ^ 64
    → (used (free_frame q a) j ≡ used p j) × ((free_frame q a).free_frames ≡ p.free_frames)
unfolding free_frame
free_frame-alloc_frame {p} {q} {a} j v e ne h =
    (same j, free_count_of_used (free_frames_lem a 1 0 (got 0).4 h).0 v totals same)
  where
    got :
        (k : ℕ)
        → (used p (frame_index a) ≡ false)
          × (used q k ≡ (if frame_index a == k then true else used p k))
          × (q.free_frames + 1 ≡ p.free_frames)
          × (a % frame_size ≡ 0)
          × IsValid q
    got k = alloc_frame_fresh k v e ne

    same : (k : ℕ) → used (free_frames q a 1) k ≡ used p k
    same k = elim (ℕ_discrete (frame_index a) k) [
      | yes hit ↦
          ground
            (arith, (free_frames_lem a 1 k (got 0).4 h).1, (got k).1, (got k).0, ap (used p) hit)
      | no miss ↦ ground (arith, (free_frames_lem a 1 k (got 0).4 h).1, (got k).1)
    ]

    totals : (free_frames q a 1).total_frames ≡ p.total_frames
    totals = (free_frames_lem a 1 0 (got 0).4 h).2 ∙ total-alloc_frame v e
