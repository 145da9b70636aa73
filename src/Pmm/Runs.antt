-- ===== src/Pmm/Runs.antt =====
-- Allocation of several frames in a row.

use nv0ken_linux.Prelude.{
  ℕ, zero, suc, ◌+◌, ◌-◌, ◌*◌, ◌≤◌, ◌<◌, ◌≡◌, ◌≢◌, sym, ap, ◌∙◌, true, false, arith, if◌then◌else◌,
  inl, inr, ◌⊎◌, none, some, Option-cases,
}
use nv0ken_linux.Word.{add64}
use nv0ken_linux.Bitmap
use nv0ken_linux.Bitmap.{Bitmap}
use nv0ken_linux.Bitmap.Search.{find_clear_range-some, find_clear_range-none, Blocked}
use nv0ken_linux.Pmm.{
  Pmm, IsValid, frame_size, frame_index, alloc_frames, alloc_run_at, set_bits, reserve, used,
}
use nv0ken_linux.Pmm.Alloc.{used-taken, frame_index_of}
use nv0ken_linux.Pmm.Invariant.{taken, taken-IsValid, free_pos, reserve_free}
use nv0ken_linux.Pmm.Effects.{within, run, run-reserve}

-- The frames from `i` on are free and exist.
abbrev FreeRun : Pmm → ℕ → ℕ → Type 0
FreeRun p n i = (k : ℕ) → i ≤ k → k < i + n → used p k ≡ false

FreeRun-tail :
    {p : Pmm} (n i : ℕ)
    → IsValid p
    → i < p.total_frames
    → FreeRun p (suc n) i
    → FreeRun (taken p i) n (i + 1)
FreeRun-tail {p} n i v h free k low high = ground (arith, used-taken i k v h, free k)

-- Setting the bits of a free run and subtracting its length reserves its frames one by one.
run_reserved :
    (n i : ℕ) {p : Pmm}
    → IsValid p
    → i + n ≤ p.total_frames
    → FreeRun p n i
    → (n ≤ p.free_frames)
      × (record p { frame_map = set_bits n i p.frame_map; free_frames = p.free_frames - n }
          ≡ run reserve n i p)
unfolding set_bits run
run_reserved zero i {p} v h free = (omega arith, ground arith)
run_reserved (suc n) i {p} v h free =
    let first = free i (omega arith) (omega arith) in
    let rest =
      run_reserved n (i + 1) (taken-IsValid i v (omega arith) first) (omega arith)
        (FreeRun-tail n i v (omega arith) free) in
    (
      omega (arith, rest.0, free_pos i v (omega arith) first),
      ground (
        arith,
        rest.1,
        ap (λ t. set_bits n t (Bitmap.set p.frame_map i)) next,
        ap (run reserve n (i + 1)) (reserve_free i v (omega arith) first),
      ),
    )
  where
    next : add64 i 1 ≡ i + 1
    next = omega (arith, v.bounded)

-- Both outcomes of `pmm_alloc_frames`.
data RunAllocated (p : Pmm) (count : ℕ) : Type 0 where
  no_run :
      Bitmap.find_clear_range p.frame_map count ≡ none
      → alloc_frames p count ≡ (0, p)
      → RunAllocated p count
  run_found :
      (i : ℕ)
      → Bitmap.find_clear_range p.frame_map count ≡ some i
      → i + count ≤ p.total_frames
      → FreeRun p count i
      → alloc_frames p count ≡ (i * frame_size, run reserve count i p)
      → RunAllocated p count

module _ {p : Pmm} (count i : ℕ) (v : IsValid p)
    (e : Bitmap.find_clear_range p.frame_map count ≡ some i) where
  found_inside : i + count ≤ p.total_frames
  found_inside = omega (arith, (find_clear_range-some p.frame_map count 0 e).0, v.covers)

  found_free : FreeRun p count i
  found_free k low high = ground (arith, (find_clear_range-some p.frame_map count k e).1)

  alloc_run_at-some : alloc_run_at p count (some i) ≡ (i * frame_size, run reserve count i p)
  unfolding alloc_run_at
  alloc_run_at-some =
      let r = run_reserved count i v found_inside found_free in
      ground (arith, found_inside, r.0, r.1, v.counted, v.bounded)

alloc_frames-RunAllocated : {p : Pmm} (count : ℕ) → IsValid p → RunAllocated p count
unfolding alloc_frames alloc_run_at
alloc_frames-RunAllocated {p} count v =
    elim (Option-cases (Bitmap.find_clear_range p.frame_map count)) [
      | inl e ↦ no_run e (ap (alloc_run_at p count) e)
      | inr (i, e) ↦
          run_found i e (found_inside count i v e) (found_free count i v e)
            (ap (alloc_run_at p count) e ∙ alloc_run_at-some count i v e)
    ]

-- `pmm_alloc_frames` that returns a non-zero address hands out `count` frames in a row: each was
-- free and is in use afterwards, no other frame changes, the free count falls by `count` and the
-- invariant is kept.
pub alloc_frames_run :
    {p q : Pmm} {a : ℕ} (count j : ℕ)
    → IsValid p
    → alloc_frames p count ≡ (a, q)
    → a ≢ 0
    → ((within count (frame_index a) j ≡ false) ⊎ (used p j ≡ false))
      × (used q j ≡ (if within count (frame_index a) j then true else used p j))
      × (q.free_frames + count ≡ p.free_frames)
      × IsValid q
alloc_frames_run {p} {q} {a} count j v e ne = elim (alloc_frames-RunAllocated count v) [
  | no_run _ e' ↦ absurd (ne (ap (λ r. r.0) (sym e ∙ e')))
  | run_found i _ inside free e' ↦
      let ea : a ≡ i * frame_size = ap (λ r. r.0) (sym e ∙ e') in
      let eq : q ≡ run reserve count i p = ap (λ r. r.1) (sym e ∙ e') in
      let r = run-reserve count i j v in
      let s = run_reserved count i v inside free in
      rw (ea, eq, frame_index_of i)
        (
          ground (arith, free j),
          ground (arith, r.1, inside),
          ground (arith, s.0, ap (λ t. t.free_frames) s.1),
          r.0,
        )
]

-- Where `pmm_alloc_frames` leaves the allocator as it is, every run of `count` frames has one in use.
pub alloc_frames_fails :
    {p : Pmm} (count s : ℕ)
    → IsValid p
    → 0 < count
    → alloc_frames p count ≡ (0, p)
    → s + count ≤ p.total_frames
    → Blocked p.frame_map count s
alloc_frames_fails {p} count s v pos e h = elim (alloc_frames-RunAllocated count v) [
  | no_run none_found _ ↦
      find_clear_range-none p.frame_map count s v.map_valid none_found pos (omega arith)
  | run_found i _ inside free e' ↦
      let r = run_reserved count i v inside free in
      absurd
        (omega (arith, r.0, ap (λ t. t.free_frames) r.1, ap (λ t. t.1.free_frames) (sym e ∙ e')))
]
