-- ===== src/Pmm/Mark.antt =====
-- What the two passes over the boot memory map do: whole frames inside a usable range become free,
-- and every frame that a reserved range touches is taken.
use nv0ken_linux.Prelude.{
  ℕ, ◌+◌, ◌-◌, ◌*◌, ◌/◌, ◌^◌, ◌≤◌, ◌<◌, ◌≡◌, ap, ◌∙◌, Bool, true, false, ◌&&◌, arith, ltb, leb,
  if◌then◌else◌,
}
use nv0ken_linux.Word.{add64, align_down, align_up}
use nv0ken_linux.Word.Align.{align_down_lem, align_up_lem}
use nv0ken_linux.Pmm.{
  Pmm, IsValid, frame_size, give_back, reserve, used, mark_usable, mark_reserved, each_frame,
  rounds,
}
use nv0ken_linux.Pmm.Effects.{run, each_frame-run, run-give_back, run-reserve, within}

-- The first frame at or above an address, and the frame that holds it.
abbrev frame_above : ℕ → ℕ
frame_above a = (a + 4095) / frame_size

abbrev frame_of : ℕ → ℕ
frame_of a = a / frame_size

-- The two loops, from their rounded bounds to the frames between them.
frames-run :
    (body : Pmm → ℕ → Pmm) (p : Pmm) {from to : ℕ} (i e : ℕ)
    → from ≡ i * frame_size
    → to ≡ e * frame_size
    → (e + 1) * frame_size ≤ 2 ^ 64
    → each_frame (rounds to) body from to p ≡ run body (e - i) i p
frames-run body p {from} {to} i e pf pt h =
    ap (λ t. each_frame (rounds t) body from t p) pt
    ∙ ap (λ t. each_frame (rounds (e * frame_size)) body t (e * frame_size) p) pf
    ∙ each_frame-run (rounds (e * frame_size)) body i e p (omega arith) h

module _ (base len : ℕ) (fits : base + len + 2 * frame_size ≤ 2 ^ 64) where
  down_at : (x : ℕ) → x ≤ base + len → align_down x frame_size ≡ frame_of x * frame_size
  down_at x h = align_down_lem 12 (omega arith) x (omega arith)

  up_at : (x : ℕ) → x ≤ base + len → align_up x frame_size ≡ frame_above x * frame_size
  up_at x h = align_up_lem 12 (omega arith) x (omega arith)

  no_wrap : add64 base len ≡ base + len
  no_wrap = omega arith

  mark_usable-run :
      (p : Pmm)
      → mark_usable p base len
        ≡ run give_back (frame_of (base + len) - frame_above base) (frame_above base) p
  unfolding mark_usable
  mark_usable-run p =
      frames-run give_back p (frame_above base) (frame_of (base + len)) (up_at base (omega arith))
        (ap (λ t. align_down t frame_size) no_wrap ∙ down_at (base + len) (omega arith))
        (omega arith)

  mark_reserved-run :
      (p : Pmm)
      → mark_reserved p base len
        ≡ run reserve (frame_above (base + len) - frame_of base) (frame_of base) p
  unfolding mark_reserved
  mark_reserved-run p =
      frames-run reserve p (frame_of base) (frame_above (base + len)) (down_at base (omega arith))
        (ap (λ t. align_up t frame_size) no_wrap ∙ up_at (base + len) (omega arith)) (omega arith)

-- `pmm_mark_usable` frees exactly the frames that lie wholly inside `[base, base + len)`, and keeps
-- the invariant, as long as the end of the range does not come near 2 ^ 64.
pub mark_usable_lem :
    {p : Pmm} (base len j : ℕ)
    → IsValid p
    → base + len + 2 * frame_size ≤ 2 ^ 64
    → IsValid (mark_usable p base len)
      × (used (mark_usable p base len) j ≡ (
          if leb base (j * frame_size) && leb ((j + 1) * frame_size) (base + len)
          then false
          else used p j))
mark_usable_lem {p} base len j v h =
    rw (mark_usable-run base len h p)
      (r.0, r.1 ∙ ap (λ (t : Bool). if t then false else used p j) inside)
  where
    r :
        IsValid (run give_back (frame_of (base + len) - frame_above base) (frame_above base) p)
        × (used (run give_back (frame_of (base + len) - frame_above base) (frame_above base) p) j
            ≡ (if within (frame_of (base + len) - frame_above base) (frame_above base) j
                then false
                else used p j))
        × ((run give_back
              (frame_of (base + len) - frame_above base)
              (frame_above base)
              p).total_frames
            ≡ p.total_frames)
    r = run-give_back (frame_of (base + len) - frame_above base) (frame_above base) j v

    inside :
        within (frame_of (base + len) - frame_above base) (frame_above base) j
        ≡ (leb base (j * frame_size) && leb ((j + 1) * frame_size) (base + len))
    inside = ground arith

-- `pmm_mark_reserved` takes every existing frame that a non-empty `[base, base + len)` touches, and
-- no other, and keeps the invariant, under the same bound.
pub mark_reserved_lem :
    {p : Pmm} (base len j : ℕ)
    → IsValid p
    → 0 < len
    → base + len + 2 * frame_size ≤ 2 ^ 64
    → IsValid (mark_reserved p base len)
      × (used (mark_reserved p base len) j ≡ (
          if ltb base ((j + 1) * frame_size)
            && ltb (j * frame_size) (base + len)
            && ltb j p.total_frames
          then true
          else used p j))
mark_reserved_lem {p} base len j v pos h =
    rw (mark_reserved-run base len h p)
      (r.0, r.1 ∙ ap (λ (t : Bool). if t then true else used p j) inside)
  where
    r :
        IsValid (run reserve (frame_above (base + len) - frame_of base) (frame_of base) p)
        × (used (run reserve (frame_above (base + len) - frame_of base) (frame_of base) p) j ≡ (
            if within (frame_above (base + len) - frame_of base) (frame_of base) j
              && ltb j p.total_frames
            then true
            else used p j))
        × ((run reserve (frame_above (base + len) - frame_of base) (frame_of base) p).total_frames
            ≡ p.total_frames)
    r = run-reserve (frame_above (base + len) - frame_of base) (frame_of base) j v

    inside :
        (within (frame_above (base + len) - frame_of base) (frame_of base) j
          && ltb j p.total_frames)
        ≡ (ltb base ((j + 1) * frame_size)
            && ltb (j * frame_size) (base + len)
            && ltb j p.total_frames)
    inside = ground arith
