-- ===== src/Pmm/Invariant.antt =====
-- What the loop bodies of the frame allocator do to one frame, and that they keep its invariant.

use nv0ken_linux.Prelude.{
  ℕ, ◌+◌, ◌-◌, ◌/◌, ◌≤◌, ◌<◌, ◌≡◌, refl, ap, ◌∙◌, min, true, false, ◌&&◌, List, arith, ltb,
  if◌then◌else◌, ◌==◌, ◌⊎◌, inl, inr, length,
}
use nv0ken_linux.Bitmap
use nv0ken_linux.Bitmap.{Bitmap}
use nv0ken_linux.Bitmap.Laws.{
  test-set, test-clear, bit_count-set, bit_count-clear, set-IsValid, clear-IsValid, test-fill,
  set_all-IsValid, bit_count-set_all, test_out,
}
use nv0ken_linux.Bitmap.Count.{ones, ones-le, ones-set, ones-clear, ones_all}
use nv0ken_linux.Pmm.{Pmm, IsValid, max_frames, frame_size, init, give_back, reserve, used}

-- Frames beyond the last are not in use.
pub used_out : {p : Pmm} (i : ℕ) → IsValid p → p.total_frames ≤ i → used p i ≡ false
used_out {p} i v h = test_out p.frame_map i (omega arith)

-- The states that the two branches which do something lead to.
abbrev pub freed : Pmm → ℕ → Pmm
freed p i = record p { frame_map = Bitmap.clear p.frame_map i; free_frames = p.free_frames + 1 }

abbrev pub taken : Pmm → ℕ → Pmm
taken p i = record p { frame_map = Bitmap.set p.frame_map i; free_frames = p.free_frames - 1 }

pub freed-IsValid :
    {p : Pmm} (i : ℕ) → IsValid p → i < p.total_frames → used p i ≡ true → IsValid (freed p i)
freed-IsValid {p} i v h on = record {
  map_valid = clear-IsValid i v.map_valid;
  covers = bit_count-clear p.frame_map i ∙ v.covers;
  bounded = v.bounded;
  counted = omega (
    arith,
    ap (λ n. ones (Bitmap.test (Bitmap.clear p.frame_map i)) n 0) (bit_count-clear p.frame_map i),
    ones-clear i v.map_valid (omega arith) on,
    v.counted,
  );
}

pub taken-IsValid :
    {p : Pmm} (i : ℕ) → IsValid p → i < p.total_frames → used p i ≡ false → IsValid (taken p i)
taken-IsValid {p} i v h off = record {
  map_valid = set-IsValid i v.map_valid;
  covers = bit_count-set p.frame_map i ∙ v.covers;
  bounded = v.bounded;
  counted = omega (
    arith,
    ap (λ n. ones (Bitmap.test (Bitmap.set p.frame_map i)) n 0) (bit_count-set p.frame_map i),
    ones-set i v.map_valid (omega arith) off,
    ones-le (Bitmap.test (Bitmap.set p.frame_map i)) p.frame_map.bit_count 0,
    v.counted,
  );
}

-- A clear bit is counted.
pub free_pos :
    {p : Pmm} (i : ℕ) → IsValid p → i < p.total_frames → used p i ≡ false → 0 < p.free_frames
free_pos {p} i v h off = omega (
  arith,
  ones-set i v.map_valid (omega arith) off,
  ones-le (Bitmap.test (Bitmap.set p.frame_map i)) p.frame_map.bit_count 0,
  v.counted,
)

pub give_back_cases :
    {p : Pmm} (i : ℕ)
    → IsValid p
    → ((give_back p i ≡ p) × (used p i ≡ false))
      ⊎ ((give_back p i ≡ freed p i) × (used p i ≡ true) × (i < p.total_frames))
unfolding give_back
give_back_cases {p} i v = ground (arith, used_out i v)

pub reserve_cases :
    {p : Pmm} (i : ℕ)
    → IsValid p
    → ((reserve p i ≡ p) × ((used p i ≡ true) ⊎ (p.total_frames ≤ i)))
      ⊎ ((reserve p i ≡ taken p i) × (used p i ≡ false) × (i < p.total_frames))
unfolding reserve
reserve_cases {p} i v = ground (arith, free_pos i v, v.counted)

pub reserve_free :
    {p : Pmm} (i : ℕ) → IsValid p → i < p.total_frames → used p i ≡ false → reserve p i ≡ taken p i
reserve_free {p} i v h off = ground (arith, reserve_cases i v)

pub give_back-IsValid : {p : Pmm} (i : ℕ) → IsValid p → IsValid (give_back p i)
give_back-IsValid {p} i v = elim (give_back_cases i v) [
  | inl (e, _) ↦ rw e v
  | inr (e, on, h) ↦ rw e (freed-IsValid i v h on)
]

pub reserve-IsValid : {p : Pmm} (i : ℕ) → IsValid p → IsValid (reserve p i)
reserve-IsValid {p} i v = elim (reserve_cases i v) [
  | inl (e, _) ↦ rw e v
  | inr (e, off, h) ↦ rw e (taken-IsValid i v h off)
]

pub total-give_back : (p : Pmm) (i : ℕ) → (give_back p i).total_frames ≡ p.total_frames
unfolding give_back
total-give_back p i = ground arith

pub total-reserve : (p : Pmm) (i : ℕ) → (reserve p i).total_frames ≡ p.total_frames
unfolding reserve
total-reserve p i = ground arith

-- Giving a frame back changes that frame only.
pub used-give_back :
    {p : Pmm} (i j : ℕ) → IsValid p → used (give_back p i) j ≡ (if i == j then false else used p j)
used-give_back {p} i j v = elim (give_back_cases i v) [
  | inl (e, off) ↦ ground (arith, e, ap (used p) {x = i} {y = j})
  | inr (e, on, h) ↦ ground (arith, e, test-clear i j v.map_valid)
]

-- Reserving a frame changes that frame only.
pub used-reserve :
    {p : Pmm} (i j : ℕ)
    → IsValid p
    → used (reserve p i) j ≡ (if (i == j) && ltb i p.total_frames then true else used p j)
used-reserve {p} i j v = elim (reserve_cases i v) [
  | inl (e, stays) ↦ ground (arith, e, ap (used p) {x = i} {y = j})
  | inr (e, off, h) ↦ ground (arith, e, test-set i j v.map_valid)
]

-- `pmm_init` sets up a valid allocator in which every frame is in use, whatever the array held.
pub init-IsValid :
    (storage : List ℕ) (top i : ℕ)
    → length storage ≡ max_frames / 64
    → let p = init storage top in
      IsValid p × (p.free_frames ≡ 0) × (used p i ≡ ltb i p.total_frames)
unfolding init Bitmap.init Bitmap.storage_words
init-IsValid storage top i room = (
  record {
    map_valid = set_all-IsValid fresh_valid;
    covers = covers;
    bounded = omega arith;
    counted = omega (
      arith,
      covers,
      ones_all (Bitmap.test (Bitmap.set_all fresh)) (Bitmap.set_all fresh).bit_count 0
          (λ j p q. ground (arith, test-fill j fresh_valid, covers)),
    );
  },
  refl,
  (test-fill i fresh_valid).0,
)
  where
    fresh : Bitmap
    fresh = Bitmap.init storage (min (top / frame_size) max_frames)

    fresh_valid : Bitmap.IsValid fresh
    fresh_valid = omega arith

    covers : (Bitmap.set_all fresh).bit_count ≡ min (top / frame_size) max_frames
    covers = bit_count-set_all fresh
