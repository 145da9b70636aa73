-- ===== src/Pmm.antt =====
-- kernel/mm/pmm.c: the allocator of physical frames over a bitmap in which a set bit is a frame in
-- use. The record holds the file's static variables.
-- A frame address that `bitmap_find_clear` does not find is 0, as in the code.
pub mod Invariant
pub mod Effects
pub mod Alloc
pub mod Runs
pub mod Mark
mod Tests
use nv0ken_linux.Prelude.{
  ℕ, zero, suc, ◌+◌, ◌-◌, ◌*◌, ◌/◌, ◌^◌, ◌≤◌, ◌<◌, ◌≡◌, min, Bool, true, false, not, ◌&&◌, List,
  Option, none, some, ltb, if◌then◌else◌, length,
}
use nv0ken_linux.Word.{add64, sub64, mul64, align_up, align_down}
use nv0ken_linux.Bitmap
use nv0ken_linux.Bitmap.{Bitmap}
use nv0ken_linux.Bitmap.Count.{ones}

abbrev pub frame_size : ℕ
frame_size = 4096

abbrev pub max_frames : ℕ
max_frames = 1024 * 1024

pub record Pmm : Type 0 where
  pub frame_map : Bitmap
  pub total_frames : ℕ
  pub free_frames : ℕ

unfoldable pub frame_index : ℕ → ℕ
frame_index addr = addr / frame_size

-- `storage` is the static array `frame_storage`.
unfoldable pub init : List ℕ → ℕ → Pmm
init storage memory_top = record {
  frame_map = Bitmap.set_all (Bitmap.init storage total);
  total_frames = total;
  free_frames = 0;
}
  where
    total : ℕ
    total = min (memory_top / frame_size) max_frames

-- The body that `pmm_mark_usable` and `pmm_free_frames` share.
unfoldable pub give_back : Pmm → ℕ → Pmm
give_back p index =
    if ltb index p.total_frames && Bitmap.test p.frame_map index
    then record p {
      frame_map = Bitmap.clear p.frame_map index;
      free_frames = add64 p.free_frames 1;
    }
    else p

-- The body of the loop of `pmm_mark_reserved`.
unfoldable pub reserve : Pmm → ℕ → Pmm
reserve p index =
    if ltb index p.total_frames && not (Bitmap.test p.frame_map index)
    then record p { frame_map = Bitmap.set p.frame_map index; free_frames = sub64 p.free_frames 1 }
    else p

-- `for (addr = start; addr < end; addr += PMM_FRAME_SIZE)` on fuel.
pub each_frame : ℕ → (Pmm → ℕ → Pmm) → ℕ → ℕ → Pmm → Pmm
each_frame zero body addr end p = p
each_frame (suc fuel) body addr end p =
    let rest = each_frame fuel body (add64 addr frame_size) end (body p (frame_index addr)) in
    if ltb addr end then rest else p

-- One round for each frame below `end`, and one for the last test.
abbrev pub rounds : ℕ → ℕ
rounds end = end / frame_size + 1

unfoldable pub mark_usable : Pmm → ℕ → ℕ → Pmm
unfolding each_frame
mark_usable p base len =
    let end = align_down (add64 base len) frame_size in
    each_frame (rounds end) give_back (align_up base frame_size) end p

unfoldable pub mark_reserved : Pmm → ℕ → ℕ → Pmm
unfolding each_frame
mark_reserved p base len =
    let end = align_up (add64 base len) frame_size in
    each_frame (rounds end) reserve (align_down base frame_size) end p

alloc_at : Pmm → Option ℕ → ℕ × Pmm
alloc_at p none = (0, p)
alloc_at p (some index) = (
  mul64 index frame_size,
  record p { frame_map = Bitmap.set p.frame_map index; free_frames = sub64 p.free_frames 1 },
)

unfoldable pub alloc_frame : Pmm → ℕ × Pmm
unfolding alloc_at
alloc_frame p = alloc_at p (Bitmap.find_clear p.frame_map)

-- `for (i = 0; i < count; ++i) bitmap_set(&frame_map, index + i)`, from `index` on.
pub set_bits : ℕ → ℕ → Bitmap → Bitmap
set_bits zero index b = b
set_bits (suc n) index b = set_bits n (add64 index 1) (Bitmap.set b index)

alloc_run_at : Pmm → ℕ → Option ℕ → ℕ × Pmm
alloc_run_at p count none = (0, p)
alloc_run_at p count (some index) = (
  mul64 index frame_size,
  record p {
    frame_map = set_bits count index p.frame_map;
    free_frames = sub64 p.free_frames count;
  },
)

unfoldable pub alloc_frames : Pmm → ℕ → ℕ × Pmm
unfolding alloc_run_at set_bits
alloc_frames p count = alloc_run_at p count (Bitmap.find_clear_range p.frame_map count)

-- The loop of `pmm_free_frames`, with `n` frames left from `index` on.
pub free_from : ℕ → ℕ → Pmm → Pmm
free_from zero index p = p
free_from (suc n) index p = free_from n (add64 index 1) (give_back p index)

unfoldable pub free_frames : Pmm → ℕ → ℕ → Pmm
unfolding free_from
free_frames p frame count = free_from count (frame_index frame) p

unfoldable pub free_frame : Pmm → ℕ → Pmm
free_frame p frame = free_frames p frame 1

unfoldable pub free_count : Pmm → ℕ
free_count p = p.free_frames

unfoldable pub used_count : Pmm → ℕ
used_count p = sub64 p.total_frames p.free_frames

-- Frame `index` is in use.
abbrev pub used : Pmm → ℕ → Bool
used p index = Bitmap.test p.frame_map index

-- The map covers the frames, and `free_frames` counts its clear bits.
pub record IsValid (p : Pmm) : Type 0 where
  pub map_valid : Bitmap.IsValid p.frame_map
  pub covers : p.frame_map.bit_count ≡ p.total_frames
  pub bounded : p.total_frames ≤ max_frames
  pub counted :
      p.free_frames + ones (Bitmap.test p.frame_map) p.frame_map.bit_count 0 ≡ p.total_frames
