-- ===== src/Pmm/Tests.antt =====
-- Runs of the frame allocator, and its theorems at six frames of which 0, 1 and 3 are in use.
use nv0ken_linux.Prelude.{◌+◌, ◌≡◌, refl, arith, [], ◌∷◌}
use nv0ken_linux.Word.{test_mask}
use nv0ken_linux.Bitmap
use nv0ken_linux.Bitmap.{Bitmap}
use nv0ken_linux.Pmm.{Pmm, IsValid, alloc_frame, alloc_frames}
use nv0ken_linux.Pmm.Invariant.{taken}
use nv0ken_linux.Pmm.Alloc.{alloc_frame_fresh}
use nv0ken_linux.Pmm.Runs.{alloc_frames_run}

abbrev sample : Pmm
sample = record {
  frame_map = record { words = 11 ∷ []; bit_count = 6 };
  total_frames = 6;
  free_frames = 3;
}

sample-IsValid : IsValid sample
unfolding Bitmap.test test_mask Bitmap.storage_words
sample-IsValid = omega arith

abbrev full : Pmm
full = record {
  frame_map = record { words = 63 ∷ []; bit_count = 6 };
  total_frames = 6;
  free_frames = 0;
}

full-IsValid : IsValid full
unfolding Bitmap.test test_mask Bitmap.storage_words
full-IsValid = omega arith

alloc_frame_fresh_example : (alloc_frame sample).1.free_frames + 1 ≡ 3
unfolding alloc_frame Bitmap.find_clear Bitmap.test test_mask
alloc_frame_fresh_example =
    (alloc_frame_fresh {p = sample} {q = taken sample 2} {a = 8192} 2 sample-IsValid refl
      (omega arith)).2

alloc_frames_run_example : (alloc_frames sample 2).1.free_frames + 2 ≡ 3
unfolding alloc_frames Bitmap.find_clear_range Bitmap.test test_mask
alloc_frames_run_example =
    (alloc_frames_run {p = sample} {a = 16384} 2 4 sample-IsValid refl (omega arith)).2
