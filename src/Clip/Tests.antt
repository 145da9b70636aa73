-- ===== src/Clip/Tests.antt =====
-- A surface of 100 by 80 with one rectangle on the stack.
use nv0ken_linux.Prelude.{◌≡◌, refl, arith, true, set, replicate}
use nv0ken_linux.Prelude.Int.{pos, negsuc, ◌+ℤ◌}
use nv0ken_linux.Clip.{Rect, ClipStack, no_rect, push, contains, recompute_active}
use nv0ken_linux.Clip.Points.{IsValid, contains-push}

abbrev window : Rect
window = record { x = pos 10; y = pos 10; w = pos 50; h = pos 40 }

abbrev sample : ClipStack
sample = record {
  stack = set (replicate 16 no_rect) 0 window;
  depth = 1;
  active = window;
  surface_w = pos 100;
  surface_h = pos 80;
}

abbrev dialog : Rect
dialog = record { x = negsuc 4; y = pos 20; w = pos 30; h = pos 100 }

sample-IsValid : IsValid sample
unfolding recompute_active
sample-IsValid = record { sized = refl; within = omega arith; current = refl }

contains-push_example : contains (push sample dialog) (pos 12) (pos 49) ≡ true
unfolding contains ◌+ℤ◌
contains-push_example =
    contains-push dialog sample-IsValid (omega arith) (pos 12) (pos 49) (refl, refl, refl, refl)
