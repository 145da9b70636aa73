-- ===== src/Damage/Tests.antt =====
-- A surface of 100 by 100 points.
use nv0ken_linux.Prelude.{◌≡◌, refl, true, false, [], ◌∷◌}
use nv0ken_linux.Prelude.Int.{pos, negsuc, ◌+ℤ◌, ◌-ℤ◌}
use nv0ken_linux.Clip.{Rect, no_rect}
use nv0ken_linux.Damage.{
  DamageTracker, init, add_full, clamp_rect, clamp_span, rects_overlap, span_union, rect_union,
  rect_area, merges, merge_into, add_rect, merge, is_clean, clip_all, clip_to, union_all,
  bounding_box, rect_of,
}
use nv0ken_linux.Damage.Spans.{damaged}
use nv0ken_linux.Damage.Covers.{add_rect-keeps, merge-keeps}

abbrev corner : Rect
corner = rect_of (negsuc 4, pos 20) (pos 0, pos 10)

abbrev sample : DamageTracker
sample = record {
  rects = rect_of (pos 50, pos 8) (pos 60, pos 8) ∷ [];
  full = false;
  surface_w = pos 100;
  surface_h = pos 100;
}

added_runs :
    (add_rect sample corner).rects
    ≡ rect_of (pos 50, pos 8) (pos 60, pos 8) ∷ rect_of (pos 0, pos 15) (pos 0, pos 10) ∷ []
unfolding add_rect clamp_rect clamp_span merge_into merges rects_overlap rect_union span_union
    rect_area ◌+ℤ◌ ◌-ℤ◌
added_runs = refl

clean_runs : is_clean (init (pos 100) (pos 100)) ≡ true
unfolding is_clean init
clean_runs = refl

clip_runs : (clip_to sample (pos 55) (pos 50)).rects ≡ []
unfolding clip_to clip_all clamp_rect clamp_span ◌+ℤ◌ ◌-ℤ◌
clip_runs = refl

-- The box of a tracker that is damaged everywhere is empty.
full_runs : bounding_box (add_full sample) ≡ no_rect
unfolding bounding_box add_full
full_runs = refl

box_runs : bounding_box sample ≡ rect_of (pos 50, pos 8) (pos 60, pos 8)
unfolding bounding_box union_all
box_runs = refl

add_rect-keeps_example : damaged (add_rect sample corner) (pos 3) (pos 4) ≡ true
unfolding ◌+ℤ◌
add_rect-keeps_example = add_rect-keeps (pos 3) (pos 4) sample corner refl refl

merge-keeps_example :
    damaged (merge sample (record sample { rects = corner ∷ [] })) (pos 3) (pos 4) ≡ true
unfolding ◌+ℤ◌
merge-keeps_example =
    merge-keeps (pos 3) (pos 4) sample (record sample { rects = corner ∷ [] }) refl refl
