-- ===== src/Damage.antt =====
-- graphics/server/damage.c: the rectangles of the screen that have changed. The list holds the `count`
-- rectangles in use. Coordinates are integers, and both axes are treated alike, as spans.
mod Bits
pub mod Spans
pub mod Covers
mod Tests
use nv0ken_linux.Prelude.{
  ℕ, zero, suc, ◌+◌, ◌*◌, ◌≤◌, ◌≡◌, Bool, true, false, not, ◌&&◌, ◌||◌, List, [], ◌∷◌, ◌++◌, ltb,
  leb, if◌then◌else◌, is_empty, length, Option, none, some,
}
use nv0ken_linux.Prelude.Int.{ℤ, pos, pos_part, neg_part, sub_ℕ, ◌+ℤ◌, ◌-ℤ◌, ltb_ℤ}
use nv0ken_linux.Clip.{Rect, Span, no_rect, positive, span_has}

abbrev pub max_rects : ℕ
max_rects = 64

pub record DamageTracker : Type 0 where
  pub rects : List Rect
  pub full : Bool
  pub surface_w : ℤ
  pub surface_h : ℤ

unfoldable pub init : ℤ → ℤ → DamageTracker
init w h = record { rects = []; full = false; surface_w = w; surface_h = h }

unfoldable pub reset : DamageTracker → DamageTracker
reset dt = record dt { rects = []; full = false }

unfoldable pub add_full : DamageTracker → DamageTracker
add_full dt = record dt { rects = []; full = true }

-- `clamp_rect` on one axis: the start is moved to 0, the end to the limit, the length not below 0.
abbrev pub start_at_zero : Span → Span
start_at_zero (x, w) = if ltb_ℤ x (pos 0) then (pos 0, w +ℤ x) else (x, w)

abbrev pub end_at : ℤ → Span → Span
end_at limit (x, w) = (x, if ltb_ℤ limit (x +ℤ w) then limit -ℤ x else w)

abbrev pub not_negative : Span → Span
not_negative (x, w) = (x, if ltb_ℤ w (pos 0) then pos 0 else w)

unfoldable pub clamp_span : ℤ → Span → Span
clamp_span limit s = not_negative (end_at limit (start_at_zero s))

abbrev pub rect_of : Span → Span → Rect
rect_of (x, w) (y, h) = record { x = x; y = y; w = w; h = h }

unfoldable pub clamp_rect : DamageTracker → Rect → Rect
unfolding clamp_span
clamp_rect dt r = rect_of (clamp_span dt.surface_w (r.x, r.w)) (clamp_span dt.surface_h (r.y, r.h))

abbrev pub spans_overlap : Span → Span → Bool
spans_overlap (ax, aw) (bx, bw) = ltb_ℤ ax (bx +ℤ bw) && ltb_ℤ bx (ax +ℤ aw)

unfoldable pub rects_overlap : Rect → Rect → Bool
rects_overlap a b = spans_overlap (a.x, a.w) (b.x, b.w) && spans_overlap (a.y, a.h) (b.y, b.h)

unfoldable pub span_union : Span → Span → Span
span_union (ax, aw) (bx, bw) =
    let x1 = if ltb_ℤ ax bx then ax else bx in
    let x2 = if ltb_ℤ (bx +ℤ bw) (ax +ℤ aw) then ax +ℤ aw else bx +ℤ bw in (x1, x2 -ℤ x1)

unfoldable pub rect_union : Rect → Rect → Rect
unfolding span_union
rect_union a b = rect_of (span_union (a.x, a.w) (b.x, b.w)) (span_union (a.y, a.h) (b.y, b.h))

-- The product of two integers, here as in the code of an area that stays in the range of int.
abbrev pub times : ℤ → ℤ → ℤ
times a b =
    sub_ℕ (pos_part a * pos_part b + neg_part a * neg_part b)
      (pos_part a * neg_part b + neg_part a * pos_part b)

unfoldable pub rect_area : Rect → ℤ
rect_area r = times r.w r.h

-- `abs(a - b) < 8`
abbrev pub is_near : ℤ → ℤ → Bool
is_near a b = let d = a -ℤ b in ltb (pos_part d + neg_part d) 8

-- Whether an added rectangle is merged with one of the list.
unfoldable pub merges : Rect → Rect → Bool
unfolding rects_overlap rect_union rect_area
merges ex r =
    (rects_overlap ex r || is_near ex.x r.x && is_near ex.y r.y)
    && not (ltb_ℤ (rect_area ex +ℤ times (rect_area r) (pos 2)) (rect_area (rect_union ex r)))

-- The loop of `damage_add_rect`; none when the rectangle is merged with none.
unfoldable pub merge_into : Rect → List Rect → Option (List Rect)
merge_into r [] = none
merge_into r (ex ∷ rects) =
    let rest = merge_into r rects in
    if merges ex r
    then some (rect_union ex r ∷ rects)
    else elim rest [ none ↦ none | some rs ↦ some (ex ∷ rs) ]

unfoldable pub add_rect : DamageTracker → Rect → DamageTracker
add_rect dt r =
    let c = clamp_rect dt r in
    if dt.full || not (positive c.w) || not (positive c.h)
    then dt
    else elim (merge_into c dt.rects) [
      | some rs ↦ record dt { rects = rs }
      | none ↦
          if leb max_rects (length dt.rects)
          then add_full dt
          else record dt { rects = dt.rects ++ c ∷ [] }
    ]

unfoldable pub add_all : DamageTracker → List Rect → DamageTracker
add_all dt [] = dt
add_all dt (r ∷ rects) = add_all (add_rect dt r) rects

-- `damage_merge`
unfoldable pub merge : DamageTracker → DamageTracker → DamageTracker
merge dst src = if src.full then add_full dst else add_all dst src.rects

unfoldable pub is_clean : DamageTracker → Bool
is_clean dt = not dt.full && is_empty dt.rects

-- `damage_clip_to`: the rectangles are clamped, and the empty ones taken out.
unfoldable pub clip_all : DamageTracker → List Rect → List Rect
clip_all dt [] = []
clip_all dt (r ∷ rects) =
    let rest = clip_all dt rects in
    let c = clamp_rect dt r in if not (positive c.w) || not (positive c.h) then rest else c ∷ rest

unfoldable pub clip_to : DamageTracker → ℤ → ℤ → DamageTracker
unfolding clip_all
clip_to dt w h =
    let resized = record dt { surface_w = w; surface_h = h } in
    record resized { rects = clip_all resized dt.rects }

unfoldable pub union_all : Rect → List Rect → Rect
union_all box [] = box
union_all box (r ∷ rects) = union_all (rect_union box r) rects

unfoldable pub bounding_box : DamageTracker → Rect
bounding_box dt = elim dt.rects [
  | [] ↦ no_rect
  | r ∷ rects ↦
      if dt.full
      then record { x = pos 0; y = pos 0; w = dt.surface_w; h = dt.surface_h }
      else union_all r rects
]
