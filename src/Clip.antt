-- ===== src/Clip.antt =====
-- graphics/draw/clip.c: the stack of clipping rectangles. Coordinates are integers; the sums of the
-- code are taken to fit into an int.
pub mod Points
pub mod Rects
mod Tests
use nv0ken_linux.Prelude.{
  ℕ, zero, suc, ◌+◌, ◌-◌, ◌≤◌, ◌<◌, ◌≡◌, Bool, true, false, not, ◌&&◌, ◌||◌, List, [], ◌∷◌, ltb,
  leb, ◌==◌, if◌then◌else◌, get_or, set, replicate, length,
}
use nv0ken_linux.Prelude.Int.{ℤ, pos, negsuc, ◌+ℤ◌, ◌-ℤ◌, ltb_ℤ}

pub record Rect : Type 0 where
  pub x : ℤ
  pub y : ℤ
  pub w : ℤ
  pub h : ℤ

abbrev pub stack_depth : ℕ
stack_depth = 16

pub record ClipStack : Type 0 where
  pub stack : List Rect
  pub depth : ℕ
  pub active : Rect
  pub surface_w : ℤ
  pub surface_h : ℤ

abbrev pub no_rect : Rect
no_rect = record { x = pos 0; y = pos 0; w = pos 0; h = pos 0 }

abbrev pub surface : ℤ → ℤ → Rect
surface w h = record { x = pos 0; y = pos 0; w = w; h = h }

unfoldable pub init : ℤ → ℤ → ClipStack
init w h = record {
  stack = replicate stack_depth no_rect;
  depth = 0;
  active = surface w h;
  surface_w = w;
  surface_h = h;
}

unfoldable pub recompute_active : ClipStack → ClipStack
recompute_active cs =
    if cs.depth == 0
    then record cs { active = surface cs.surface_w cs.surface_h }
    else record cs { active = get_or cs.stack (cs.depth - 1) no_rect }

-- One axis of the code, which treats both alike: a start and a length.
abbrev pub Span : Type 0
Span = ℤ × ℤ

unfoldable pub at_least_zero : ℤ → ℤ
at_least_zero a = if ltb_ℤ a (pos 0) then pos 0 else a

-- The meeting of two spans, with its length cut at 0.
unfoldable pub meet : Span → Span → Span
meet (x, w) (cx, cw) =
    let x1 = if ltb_ℤ cx x then x else cx in
    let x2 = if ltb_ℤ (x +ℤ w) (cx +ℤ cw) then x +ℤ w else cx +ℤ cw in
    (x1, at_least_zero (x2 -ℤ x1))

-- A negative start is moved to 0.
unfoldable pub from_zero : Span → Span
from_zero (x, w) = if ltb_ℤ x (pos 0) then (pos 0, at_least_zero (w +ℤ x)) else (x, w)

-- A span that ends behind the surface is cut.
unfoldable pub up_to : ℤ → Span → Span
up_to limit (x, w) = (x, at_least_zero (if ltb_ℤ limit (x +ℤ w) then limit -ℤ x else w))

-- The rectangle that `clip_push` computes, on one axis.
abbrev pub clipped_span : Bool → ℤ → Span → Span → Span
clipped_span first limit s active = up_to limit (from_zero (if first then s else meet s active))

unfoldable pub clipped : ClipStack → Rect → Rect
clipped cs r =
    let (x, w) = clipped_span (cs.depth == 0) cs.surface_w (r.x, r.w) (cs.active.x, cs.active.w) in
    let (y, h) = clipped_span (cs.depth == 0) cs.surface_h (r.y, r.h) (cs.active.y, cs.active.h) in
    record { x = x; y = y; w = w; h = h }

unfoldable pub push : ClipStack → Rect → ClipStack
push cs r = recompute_active (
    if ltb cs.depth stack_depth
    then record cs { stack = set cs.stack cs.depth (clipped cs r); depth = cs.depth + 1 }
    else cs)

unfoldable pub pop : ClipStack → ClipStack
pop cs = if cs.depth == 0 then cs else recompute_active (record cs { depth = cs.depth - 1 })

unfoldable pub reset : ClipStack → ClipStack
reset cs = record cs { depth = 0; active = surface cs.surface_w cs.surface_h }

-- A point of a span, and of a rectangle.
abbrev pub span_has : Span → ℤ → Bool
span_has (x, w) p = not (ltb_ℤ p x) && ltb_ℤ p (x +ℤ w)

unfoldable pub contains : ClipStack → ℤ → ℤ → Bool
contains cs px py = span_has (cs.active.x, cs.active.w) px && span_has (cs.active.y, cs.active.h) py

-- On one axis, `clip_rect` keeps what two spans share. The length may be negative.
unfoldable pub shared : Span → Span → Span
shared (x, w) (cx, cw) =
    let x1 = if ltb_ℤ cx x then x else cx in
    let x2 = if ltb_ℤ (x +ℤ w) (cx +ℤ cw) then x +ℤ w else cx +ℤ cw in (x1, x2 -ℤ x1)

abbrev pub positive : ℤ → Bool
positive a = ltb_ℤ (pos 0) a

unfoldable pub clip_rect : ClipStack → Rect → Bool × Rect
clip_rect cs r =
    let (x, w) = shared (r.x, r.w) (cs.active.x, cs.active.w) in
    let (y, h) = shared (r.y, r.h) (cs.active.y, cs.active.h) in
    if not (positive r.w) || not (positive r.h)
    then (false, r)
    else (positive w && positive h, record { x = x; y = y; w = w; h = h })

unfoldable pub rect_visible : ClipStack → Rect → Bool
rect_visible cs r =
    positive cs.active.w
    && positive cs.active.h
    && positive r.w
    && positive r.h
    && ltb_ℤ r.x (cs.active.x +ℤ cs.active.w)
    && ltb_ℤ cs.active.x (r.x +ℤ r.w)
    && ltb_ℤ r.y (cs.active.y +ℤ cs.active.h)
    && ltb_ℤ cs.active.y (r.y +ℤ r.h)
