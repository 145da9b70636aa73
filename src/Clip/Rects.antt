-- ===== src/Clip/Rects.antt =====
-- Cutting a rectangle to the active one.
use nv0ken_linux.Prelude.{
  ◌≡◌, sym, ap, ◌∙◌, arith, Bool, true, false, not, ◌&&◌, ◌||◌, if◌then◌else◌, Bool-cases, inl, inr,
}
use nv0ken_linux.Prelude.Int.{ℤ, ◌+ℤ◌, ◌-ℤ◌, ltb_ℤ, +ℤ_parts, -ℤ_parts}
use nv0ken_linux.Clip.{Rect, ClipStack, Span, span_has, contains, shared, positive, clip_rect}
use nv0ken_linux.Clip.Points.{rect_has, behind_both, before_both, shuffle_ends}

module _ (p : ℤ) where
  between_any : (x1 x2 : ℤ) → span_has (x1, x2 -ℤ x1) p ≡ (not (ltb_ℤ p x1) && ltb_ℤ p x2)
  between_any x1 x2 = ground (arith, -ℤ_parts x2 x1, +ℤ_parts x1 (x2 -ℤ x1))

  shared_points : (s t : Span) → span_has (shared s t) p ≡ (span_has s p && span_has t p)
  unfolding shared
  shared_points (x, w) (cx, cw) =
      between_any (if ltb_ℤ cx x then x else cx)
        (if ltb_ℤ (x +ℤ w) (cx +ℤ cw) then x +ℤ w else cx +ℤ cw)
      ∙ ap (λ (b : Bool). not b && ltb_ℤ p (if ltb_ℤ (x +ℤ w) (cx +ℤ cw) then x +ℤ w else cx +ℤ cw))
          (behind_both p x cx)
      ∙ ap (λ (b : Bool). not (ltb_ℤ p x || ltb_ℤ p cx) && b) (before_both p (x +ℤ w) (cx +ℤ cw))
      ∙ shuffle_ends (ltb_ℤ p x) (ltb_ℤ p cx) (ltb_ℤ p (x +ℤ w)) (ltb_ℤ p (cx +ℤ cw))

  no_points : (s : Span) → positive s.1 ≡ false → span_has s p ≡ false
  no_points (x, w) e = ground (arith, +ℤ_parts x w)

-- The points that `clip_rect` leaves are those that the rectangle and the active one share. Where it
-- says that nothing is left, they share none.
pub clip_rect-points :
    (cs : ClipStack) (r : Rect) (px py : ℤ)
    → ((clip_rect cs r).0 && rect_has (clip_rect cs r).1 px py)
      ≡ (rect_has r px py && contains cs px py)
unfolding clip_rect contains
clip_rect-points cs r px py = elim (Bool-cases (not (positive r.w) || not (positive r.h))) [
  | inl e ↦ rw e (sym (ap (λ b. b && rect_has cs.active px py) (outside e)))
  | inr e ↦ rw e (keeps ∙ meets)
]
  where
    xs : Span
    xs = shared (r.x, r.w) (cs.active.x, cs.active.w)

    ys : Span
    ys = shared (r.y, r.h) (cs.active.y, cs.active.h)

    outside : (not (positive r.w) || not (positive r.h)) ≡ true → rect_has r px py ≡ false
    outside e = ground (arith, no_points px (r.x, r.w), no_points py (r.y, r.h))

    keeps :
        ((positive xs.1 && positive ys.1) && (span_has xs px && span_has ys py))
        ≡ (span_has xs px && span_has ys py)
    keeps =
        tidy (positive xs.1) (positive ys.1) (span_has xs px) (span_has ys py) (no_points px xs)
          (no_points py ys)
      where
        tidy :
            (a b c d : Bool)
            → (a ≡ false → c ≡ false)
            → (b ≡ false → d ≡ false)
            → ((a && b) && (c && d)) ≡ (c && d)
        tidy a b c d h k = ground arith

    meets : (span_has xs px && span_has ys py) ≡ (rect_has r px py && rect_has cs.active px py)
    meets =
        ap (λ b. b && span_has ys py) (shared_points px (r.x, r.w) (cs.active.x, cs.active.w))
        ∙ ap (λ b. (span_has (r.x, r.w) px && span_has (cs.active.x, cs.active.w) px) && b)
            (shared_points py (r.y, r.h) (cs.active.y, cs.active.h))
        ∙ swap (span_has (r.x, r.w) px) (span_has (cs.active.x, cs.active.w) px)
            (span_has (r.y, r.h) py) (span_has (cs.active.y, cs.active.h) py)
      where
        swap : (a b c d : Bool) → ((a && b) && (c && d)) ≡ ((a && c) && (b && d))
        swap a b c d = ground arith
