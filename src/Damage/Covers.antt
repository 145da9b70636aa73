-- ===== src/Damage/Covers.antt =====
-- graphics/server/damage.c: no change on the surface is lost.
use nv0ken_linux.Prelude.{
  ◌≡◌, refl, sym, ap, ◌∙◌, arith, Bool, true, false, not, ◌&&◌, ◌||◌, List, [], ◌∷◌, ◌++◌, leb,
  if◌then◌else◌, length, Option, none, some, Bool-cases, inl, inr,
}
use nv0ken_linux.Prelude.Int.{ℤ, pos}
use nv0ken_linux.Clip.{Rect, Span, positive, span_has}
use nv0ken_linux.Damage.{
  DamageTracker, max_rects, add_full, clamp_span, clamp_rect, merge_into, add_rect, add_all, merge,
}
use nv0ken_linux.Damage.Bits.{and_true, and_parts, or_right, idle_bits, covered_bits, or_next}
use nv0ken_linux.Damage.Spans.{
  rect_has, any_has, damaged, on_surface, clamp_span_keeps, has-positive, merge_into-keeps,
  any_has-append,
}

module _ (px py : ℤ) (dt : DamageTracker) (r : Rect) where
  -- `add_rect` behind its first tests.
  abbrev appended : Bool → DamageTracker
  appended b = if b then add_full dt else record dt { rects = dt.rects ++ clamp_rect dt r ∷ [] }

  abbrev merged : Option (List Rect) → DamageTracker
  merged o = elim o [
    | some rs ↦ record dt { rects = rs }
    | none ↦ appended (leb max_rects (length dt.rects))
  ]

  abbrev skipped : Bool
  skipped = dt.full || not (positive (clamp_rect dt r).w) || not (positive (clamp_rect dt r).h)

  add_rect-merged :
      (b : Bool)
      → skipped ≡ b
      → add_rect dt r ≡ (if b then dt else merged (merge_into (clamp_rect dt r) dt.rects))
  unfolding add_rect
  add_rect-merged b e =
      ap (λ (t : Bool). if t then dt else merged (merge_into (clamp_rect dt r) dt.rects)) e

  clamp_rect-keeps :
      on_surface dt px py ≡ true
      → rect_has r px py ≡ true
      → (rect_has (clamp_rect dt r) px py ≡ true)
        × (positive (clamp_rect dt r).w ≡ true)
        × (positive (clamp_rect dt r).h ≡ true)
  unfolding clamp_rect
  clamp_rect-keeps s h = (
    and_true (span_has xs px) (span_has ys py) across down,
    has-positive px xs across,
    has-positive py ys down,
  )
    where
      xs : Span
      xs = clamp_span dt.surface_w (r.x, r.w)

      ys : Span
      ys = clamp_span dt.surface_h (r.y, r.h)

      surfaces :
          (span_has (pos 0, dt.surface_w) px ≡ true) × (span_has (pos 0, dt.surface_h) py ≡ true)
      surfaces = and_parts (span_has (pos 0, dt.surface_w) px) (span_has (pos 0, dt.surface_h) py) s

      spans : (span_has (r.x, r.w) px ≡ true) × (span_has (r.y, r.h) py ≡ true)
      spans = and_parts (span_has (r.x, r.w) px) (span_has (r.y, r.h) py) h

      across : span_has xs px ≡ true
      across = clamp_span_keeps px dt.surface_w (r.x, r.w) surfaces.0 spans.0

      down : span_has ys py ≡ true
      down = clamp_span_keeps py dt.surface_h (r.y, r.h) surfaces.1 spans.1

  merged-keeps :
      (o : Option (List Rect))
      → merge_into (clamp_rect dt r) dt.rects ≡ o
      → (rect_has (clamp_rect dt r) px py || any_has dt.rects px py) ≡ true
      → damaged (merged o) px py ≡ true
  unfolding add_full
  merged-keeps (some rs) e h =
      or_right dt.full (any_has rs px py) (merge_into-keeps px py (clamp_rect dt r) dt.rects rs e h)
  merged-keeps none e h = elim (Bool-cases (leb max_rects (length dt.rects))) [
    | inl b ↦ ap (λ (t : Bool). damaged (appended t) px py) b
    | inr b ↦
        ap (λ (t : Bool). damaged (appended t) px py) b
        ∙ or_right dt.full (any_has (dt.rects ++ clamp_rect dt r ∷ []) px py)
            (any_has-append px py dt.rects (clamp_rect dt r) ∙ h)
  ]

  added :
      skipped ≡ false
      → (rect_has (clamp_rect dt r) px py || any_has dt.rects px py) ≡ true
      → damaged (add_rect dt r) px py ≡ true
  added t h =
      ap (λ (d : DamageTracker). damaged d px py) (add_rect-merged false t)
      ∙ merged-keeps (merge_into (clamp_rect dt r) dt.rects) refl h

-- A point of the surface that was damaged, or that lies in the added rectangle, is damaged after
-- `damage_add_rect`.
pub add_rect-keeps :
    (px py : ℤ) (dt : DamageTracker) (r : Rect)
    → on_surface dt px py ≡ true
    → (rect_has r px py || damaged dt px py) ≡ true
    → damaged (add_rect dt r) px py ≡ true
add_rect-keeps px py dt r s h = elim (Bool-cases (skipped px py dt r)) [
  | inl t ↦ ap (λ (d : DamageTracker). damaged d px py) (add_rect-merged px py dt r true t) ∙ idle t
  | inr t ↦ added px py dt r t (covered t)
]
  where
    inside :
        rect_has r px py ≡ true
        → (positive (clamp_rect dt r).w
            && positive (clamp_rect dt r).h
            && rect_has (clamp_rect dt r) px py)
          ≡ true
    inside k = let i = clamp_rect-keeps px py dt r s k in rw (i.0, i.1, i.2) refl

    idle : skipped px py dt r ≡ true → damaged dt px py ≡ true
    idle t =
        idle_bits (rect_has r px py) dt.full (any_has dt.rects px py) (positive (clamp_rect dt r).w)
          (positive (clamp_rect dt r).h) (rect_has (clamp_rect dt r) px py) inside h t

    covered :
        skipped px py dt r ≡ false
        → (rect_has (clamp_rect dt r) px py || any_has dt.rects px py) ≡ true
    covered t =
        covered_bits (rect_has r px py) dt.full (any_has dt.rects px py)
          (positive (clamp_rect dt r).w) (positive (clamp_rect dt r).h)
          (rect_has (clamp_rect dt r) px py) inside h t

-- The surface stays the same.
same_surface :
    (px py : ℤ) (dt : DamageTracker) (r : Rect)
    → on_surface (add_rect dt r) px py ≡ on_surface dt px py
unfolding add_full
same_surface px py dt r = elim (Bool-cases (skipped px py dt r)) [
  | inl t ↦ ap seen (add_rect-merged px py dt r true t)
  | inr t ↦
      ap seen (add_rect-merged px py dt r false t) ∙ same (merge_into (clamp_rect dt r) dt.rects)
]
  where
    seen : DamageTracker → Bool
    seen d = on_surface d px py

    either : (b : Bool) → seen (appended px py dt r b) ≡ seen dt
    either true = refl
    either false = refl

    same : (o : Option (List Rect)) → seen (merged px py dt r o) ≡ seen dt
    same (some rs) = refl
    same none = either (leb max_rects (length dt.rects))

add_all-keeps :
    (px py : ℤ) (dt : DamageTracker) (rects : List Rect)
    → on_surface dt px py ≡ true
    → (any_has rects px py || damaged dt px py) ≡ true
    → damaged (add_all dt rects) px py ≡ true
unfolding add_all
add_all-keeps px py dt [] s h = h
add_all-keeps px py dt (r ∷ rects) s h =
    add_all-keeps px py (add_rect dt r) rects (same_surface px py dt r ∙ s) (
      or_next (rect_has r px py) (any_has rects px py) (damaged dt px py)
        (damaged (add_rect dt r) px py) (add_rect-keeps px py dt r s) h)

-- A point of the surface that was damaged in either tracker is damaged in the first one after
-- `damage_merge` has added the second to it.
pub merge-keeps :
    (px py : ℤ) (dst src : DamageTracker)
    → on_surface dst px py ≡ true
    → (damaged src px py || damaged dst px py) ≡ true
    → damaged (merge dst src) px py ≡ true
unfolding merge add_full
merge-keeps px py dst src s h = elim (Bool-cases src.full) [
  | inl f ↦ ap chosen f
  | inr f ↦
      ap chosen f
      ∙ add_all-keeps px py dst src.rects s
          (sym (ap (λ (b : Bool). b || any_has src.rects px py || damaged dst px py) f) ∙ assoc ∙ h)
]
  where
    chosen : Bool → Bool
    chosen b = damaged (if b then add_full dst else add_all dst src.rects) px py

    assoc :
        (src.full || any_has src.rects px py || damaged dst px py)
        ≡ (damaged src px py || damaged dst px py)
    assoc = ground arith
