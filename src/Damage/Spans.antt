-- ===== src/Damage/Spans.antt =====
-- graphics/server/damage.c: the points of clamped and united rectangles, and of the list.
use nv0ken_linux.Prelude.{
  ◌≡◌, refl, sym, ap, ◌∙◌, subst, arith, Bool, true, false, not, ◌&&◌, ◌||◌, List, [], ◌∷◌, ◌++◌,
  if◌then◌else◌, Option, none, some, Bool-cases, Option-cases, inl, inr,
}
use nv0ken_linux.Prelude.Int.{ℤ, pos, ◌+ℤ◌, ◌-ℤ◌, ltb_ℤ, +ℤ_parts, -ℤ_parts}
use nv0ken_linux.Clip.{Rect, Span, positive, span_has}
use nv0ken_linux.Damage.{DamageTracker, clamp_span, span_union, rect_union, merges, merge_into}
use nv0ken_linux.Damage.Bits.{or_first, or_second, and_true, or_swap, or_cases, or_later}

-- A point of a rectangle, and of one of a list; a point that is drawn again.
abbrev pub rect_has : Rect → ℤ → ℤ → Bool
rect_has r px py = span_has (r.x, r.w) px && span_has (r.y, r.h) py

abbrev pub any_has : List Rect → ℤ → ℤ → Bool
any_has [] px py = false
any_has (r ∷ rects) px py = rect_has r px py || any_has rects px py

abbrev pub damaged : DamageTracker → ℤ → ℤ → Bool
damaged dt px py = dt.full || any_has dt.rects px py

abbrev pub on_surface : DamageTracker → ℤ → ℤ → Bool
on_surface dt px py = span_has (pos 0, dt.surface_w) px && span_has (pos 0, dt.surface_h) py

pub clamp_span_keeps :
    (p limit : ℤ) (s : Span)
    → span_has (pos 0, limit) p ≡ true
    → span_has s p ≡ true
    → span_has (clamp_span limit s) p ≡ true
unfolding clamp_span
clamp_span_keeps p limit (x, w) h k = ground (
  arith,
  h,
  k,
  +ℤ_parts (pos 0) limit,
  +ℤ_parts x w,
  +ℤ_parts w x,
  +ℤ_parts (pos 0) (w +ℤ x),
  -ℤ_parts limit x,
  +ℤ_parts x (limit -ℤ x),
  -ℤ_parts limit (pos 0),
  +ℤ_parts (pos 0) (limit -ℤ pos 0),
  +ℤ_parts x (pos 0),
  +ℤ_parts (pos 0) (pos 0),
)

pub has-positive : (p : ℤ) (s : Span) → span_has s p ≡ true → positive s.1 ≡ true
has-positive p (x, w) h = ground (arith, h, +ℤ_parts x w)

-- A point between the ends of a span.
pub ends : (p x w : ℤ) → span_has (x, w) p ≡ (not (ltb_ℤ p x) && ltb_ℤ p (x +ℤ w))
ends p x w = refl

pub between_ends :
    (p x1 x2 : ℤ) → not (ltb_ℤ p x1) && ltb_ℤ p x2 ≡ true → span_has (x1, x2 -ℤ x1) p ≡ true
between_ends p x1 x2 h = ground (arith, h, -ℤ_parts x2 x1, +ℤ_parts x1 (x2 -ℤ x1))

pub within_both :
    (p a b c d : ℤ)
    → (not (ltb_ℤ p a) && ltb_ℤ p c || not (ltb_ℤ p b) && ltb_ℤ p d) ≡ true
    → (not (ltb_ℤ p (if ltb_ℤ a b then a else b)) && ltb_ℤ p (if ltb_ℤ d c then c else d)) ≡ true
within_both p a b c d h = ground (arith, h)

pub span_union_keeps :
    (p : ℤ) (s t : Span)
    → (span_has s p || span_has t p) ≡ true
    → span_has (span_union s t) p ≡ true
unfolding span_union
span_union_keeps p (ax, aw) (bx, bw) h =
    between_ends p (if ltb_ℤ ax bx then ax else bx)
      (if ltb_ℤ (bx +ℤ bw) (ax +ℤ aw) then ax +ℤ aw else bx +ℤ bw)
      (within_both p ax bx (ax +ℤ aw) (bx +ℤ bw) h)

pub rect_union-keeps :
    (px py : ℤ) (r q : Rect)
    → (rect_has r px py || rect_has q px py) ≡ true
    → rect_has (rect_union r q) px py ≡ true
unfolding rect_union
rect_union-keeps px py r q h =
    both (span_union_keeps px (r.x, r.w) (q.x, q.w) (first h))
      (span_union_keeps py (r.y, r.h) (q.y, q.h) (second h))
  where
    a : Bool
    a = span_has (r.x, r.w) px

    b : Bool
    b = span_has (r.y, r.h) py

    c : Bool
    c = span_has (q.x, q.w) px

    d : Bool
    d = span_has (q.y, q.h) py

    first : (a && b || c && d) ≡ true → (a || c) ≡ true
    first h = or_first a b c d h

    second : (a && b || c && d) ≡ true → (b || d) ≡ true
    second h = or_second a b c d h

    both : {u v : Bool} → u ≡ true → v ≡ true → (u && v) ≡ true
    both {u} {v} e f = and_true u v e f

-- What a merge holds: the points of the list and those of the rectangle.
pub merge_into-keeps :
    (px py : ℤ) (r : Rect) (rects rs : List Rect)
    → merge_into r rects ≡ some rs
    → (rect_has r px py || any_has rects px py) ≡ true
    → any_has rs px py ≡ true
unfolding merge_into
merge_into-keeps px py r [] rs e h = absurd cc
merge_into-keeps px py r (ex ∷ rects) rs e h = elim (Bool-cases (merges ex r)) [
  | inl m ↦
      subst (λ (l : List Rect). any_has l px py ≡ true) (now m e)
        (or_cases (rect_has r px py) (rect_has ex px py) (any_has rects px py)
          (rect_has (rect_union ex r) px py) (rect_union-keeps px py ex r) h)
  | inr m ↦ elim (Option-cases (merge_into r rects)) [
    | inl f ↦ absurd (cc (sym (ap choose m) ∙ e, f))
    | inr (qs, f) ↦
        subst (λ (l : List Rect). any_has l px py ≡ true) (later m qs f)
          (or_later (rect_has r px py) (rect_has ex px py) (any_has rects px py) (any_has qs px py)
            (merge_into-keeps px py r rects qs f) h)
  ]
]
  where
    kept : Option (List Rect) → Option (List Rect)
    kept o = elim o [ none ↦ none | some qs ↦ some (ex ∷ qs) ]

    choose : Bool → Option (List Rect)
    choose b = if b then some (rect_union ex r ∷ rects) else kept (merge_into r rects)

    some_inj : {l m : List Rect} → some l ≡ some m → l ≡ m
    some_inj k = cc

    now : merges ex r ≡ true → choose (merges ex r) ≡ some rs → rect_union ex r ∷ rects ≡ rs
    now m e = some_inj (sym (ap choose m) ∙ e)

    later : merges ex r ≡ false → (qs : List Rect) → merge_into r rects ≡ some qs → ex ∷ qs ≡ rs
    later m qs f = some_inj (sym (ap choose m ∙ ap kept f) ∙ e)

pub any_has-append :
    (px py : ℤ) (rects : List Rect) (r : Rect)
    → any_has (rects ++ r ∷ []) px py ≡ (rect_has r px py || any_has rects px py)
any_has-append px py [] r = refl
any_has-append px py (q ∷ rects) r =
    ap (λ (b : Bool). rect_has q px py || b) (any_has-append px py rects r)
    ∙ or_swap (rect_has q px py) (rect_has r px py) (any_has rects px py)
